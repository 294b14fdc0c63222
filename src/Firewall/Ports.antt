-- ===== src/Firewall/Ports.antt =====
-- The ports that the normal form of internal/services/safe/validation.go covers.
use mathlib.Core.Path.{subst}
use oneinstack_panel.Common.{
  ℕ, ◌≡◌, refl, sym, ap, ◌∙◌, Bool, true, false, ◌||◌, List, [], ◌∷◌, any, leb, map, ◌==◌, arith,
  Bool-cases, inl, inr,
}
use oneinstack_panel.Text.{Text, text_eq, is_empty, trim_space}
use oneinstack_panel.Text.Laws.{text_eq_iff}
use oneinstack_panel.Firewall.{
  RuleError, Checked, ok, err, parse_range, split, canonical, has_text, add, collect, insert, sort,
  sorted, start_number, items, normalize_ports, is_portless, port_in, port_set_contains,
}
use oneinstack_panel.Firewall.Ranges.{Checked-cases, item_covers, canonical_covers}

or_true : (b : Bool) → (b || true) ≡ true
or_true true = refl
or_true false = refl

-- One more item, whose canonical form is new.
or_new : (b r v s : Bool) → (r || (b || s)) ≡ (v || (b || s)) → ((b || r) || s) ≡ ((b || v) || s)
or_new true r v s h = refl
or_new false r v s h = h

-- One more item, whose canonical form was seen.
or_seen :
    (b r v s : Bool) → (b ≡ true → s ≡ true) → (r || s) ≡ (v || s) → (r || s) ≡ ((b || v) || s)
or_seen false r v s k h = h
or_seen true r v s k h = ap (λ x. r || x) (k refl) ∙ or_true r

any-has_text :
    (test : Text → Bool) (s : Text) (seen : List Text)
    → has_text s seen ≡ true
    → test s ≡ true
    → any test seen ≡ true
any-has_text test s [] h k = absurd (cc h)
any-has_text test s (t ∷ seen) h k = elim (Bool-cases (text_eq t s)) [
  | inl same ↦ let found : test t ≡ true = ap test ((text_eq_iff t s).0 same) ∙ k in rw found refl
  | inr other ↦
      ap (λ b. test t || b) (any-has_text test s seen (ground (arith, h, other)) k)
      ∙ or_true (test t)
]

add-ok :
    (s : Text) (c : Checked (List Text)) (out : List Text)
    → add s c ≡ ok out
    → (rest : List Text) × (c ≡ ok rest) × (s ∷ rest ≡ out)
add-ok s (err e) out h = absurd (cc h)
add-ok s (ok rest) out h = (rest, refl, cc h)

nil_out : (out : List Text) → ok [] ≡ ok out → [] ≡ out
nil_out out e = cc e

-- A turn of the loop over the items.
collect-err :
    (seen vs : List Text) (v : Text) (x : RuleError)
    → parse_range v ≡ err x
    → collect seen (v ∷ vs) ≡ err x
unfolding collect
collect-err seen vs v x bad = rw (bad, collect) refl

collect-seen :
    (seen vs : List Text) (v : Text) (r : ℕ × ℕ)
    → parse_range v ≡ ok r
    → has_text (canonical r) seen ≡ true
    → collect seen (v ∷ vs) ≡ collect seen vs
unfolding collect
collect-seen seen vs v r read again = rw (read, collect, again) refl

collect-new :
    (seen vs : List Text) (v : Text) (r : ℕ × ℕ)
    → parse_range v ≡ ok r
    → has_text (canonical r) seen ≡ false
    → collect seen (v ∷ vs) ≡ add (canonical r) (collect (canonical r ∷ seen) vs)
unfolding collect
collect-new seen vs v r read fresh = rw (read, collect, fresh) refl

collect_covers :
    (port : ℕ) (seen vs out : List Text)
    → collect seen vs ≡ ok out
    → (any (port_in port) out || any (port_in port) seen)
      ≡ (any (item_covers port) vs || any (port_in port) seen)
unfolding collect
collect_covers port seen [] out e =
    ap (λ o. any (port_in port) o || any (port_in port) seen) (sym (nil_out out e))
collect_covers port seen (v ∷ vs) out e = elim (Checked-cases (parse_range v)) [
  | inl (x, bad) ↦ absurd (cc (sym (collect-err seen vs v x bad) ∙ e))
  | inr (r, read) ↦
      let same = canonical_covers port v r read in
      elim (Bool-cases (has_text (canonical r) seen)) [
        | inl again ↦
            or_seen (item_covers port v) (any (port_in port) out) (any (item_covers port) vs)
              (any (port_in port) seen)
              (λ covered. any-has_text (port_in port) (canonical r) seen again (same ∙ covered))
              (collect_covers port seen vs out (sym (collect-seen seen vs v r read again) ∙ e))
        | inr fresh ↦
            let (rest, got, is) =
              add-ok (canonical r) (collect (canonical r ∷ seen) vs) out
                (sym (collect-new seen vs v r read fresh) ∙ e) in
            ap (λ o. any (port_in port) o || any (port_in port) seen) (sym is)
            ∙ ap (λ b. (b || any (port_in port) rest) || any (port_in port) seen) same
            ∙ or_new (item_covers port v) (any (port_in port) rest) (any (item_covers port) vs)
                (any (port_in port) seen)
                (subst
                  (λ b.
                    (any (port_in port) rest || (b || any (port_in port) seen))
                    ≡ (any (item_covers port) vs || (b || any (port_in port) seen)))
                  same (collect_covers port (canonical r ∷ seen) vs rest got))
      ]
]

-- The first item is kept, so that there is one.
collect-nonempty :
    (v : Text) (vs out : List Text)
    → collect [] (v ∷ vs) ≡ ok out
    → (w : Text) × (ws : List Text) × (out ≡ w ∷ ws)
collect-nonempty v vs out e = elim (Checked-cases (parse_range v)) [
  | inl (x, bad) ↦ absurd (cc (sym (collect-err [] vs v x bad) ∙ e))
  | inr (r, read) ↦
      let (rest, got, is) =
        add-ok (canonical r) (collect (canonical r ∷ []) vs) out
          (sym (collect-new [] vs v r read refl) ∙ e) in
      (canonical r, rest, sym is)
]

any-insert :
    (test : Text → Bool) (s : Text) (ts : List Text)
    → any test (insert s ts) ≡ (test s || any test ts)
unfolding insert
any-insert test s [] = refl
any-insert test s (t ∷ ts) = ground (arith, any-insert test s ts)

any-sort : (test : Text → Bool) (ts : List Text) → any test (sort ts) ≡ any test ts
unfolding sort
any-sort test [] = refl
any-sort test (t ∷ ts) = any-insert test t (sort ts) ∙ ap (λ b. test t || b) (any-sort test ts)

port_set_contains-insert :
    (s : Text) (ts : List Text) (port : ℕ)
    → port_set_contains (insert s ts) port ≡ any (port_in port) (insert s ts)
unfolding port_set_contains insert
port_set_contains-insert s [] port = refl
port_set_contains-insert s (t ∷ ts) port =
    elim (Bool-cases (leb (start_number s) (start_number t))) [
      | inl first ↦ rw (first, insert) refl
      | inr later ↦ rw (later, insert) refl
    ]

split-nonempty : (sep : ℕ) (s : Text) → (v : Text) × (vs : List Text) × (split sep s ≡ v ∷ vs)
unfolding split
split-nonempty sep [] = ([], [], refl)
split-nonempty sep (c ∷ s) = elim (Bool-cases (c == sep)) [
  | inl cut ↦ ([], split sep s, rw (cut, split) refl)
  | inr inner ↦ let (v, vs, is) = split-nonempty sep s in (c ∷ v, vs, rw (inner, split, is) refl)
]

items-nonempty : (raw : Text) → (v : Text) × (vs : List Text) × (items raw ≡ v ∷ vs)
unfolding items
items-nonempty raw =
    let (v, vs, is) = split-nonempty b',' raw in
    (trim_space v, map trim_space vs, ap (map trim_space) is)

sorted-ok :
    (c : Checked (List Text)) (out : List Text)
    → sorted c ≡ ok out
    → (ports : List Text) × (c ≡ ok ports) × (sort ports ≡ out)
sorted-ok (err e) out h = absurd (cc h)
sorted-ok (ok ports) out h = (ports, refl, cc h)

-- A list that is taken is the sorted list of its items.
normalize_ports-collect :
    (raw protocol : Text) (out : List Text)
    → is_empty (trim_space raw) ≡ false
    → normalize_ports raw protocol ≡ ok out
    → sorted (collect [] (items raw)) ≡ ok out
unfolding normalize_ports
normalize_ports-collect raw protocol out given = elim (Bool-cases (is_portless protocol)) [
  | inl portless ↦ rw (given, portless, normalize_ports) (λ e. absurd (cc e))
  | inr ported ↦ elim (Bool-cases (any is_empty (items raw))) [
    | inl gap ↦ rw (given, ported, gap, normalize_ports) (λ e. absurd (cc e))
    | inr full ↦ rw (given, ported, full, normalize_ports) (λ e. e)
  ]
]

port_set_contains-sort :
    (ports : List Text) (w : Text) (ws : List Text) (port : ℕ)
    → ports ≡ w ∷ ws
    → port_set_contains (sort ports) port ≡ any (port_in port) ports
unfolding sort
port_set_contains-sort ports w ws port is =
    subst (λ ps. port_set_contains (sort ps) port ≡ any (port_in port) ps) (sym is)
      (port_set_contains-insert w (sort ws) port ∙ any-sort (port_in port) (w ∷ ws))

or_false : (b : Bool) → (b || false) ≡ b
or_false true = refl
or_false false = refl

-- The normal form of a list of ports that is not blank covers the ports that its items ask for, and no others.
pub normalize_ports-covers :
    (raw protocol : Text) (out : List Text) (port : ℕ)
    → is_empty (trim_space raw) ≡ false
    → normalize_ports raw protocol ≡ ok out
    → port_set_contains out port ≡ any (item_covers port) (items raw)
normalize_ports-covers raw protocol out port given e =
    let (ports, got, is) =
      sorted-ok (collect [] (items raw)) out (normalize_ports-collect raw protocol out given e) in
    let (v, vs, some_items) = items-nonempty raw in
    let (w, ws, some_ports) =
      collect-nonempty v vs ports (ap (collect []) (sym some_items) ∙ got) in
    ap (λ o. port_set_contains o port) (sym is)
    ∙ port_set_contains-sort ports w ws port some_ports
    ∙ sym (or_false (any (port_in port) ports))
    ∙ collect_covers port [] (items raw) ports got
    ∙ or_false (any (item_covers port) (items raw))
