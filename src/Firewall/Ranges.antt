-- ===== src/Firewall/Ranges.antt =====
-- The ranges that the items of a list of ports of internal/services/safe/validation.go ask for.
use mathlib.Core.Path.{subst}
use oneinstack_panel.Common.{
  ℕ, ◌≡◌, ◌≤◌, refl, sym, ap, ◌∙◌, Bool, false, ◌&&◌, List, [], ◌∷◌, leb, Option, none, some, arith,
  Bool-cases, inl, inr, ◌⊎◌,
}
use oneinstack_panel.Text.{Text, trim_space}
use oneinstack_panel.Firewall.{
  RuleError, Checked, ok, err, atoi, in_ports, end_of, start_of, range_of, parse_segments,
  parse_range, split, canonical, port_in,
}
use oneinstack_panel.Firewall.Numbers.{port_in-canonical}

pub Checked-cases :
    {A : Type 0} (c : Checked A) → ((e : RuleError) × (c ≡ err e)) ⊎ ((a : A) × (c ≡ ok a))
Checked-cases (err e) = inl (e, refl)
Checked-cases (ok a) = inr (a, refl)

-- The ports that an item of the list asks for.
abbrev pub covers : ℕ → Checked (ℕ × ℕ) → Bool
covers port (err e) = false
covers port (ok (start, end)) = leb start port && leb port end

abbrev pub item_covers : ℕ → Text → Bool
item_covers port item = covers port (parse_range item)

-- A range that was read lies between 1 and 65535.
abbrev IsRange : Checked (ℕ × ℕ) → Type 0
IsRange (err e) = Unit
IsRange (ok (start, end)) = (1 ≤ start) × (start ≤ end) × (end ≤ 65535)

end_of-IsRange : (start : ℕ) (o : Option ℕ) → 1 ≤ start → IsRange (end_of start o)
end_of-IsRange start none low = tt
end_of-IsRange start (some end) low = elim (Bool-cases (in_ports start end)) [
  | inl good ↦ rw good (low, ground arith, ground arith)
  | inr bad ↦ rw bad tt
]

range_of-IsRange :
    (start : ℕ) (rest : List Text) → 1 ≤ start → start ≤ 65535 → IsRange (range_of (ok start) rest)
unfolding trim_space
range_of-IsRange start [] low high = (low, omega arith, high)
range_of-IsRange start (segment ∷ rest) low high =
    end_of-IsRange start (atoi (trim_space segment)) low

start_of-IsRange : (o : Option ℕ) (rest : List Text) → IsRange (range_of (start_of o) rest)
start_of-IsRange none rest = tt
start_of-IsRange (some start) rest = elim (Bool-cases (in_ports 1 start)) [
  | inr bad ↦ rw bad tt
  | inl good ↦ rw good (range_of-IsRange start rest (ground arith) (ground arith))
]

parse_segments-IsRange : (ss : List Text) → IsRange (parse_segments ss)
unfolding trim_space
parse_segments-IsRange [] = tt
parse_segments-IsRange (a ∷ []) = start_of-IsRange (atoi (trim_space a)) []
parse_segments-IsRange (a ∷ b ∷ []) = start_of-IsRange (atoi (trim_space a)) (b ∷ [])
parse_segments-IsRange (a ∷ b ∷ c ∷ rest) = tt

parse_range-IsRange : (s : Text) → IsRange (parse_range s)
unfolding parse_range
parse_range-IsRange s = parse_segments-IsRange (split b'-' s)

-- The canonical form of an item covers what the item asks for.
pub canonical_covers :
    (port : ℕ) (s : Text) (r : ℕ × ℕ)
    → parse_range s ≡ ok r
    → port_in port (canonical r) ≡ item_covers port s
canonical_covers port s (start, end) e =
    let (low, order, high) = subst IsRange e (parse_range-IsRange s) in
    port_in-canonical start end port low order high ∙ sym (ap (covers port) e)
