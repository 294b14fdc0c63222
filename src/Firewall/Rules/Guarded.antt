-- ===== src/Firewall/Rules/Guarded.antt =====
-- What a rule that `normalizeRule` of internal/services/safe/validation.go accepts cannot block.
use oneinstack_panel.Common.{
  ℕ, ◌*◌, ◌≡◌, refl, sym, ap, ◌∙◌, Bool, true, false, not, ◌&&◌, List, [], any, leb, length, arith,
  Bool-cases, inl, inr,
}
use oneinstack_panel.Text.{Text, codes, text_eq, is_empty, trim_space}
use oneinstack_panel.Firewall.{
  RuleError, Checked, ok, err, too_many, blocks_everything, blocks_panel, has_text, items,
  normalize_ports, port_set_contains,
}
use oneinstack_panel.Firewall.Ranges.{item_covers}
use oneinstack_panel.Firewall.Ports.{normalize_ports-covers}
use oneinstack_panel.Firewall.Rules.{
  IptablesRule, NormalizedRule, Net, ◌>>=◌, ◌>>◌, guard, normalize_ips, normalize_rule,
  check_fields, check_effect, normalized, all_ipv4, at_least_one, ports_of, protocol_of, is_in_deny,
  has_ports,
}

>>=-ok :
    {A B : Type 0} (m : Checked A) (f : A → Checked B) (b : B)
    → (m >>= f) ≡ ok b
    → (a : A) × (m ≡ ok a) × (f a ≡ ok b)
>>=-ok (ok a) f b h = (a, refl, h)
>>=-ok (err e) f b h = absurd (cc h)

guard-ok :
    {B : Type 0} (test : Bool) (e : RuleError) (k : Checked B) (b : B)
    → (guard test e >> k) ≡ ok b
    → (test ≡ true) × (k ≡ ok b)
guard-ok true e k b h = (refl, h)
guard-ok false e k b h = absurd (cc h)

blank-ports :
    (raw protocol : Text) (out : List Text)
    → is_empty (trim_space raw) ≡ true
    → normalize_ports raw protocol ≡ ok out
    → (port : ℕ) → port_set_contains out port ≡ true
unfolding normalize_ports port_set_contains
blank-ports raw protocol out blank =
    rw (blank, normalize_ports)
      (λ e port. let is : [] ≡ out = cc e in ap (λ o. port_set_contains o port) (sym is))

not-false : (b : Bool) → not b ≡ true → b ≡ false
not-false false h = refl
not-false true h = absurd (cc h)

last-ok : (test : Bool) (e : RuleError) → guard test e ≡ ok tt → test ≡ true
last-ok true e h = refl
last-ok false e h = absurd (cc h)

check_effect-ok :
    (panel_port : ℕ) (r : IptablesRule) (ips ports : List Text)
    → check_effect panel_port r ips ports ≡ ok tt
    → (leb (length ips * at_least_one (length ports)) 100 ≡ true)
      × ((is_in_deny r && has_ports (protocol_of r) && port_set_contains ports panel_port) ≡ false)
unfolding check_effect
check_effect-ok panel_port r ips ports e0 =
    let (few, e1) =
      guard-ok (leb (length ips * at_least_one (length ports)) 100) too_many _ tt e0 in
    let (open_in, e2) =
      guard-ok
        (not (is_in_deny r && text_eq (protocol_of r) (codes "all") && has_text all_ipv4 ips))
        blocks_everything
        (guard
          (not (is_in_deny r && has_ports (protocol_of r) && port_set_contains ports panel_port))
          blocks_panel)
        tt e1 in
    (
      few,
      not-false _ (
          last-ok
            (not (is_in_deny r && has_ports (protocol_of r) && port_set_contains ports panel_port))
            blocks_panel e2),
    )

-- What an accepted rule was made of.
normalize_rule-ok :
    (net : Net) (now panel_port : ℕ) (r : IptablesRule) (n : NormalizedRule)
    → normalize_rule net now panel_port r ≡ ok n
    → (ips ports : List Text) × (normalize_ports (ports_of r) (protocol_of r) ≡ ok ports)
      × (check_effect panel_port r ips ports ≡ ok tt)
      × (normalized r ips ports ≡ n)
unfolding normalize_rule
normalize_rule-ok net now panel_port r n e0 =
    let (_, fields, e1) = >>=-ok (check_fields now r) _ n e0 in
    let (ips, addressed, e2) = >>=-ok (normalize_ips net r.ips) _ n e1 in
    let (ports, read, e3) = >>=-ok (normalize_ports (ports_of r) (protocol_of r)) _ n e2 in
    let (_, effect, e4) = >>=-ok (check_effect panel_port r ips ports) _ n e3 in
    (ips, ports, read, effect, cc e4)

-- A rule that is accepted, and that denies incoming traffic of tcp or udp, has a list of ports, none of whose items
-- covers the panel's own port.
pub normalize_rule-spares_panel :
    (net : Net) (now panel_port : ℕ) (r : IptablesRule) (n : NormalizedRule)
    → normalize_rule net now panel_port r ≡ ok n
    → is_in_deny r ≡ true
    → has_ports (protocol_of r) ≡ true
    → (is_empty (trim_space (ports_of r)) ≡ false)
      × (any (item_covers panel_port) (items (ports_of r)) ≡ false)
normalize_rule-spares_panel net now panel_port r n e denies ported =
    let (ips, ports, read, effect, is) = normalize_rule-ok net now panel_port r n e in
    let (few, spares) = check_effect-ok panel_port r ips ports effect in
    let outside : port_set_contains ports panel_port ≡ false =
      ground (arith, denies, ported, spares) in
    elim (Bool-cases (is_empty (trim_space (ports_of r)))) [
      | inl blank ↦ absurd (
          cc (sym (blank-ports (ports_of r) (protocol_of r) ports blank read panel_port) ∙ outside))
      | inr given ↦ (
        given,
        sym (normalize_ports-covers (ports_of r) (protocol_of r) ports panel_port given read)
            ∙ outside,
      )
    ]
