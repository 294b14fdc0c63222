-- ===== src/Firewall/Rules.antt =====
-- internal/services/safe/validation.go: `normalizeRule` and `normalizeIPs`, on the rows of
-- internal/models/iptables.go. The parsers of addresses and networks of the package `net` are given.
pub mod Guarded
use oneinstack_panel.Common.{
  ℕ, ◌+◌, ◌*◌, Bool, true, false, not, ◌&&◌, ◌||◌, Option, none, some, List, [], ◌∷◌, map, any,
  select, ltb, leb, ◌==◌, length, if◌then◌else◌,
}
use oneinstack_panel.Common.Int.{ℤ}
use oneinstack_panel.Text.{Text, codes, text_eq, is_empty, trim_space, to_lower}
use oneinstack_panel.Firewall.{
  RuleError, Checked, ok, err, bad_rule_type, bad_direction, bad_protocol, bad_strategy,
  long_remark, long_location, missing_region, expired, bad_ip, too_many, blocks_everything,
  blocks_panel, split, items, has_text, normalize_ports, port_set_contains,
}

-- The columns of a rule that its validation reads.
pub record IptablesRule : Type 0 where
  pub rule_type : Text
  pub direction : Text
  pub protocol : Text
  pub strategy : Text
  pub ips : Text
  pub ports : Text
  pub state : ℤ
  pub remark : Text
  pub location : Text
  pub expires_at : Option ℕ

pub record NormalizedRule : Type 0 where
  pub rule_type : Text
  pub direction : Text
  pub protocol : Text
  pub strategy : Text
  pub ips : List Text
  pub ports : List Text
  pub remark : Text
  pub location : Text
  pub expires_at : Option ℕ
  pub state : ℕ

-- The IPv4 address of a text, and the network of a text with a mask, in their own form.
pub record Net : Type 0 where
  pub parse_ip : Text → Option Text
  pub parse_cidr : Text → Option Text

infixl 5 ◌>>=◌ ◌>>◌
abbrev pub ◌>>=◌ : {A B : Type 0} → Checked A → (A → Checked B) → Checked B
ok a >>= f = f a
err e >>= f = err e

abbrev pub ◌>>◌ : {B : Type 0} → Checked (Unit {0}) → Checked B → Checked B
m >> k = m >>= λ _. k

abbrev pub guard : Bool → RuleError → Checked (Unit {0})
guard true e = ok tt
guard false e = err e

abbrev pub all_ipv4 : Text
all_ipv4 = codes "0.0.0.0/0"

abbrev pub parsed : Option Text → Checked Text
parsed none = err bad_ip
parsed (some s) = ok s

abbrev has_rune : ℕ → Text → Bool
has_rune c s = any (λ d. d == c) s

abbrev ip_of : Net → Text → Checked Text
ip_of net value =
    if text_eq (to_lower value) (codes "any") || text_eq value all_ipv4
    then ok all_ipv4
    else if has_rune b'/' value
    then parsed (net.parse_cidr value)
    else parsed (net.parse_ip value)

-- The loop of `normalizeIPs`: each address once.
unfoldable pub collect_ips : Net → List Text → List Text → Checked (List Text)
unfolding to_lower
collect_ips net seen [] = ok []
collect_ips net seen (v ∷ vs) = elim (ip_of net v) [
  | err e ↦ err e
  | ok s ↦
      if has_text s seen
      then collect_ips net seen vs
      else (collect_ips net (s ∷ seen) vs >>= λ rest. ok (s ∷ rest))
]

-- `sort.Strings`
unfoldable pub text_le : Text → Text → Bool
text_le [] t = true
text_le (c ∷ s) [] = false
text_le (c ∷ s) (d ∷ t) = let rest = text_le s t in if c == d then rest else ltb c d

unfoldable pub insert_text : Text → List Text → List Text
unfolding text_le
insert_text s [] = s ∷ []
insert_text s (t ∷ ts) = let rest = insert_text s ts in if text_le s t then s ∷ t ∷ ts else t ∷ rest

unfoldable pub sort_texts : List Text → List Text
unfolding insert_text
sort_texts [] = []
sort_texts (s ∷ ss) = insert_text s (sort_texts ss)

-- `splitValues`
unfoldable pub split_values : Text → List Text
unfolding items
split_values raw = select (λ s. not (is_empty s)) (items raw)

abbrev ips_of : Net → List Text → Checked (List Text)
ips_of net [] = ok (all_ipv4 ∷ [])
ips_of net (v ∷ vs) = collect_ips net [] (v ∷ vs) >>= λ ips. ok (sort_texts ips)

-- `normalizeIPs`
unfoldable pub normalize_ips : Net → Text → Checked (List Text)
unfolding collect_ips sort_texts split_values
normalize_ips net raw = ips_of net (split_values raw)

abbrev pub normal : Text → Text
normal s = to_lower (trim_space s)

abbrev pub is_one_of : Text → List Text → Bool
is_one_of s words = any (λ w. text_eq s w) words

unfoldable pub rule_type_of : IptablesRule → Text
unfolding trim_space to_lower
rule_type_of r = if is_empty (normal r.rule_type) then codes "port" else normal r.rule_type

abbrev pub is_port_rule : IptablesRule → Bool
is_port_rule r = text_eq (rule_type_of r) (codes "port")

-- A rule that is not one of ports is one of all incoming traffic.
unfoldable pub direction_of : IptablesRule → Text
unfolding rule_type_of trim_space to_lower
direction_of r = if is_port_rule r then normal r.direction else codes "in"

unfoldable pub protocol_of : IptablesRule → Text
unfolding rule_type_of trim_space to_lower
protocol_of r = if is_port_rule r then normal r.protocol else codes "all"

unfoldable pub ports_of : IptablesRule → Text
unfolding rule_type_of
ports_of r = if is_port_rule r then r.ports else []

abbrev state_of : ℤ → ℕ
state_of (ℤ.pos n) = if n == 0 then 0 else 1
state_of (ℤ.negsuc n) = 1

abbrev is_later : ℕ → Option ℕ → Bool
is_later now none = true
is_later now (some at) = ltb now at

abbrev pub at_least_one : ℕ → ℕ
at_least_one n = if leb 1 n then n else 1

abbrev pub is_in_deny : IptablesRule → Bool
is_in_deny r =
    text_eq (direction_of r) (codes "in")
    && text_eq (to_lower (trim_space r.strategy)) (codes "deny")

abbrev pub has_ports : Text → Bool
has_ports protocol = text_eq protocol (codes "tcp") || text_eq protocol (codes "udp")

-- The checks of the fields.
unfoldable pub check_fields : ℕ → IptablesRule → Checked Unit
unfolding rule_type_of direction_of protocol_of trim_space to_lower
check_fields now r = do
  guard
      (is_one_of (rule_type_of r)
        (codes "port" ∷ codes "ip" ∷ codes "region" ∷ codes "auto_block" ∷ []))
      bad_rule_type
  guard (is_one_of (direction_of r) (codes "in" ∷ codes "out" ∷ [])) bad_direction
  guard (is_one_of (protocol_of r) (codes "tcp" ∷ codes "udp" ∷ codes "icmp" ∷ codes "all" ∷ []))
      bad_protocol
  guard (is_one_of (normal r.strategy) (codes "allow" ∷ codes "deny" ∷ [])) bad_strategy
  guard (leb (length (trim_space r.remark)) 200) long_remark
  guard (leb (length (trim_space r.location)) 128) long_location
  guard (not (text_eq (rule_type_of r) (codes "region") && is_empty (trim_space r.location)))
      missing_region
  guard (is_later now r.expires_at) expired

-- The checks of what the rule would block.
unfoldable pub check_effect : ℕ → IptablesRule → List Text → List Text → Checked Unit
unfolding direction_of protocol_of port_set_contains trim_space to_lower
check_effect panel_port r ips ports = do
  guard (leb (length ips * at_least_one (length ports)) 100) too_many
  guard (not (is_in_deny r && text_eq (protocol_of r) (codes "all") && has_text all_ipv4 ips))
      blocks_everything
  guard (not (is_in_deny r && has_ports (protocol_of r) && port_set_contains ports panel_port))
      blocks_panel

unfoldable pub normalized : IptablesRule → List Text → List Text → NormalizedRule
unfolding rule_type_of direction_of protocol_of trim_space to_lower
normalized r ips ports = record {
  rule_type = rule_type_of r;
  direction = direction_of r;
  protocol = protocol_of r;
  strategy = normal r.strategy;
  ips = ips;
  ports = ports;
  remark = trim_space r.remark;
  location = trim_space r.location;
  expires_at = r.expires_at;
  state = state_of r.state;
}

-- `normalizeRule`
unfoldable pub normalize_rule : Net → ℕ → ℕ → IptablesRule → Checked NormalizedRule
unfolding check_fields normalize_ips normalize_ports ports_of protocol_of check_effect normalized
normalize_rule net now panel_port r = do
  check_fields now r
  ips ← normalize_ips net r.ips
  ports ← normalize_ports (ports_of r) (protocol_of r)
  check_effect panel_port r ips ports
  ok (normalized r ips ports)
