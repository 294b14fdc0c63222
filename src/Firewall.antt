-- ===== src/Firewall.antt =====
-- internal/services/safe/validation.go: the ports of a firewall rule, `normalizePorts` and `portSetContains`.
pub mod Numbers
pub mod Ranges
pub mod Ports
pub mod Rules
mod Examples
use oneinstack_panel.Common.{
  ℕ, zero, suc, ◌+◌, ◌-◌, ◌*◌, ◌/◌, ◌%◌, Bool, true, false, not, ◌&&◌, ◌||◌, Option, none, some,
  List, [], ◌∷◌, ◌++◌, map, any, ltb, leb, ◌==◌, if◌then◌else◌,
}
use oneinstack_panel.Text.{Text, codes, text_eq, is_empty, trim_space}

pub data RuleError : Type 0 where
  ports_without_protocol empty_item bad_format port_out_of_range bad_range : RuleError
  bad_rule_type bad_direction bad_protocol bad_strategy long_remark long_location missing_region
        expired :
      RuleError
  bad_ip too_many blocks_everything blocks_panel : RuleError

pub data Checked (A : Type 0) : Type 0 where
  ok : A → Checked A
  err : RuleError → Checked A

abbrev add_to_first : ℕ → List Text → List Text
add_to_first c [] = (c ∷ []) ∷ []
add_to_first c (s ∷ ss) = (c ∷ s) ∷ ss

-- `strings.Split` at a separator of one rune
unfoldable pub split : ℕ → Text → List Text
split sep [] = [] ∷ []
split sep (c ∷ s) = let rest = split sep s in if c == sep then [] ∷ rest else add_to_first c rest

abbrev pub is_digit : ℕ → Bool
is_digit c = leb b'0' c && leb c b'9'

-- The digits of a number, added to a value.
unfoldable pub number_from : ℕ → Text → Option ℕ
number_from n [] = some n
number_from n (c ∷ s) =
    let rest = number_from (n * 10 + (c - b'0')) s in if is_digit c then rest else none

abbrev pub number : Text → Option ℕ
number [] = none
number (c ∷ s) = number_from 0 (c ∷ s)

-- `strconv.Atoi` on a text without a minus, which the splits leave out. Numbers beyond an int64 are no error
-- here; the callers refuse them for their size.
unfoldable pub atoi : Text → Option ℕ
unfolding number_from
atoi [] = none
atoi (c ∷ s) = if c == b'+' then number s else number (c ∷ s)

-- `strconv.Itoa`, whose digits are at most the fuel; a port has five.
unfoldable pub digits : ℕ → ℕ → Text
digits zero n = []
digits (suc fuel) n =
    let before = digits fuel (n / 10) in
    if ltb n 10 then (b'0' + n) ∷ [] else before ++ (b'0' + n % 10) ∷ []

abbrev pub itoa : ℕ → Text
itoa n = digits 5 n

abbrev pub in_ports : ℕ → ℕ → Bool
in_ports low n = leb low n && leb n 65535

abbrev pub end_of : ℕ → Option ℕ → Checked (ℕ × ℕ)
end_of start none = err bad_range
end_of start (some end) = if in_ports start end then ok (start, end) else err bad_range

abbrev pub start_of : Option ℕ → Checked ℕ
start_of none = err port_out_of_range
start_of (some start) = if in_ports 1 start then ok start else err port_out_of_range

abbrev pub range_of : Checked ℕ → List Text → Checked (ℕ × ℕ)
range_of (err e) rest = err e
range_of (ok start) [] = ok (start, start)
range_of (ok start) (segment ∷ rest) = end_of start (atoi (trim_space segment))

abbrev pub parse_segments : List Text → Checked (ℕ × ℕ)
parse_segments [] = err bad_format
parse_segments (a ∷ []) = range_of (start_of (atoi (trim_space a))) []
parse_segments (a ∷ b ∷ []) = range_of (start_of (atoi (trim_space a))) (b ∷ [])
parse_segments (a ∷ b ∷ c ∷ rest) = err bad_format

-- An item of the list: a port or a range of ports.
unfoldable pub parse_range : Text → Checked (ℕ × ℕ)
unfolding split atoi trim_space
parse_range value = parse_segments (split b'-' value)

unfoldable pub canonical : ℕ × ℕ → Text
unfolding digits
canonical (start, end) = if end == start then itoa start else itoa start ++ b'-' ∷ itoa end

abbrev pub has_text : Text → List Text → Bool
has_text s seen = any (λ t. text_eq t s) seen

abbrev pub add : Text → Checked (List Text) → Checked (List Text)
add s (ok rest) = ok (s ∷ rest)
add s (err e) = err e

abbrev pub keep : Text → Bool → Checked (List Text) → Checked (List Text) → Checked (List Text)
keep s true without with_it = without
keep s false without with_it = add s with_it

-- The loop over the items: each range once, in its canonical form.
unfoldable pub collect : List Text → List Text → Checked (List Text)
unfolding parse_range canonical
collect seen [] = ok []
collect seen (v ∷ vs) = elim (parse_range v) [
  | err e ↦ err e
  | ok r ↦
      keep (canonical r) (has_text (canonical r) seen) (collect seen vs)
        (collect (canonical r ∷ seen) vs)
]

abbrev or_zero : Option ℕ → ℕ
or_zero none = 0
or_zero (some n) = n

abbrev first_number : List Text → ℕ
first_number [] = 0
first_number (s ∷ ss) = or_zero (atoi s)

unfoldable pub start_number : Text → ℕ
unfolding split atoi
start_number s = first_number (split b'-' s)

-- `sort.Slice` by the starts; it leaves the order of equal starts open, which is kept here.
unfoldable pub insert : Text → List Text → List Text
unfolding start_number
insert s [] = s ∷ []
insert s (t ∷ ts) =
    let rest = insert s ts in if leb (start_number s) (start_number t) then s ∷ t ∷ ts else t ∷ rest

unfoldable pub sort : List Text → List Text
unfolding insert
sort [] = []
sort (s ∷ ss) = insert s (sort ss)

abbrev pub sorted : Checked (List Text) → Checked (List Text)
sorted (ok ports) = ok (sort ports)
sorted (err e) = err e

abbrev is_portless : Text → Bool
is_portless protocol = text_eq protocol (codes "icmp") || text_eq protocol (codes "all")

-- The items of the list.
unfoldable pub items : Text → List Text
unfolding split trim_space
items raw = map trim_space (split b',' raw)

-- `normalizePorts`
unfoldable pub normalize_ports : Text → Text → Checked (List Text)
unfolding items collect sort trim_space
normalize_ports raw protocol =
    if is_empty (trim_space raw)
    then ok []
    else if is_portless protocol
    then err ports_without_protocol
    else if any is_empty (items raw)
    then err empty_item
    else sorted (collect [] (items raw))

abbrev pub segment_contains : ℕ → List Text → Bool
segment_contains port [] = false
segment_contains port (a ∷ []) = leb (or_zero (atoi a)) port && leb port (or_zero (atoi a))
segment_contains port (a ∷ b ∷ []) = leb (or_zero (atoi a)) port && leb port (or_zero (atoi b))
segment_contains port (a ∷ b ∷ c ∷ rest) =
    leb (or_zero (atoi a)) port && leb port (or_zero (atoi a))

unfoldable pub port_in : ℕ → Text → Bool
unfolding split atoi
port_in port value = segment_contains port (split b'-' value)

-- `portSetContains`: no ports are all ports.
unfoldable pub port_set_contains : List Text → ℕ → Bool
unfolding port_in
port_set_contains [] port = true
port_set_contains (s ∷ ss) port = any (port_in port) (s ∷ ss)
