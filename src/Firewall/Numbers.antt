-- ===== src/Firewall/Numbers.antt =====
-- The numbers of internal/services/safe/validation.go, printed and read.
use mathlib.Core.Path.{subst}
use oneinstack_panel.Common.{
  ℕ, zero, suc, ◌+◌, ◌-◌, ◌*◌, ◌/◌, ◌%◌, ◌≡◌, ◌≤◌, ◌<◌, refl, sym, ap, ◌∙◌, true, ◌&&◌, some, [],
  ◌∷◌, ◌++◌, leb, ltb, ◌==◌, ==_iff, arith, All, All-append, Bool-cases, inl, inr,
}
use oneinstack_panel.Text.{Text}
use oneinstack_panel.Firewall.{split, is_digit, number_from, atoi, digits, itoa, canonical, port_in}

number_from-append :
    (n d : ℕ) (s : Text) (m : ℕ)
    → number_from n s ≡ some m
    → d < 10
    → number_from n (s ++ (b'0' + d) ∷ []) ≡ some (m * 10 + d)
unfolding number_from
number_from-append n d [] m e h = ground arith
number_from-append n d (c ∷ s) m e h = elim (Bool-cases (is_digit c)) [
  | inl digit ↦ ground (arith, digit, number_from-append (n * 10 + (c - b'0')) d s m)
  | inr other ↦ absurd (ground (arith, other))
]

-- The numbers of so many digits.
abbrev below : ℕ → ℕ
below zero = 1
below (suc fuel) = below fuel * 10

-- The digits are read as the number, where there are enough.
number_from-digits : (fuel n : ℕ) → n < below fuel → number_from 0 (digits fuel n) ≡ some n
unfolding digits number_from
number_from-digits zero n h = let none_left : 0 ≡ n = omega (arith, h) in ap some none_left
number_from-digits (suc fuel) n h = elim (Bool-cases (ltb n 10)) [
  | inl one ↦ ground (arith, one)
  | inr more ↦
      let before = number_from-digits fuel (n / 10) (omega (arith, h)) in
      let all =
        number_from-append 0 (n % 10) (digits fuel (n / 10)) (n / 10) before (omega arith) in
      let same : n / 10 * 10 + n % 10 ≡ n = omega arith in
      rw (more, digits)
        (subst (λ m. number_from 0 (digits fuel (n / 10) ++ (b'0' + n % 10) ∷ []) ≡ some m) same
          all)
]

-- A text of digits.
abbrev IsDigits : Text → Type 0
IsDigits s = All (λ c. is_digit c ≡ true) s

digits-IsDigits : (fuel n : ℕ) → IsDigits (digits fuel n)
unfolding digits
digits-IsDigits zero n = tt
digits-IsDigits (suc fuel) n = elim (Bool-cases (ltb n 10)) [
  | inl one ↦ rw (one, digits) (ground (arith, one), tt)
  | inr more ↦
      rw (more, digits)
        (All-append (λ c. is_digit c ≡ true) (digits fuel (n / 10)) ((b'0' + n % 10) ∷ [])
          (digits-IsDigits fuel (n / 10)) (ground arith, tt))
]

-- A text of digits has no separator, and no sign.
split-digits : (s : Text) → IsDigits s → split b'-' s ≡ s ∷ []
unfolding split
split-digits [] h = refl
split-digits (c ∷ s) (d, h) = ground (arith, d, split-digits s h)

split-range : (s t : Text) → IsDigits s → split b'-' (s ++ b'-' ∷ t) ≡ s ∷ split b'-' t
unfolding split
split-range [] t h = ground arith
split-range (c ∷ s) t (d, h) = ground (arith, d, split-range s t h)

atoi-digits : (s : Text) (n : ℕ) → IsDigits s → number_from 0 s ≡ some n → 0 < n → atoi s ≡ some n
unfolding atoi number_from
atoi-digits [] n h e p = absurd (ground arith)
atoi-digits (c ∷ s) n (d, h) e p = ground (arith, d, e)

pub atoi-itoa : (n : ℕ) → 1 ≤ n → n ≤ 65535 → atoi (itoa n) ≡ some n
atoi-itoa n low high =
    atoi-digits (itoa n) n (digits-IsDigits 5 n) (number_from-digits 5 n (omega (arith, high)))
      (omega (arith, low))

-- A range in its canonical form has the ports between its ends.
pub port_in-canonical :
    (start end port : ℕ)
    → 1 ≤ start
    → start ≤ end
    → end ≤ 65535
    → port_in port (canonical (start, end)) ≡ (leb start port && leb port end)
unfolding port_in canonical
port_in-canonical start end port low order high = elim (Bool-cases (end == start)) [
  | inl one ↦
      let is : start ≡ end = sym ((==_iff end start).0 one) in
      let parts = split-digits (itoa start) (digits-IsDigits 5 start) in
      let read = atoi-itoa start low (omega (arith, order, high)) in
      rw (one, canonical, port_in, parts, read) (ap (λ e. leb start port && leb port e) is)
  | inr two ↦
      let parts =
        split-range (itoa start) (itoa end) (digits-IsDigits 5 start)
        ∙ ap (λ ps. itoa start ∷ ps) (split-digits (itoa end) (digits-IsDigits 5 end)) in
      let first = atoi-itoa start low (omega (arith, order, high)) in
      let second = atoi-itoa end (omega (arith, low, order)) high in
      rw (two, canonical, port_in, parts, first, second) refl
]
