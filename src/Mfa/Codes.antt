-- ===== src/Mfa/Codes.antt =====
-- The one-time codes that are accepted: those of three counters.
use mathlib.Core.Path.{subst}
use oneinstack_panel.Common.{
  some_inj, ℕ, zero, suc, ◌+◌, ◌/◌, ◌≤◌, ◌≡◌, ◌≢◌, ◌⊎◌, ◌↔◌, refl, sym, ap, Bool, true, none, some,
  ◌∷◌, arith, Bool-cases, Option-cases, inl, inr,
}
use oneinstack_panel.Common.Int.{ℤ, pos}
use oneinstack_panel.Text.{Text, trim_space, to_upper, byte_len, rune_len}
use oneinstack_panel.Text.Laws.{text_eq_iff, text_eq_refl}
use oneinstack_panel.Mfa.{Crypto}
use oneinstack_panel.Mfa.Totp.{
  six_digits, digit_at, last_digits, totp_at, matching_totp_counter, validate_totp, previous,
  candidates, first_match, is_code_at, all_digits,
}

is_code_at-totp_at :
    (c : Crypto) (secret code : Text) (n : ℤ)
    → is_code_at c secret code n ≡ true
    → totp_at c secret n ≡ some code
is_code_at-totp_at c secret code n h = elim (Option-cases (totp_at c secret n)) [
  | inl e ↦ absurd (ground arith)
  | inr (expected, e) ↦ ground (arith, text_eq_iff expected code)
]

totp_at-is_code_at :
    (c : Crypto) (secret code : Text) (n : ℤ)
    → totp_at c secret n ≡ some code
    → is_code_at c secret code n ≡ true
totp_at-is_code_at c secret code n h = rw (h, is_code_at) (text_eq_refl code)

-- The counter before, at or after the time.
abbrev pub IsNear : ℕ → ℤ → Type 0
IsNear now n = (n ≡ previous (now / 30)) ⊎ ((n ≡ pos (now / 30)) ⊎ (n ≡ pos (now / 30 + 1)))

first_match-candidates :
    (test : ℤ → Bool) (now : ℕ) (n : ℤ)
    → first_match test (candidates now) ≡ some n
    → (test n ≡ true) × IsNear now n
first_match-candidates test now n e = elim (Bool-cases (test (previous (now / 30)))) [
  | inl a ↦ let is : previous (now / 30) ≡ n = ground arith in (rw (sym is) a, inl (sym is))
  | inr a ↦ elim (Bool-cases (test (pos (now / 30)))) [
    | inl b ↦ let is : pos (now / 30) ≡ n = ground arith in (rw (sym is) b, inr (inl (sym is)))
    | inr b ↦ elim (Bool-cases (test (pos (now / 30 + 1)))) [
      | inl d ↦
          let is : pos (now / 30 + 1) ≡ n = ground arith in (rw (sym is) d, inr (inr (sym is)))
      | inr d ↦ absurd (ground arith)
    ]
  ]
]

first_match-IsNear :
    (test : ℤ → Bool) (now : ℕ) (n : ℤ)
    → test n ≡ true
    → IsNear now n
    → first_match test (candidates now) ≢ none
first_match-IsNear test now n h (inl e) = λ o. ground (arith, ap test e)
first_match-IsNear test now n h (inr (inl e)) = λ o. ground (arith, ap test e)
first_match-IsNear test now n h (inr (inr e)) = λ o. ground (arith, ap test e)

-- A text of `m` ASCII digits.
abbrev IsDigits : ℕ → Text → Type 0
IsDigits m s = (byte_len s ≡ m) × (all_digits s ≡ true)

digit_at_bounds : (n k : ℕ) → (48 ≤ digit_at n k) × (digit_at n k ≤ 57)
digit_at_bounds n k = (omega arith, omega arith)

IsDigits-cons : (d m : ℕ) (s : Text) → 48 ≤ d → d ≤ 57 → IsDigits m s → IsDigits (suc m) (d ∷ s)
unfolding byte_len rune_len
IsDigits-cons d m s low high (b, a) = (ground arith, ground arith)

IsDigits-last_digits : (n k : ℕ) → IsDigits k (last_digits n k)
unfolding byte_len
IsDigits-last_digits n zero = (refl, refl)
IsDigits-last_digits n (suc k) =
    let (low, high) = digit_at_bounds n k in
    IsDigits-cons (digit_at n k) k (last_digits n k) low high (IsDigits-last_digits n k)

IsDigits-six_digits : (n : ℕ) → IsDigits 6 (six_digits n)
unfolding six_digits
IsDigits-six_digits n = IsDigits-last_digits n 6

totp_at-six_digits :
    (c : Crypto) (secret code : Text) (n : ℤ)
    → totp_at c secret n ≡ some code
    → (x : ℕ) × (six_digits x ≡ code)
unfolding totp_at
totp_at-six_digits c secret code n =
    elim (Option-cases (c.decode_base32 (to_upper (trim_space secret)))) [
      | inl bad ↦ rw (bad, totp_at) (λ e. absurd (cc e))
      | inr (key, good) ↦ rw (good, totp_at) (λ made. (_, some_inj made))
    ]

IsDigits-totp_at :
    (c : Crypto) (secret code : Text) (n : ℤ) → totp_at c secret n ≡ some code → IsDigits 6 code
IsDigits-totp_at c secret code n e =
    let (x, is) = totp_at-six_digits c secret code n e in
    subst (λ t. IsDigits 6 t) is (IsDigits-six_digits x)

-- A code is accepted just where, trimmed, it is the code of the secret at the counter of the time,
-- the one before it or the one after it.
pub validate_totp_iff :
    (c : Crypto) (secret code : Text) (now : ℕ)
    → (validate_totp c secret code now ≡ true)
      ↔ ((n : ℤ) × IsNear now n × (totp_at c secret n ≡ some (trim_space code)))
unfolding matching_totp_counter
validate_totp_iff c secret code now = (accepted-IsNear, IsNear-accepted)
  where
    accepted-IsNear :
        validate_totp c secret code now ≡ true
        → (n : ℤ) × IsNear now n × (totp_at c secret n ≡ some (trim_space code))
    accepted-IsNear h = elim (Option-cases (matching_totp_counter c secret code now)) [
      | inl missing ↦ absurd (ground arith)
      | inr (n, e) ↦
          let matched : first_match (is_code_at c secret (trim_space code)) (candidates now)
              ≡ some n =
            ground arith in
          let (test, near) =
            first_match-candidates (is_code_at c secret (trim_space code)) now n matched in
          (n, near, is_code_at-totp_at c secret (trim_space code) n test)
    ]

    IsNear-accepted :
        (n : ℤ) × IsNear now n × (totp_at c secret n ≡ some (trim_space code))
        → validate_totp c secret code now ≡ true
    IsNear-accepted (n, near, e) =
        let (six, digits) = IsDigits-totp_at c secret (trim_space code) n e in
        let found =
          first_match-IsNear (is_code_at c secret (trim_space code)) now n
            (totp_at-is_code_at c secret (trim_space code) n e) near in
        ground (arith, six, digits, found)
