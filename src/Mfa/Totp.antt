-- ===== src/Mfa/Totp.antt =====
-- internal/services/security/totp.go: the one-time codes and the recovery codes.
use oneinstack_panel.Common.{
  ℕ, zero, suc, ◌+◌, ◌-◌, ◌*◌, ◌/◌, ◌%◌, ◌^◌, Bool, true, false, not, ◌&&◌, Option, none, some,
  List, [], ◌∷◌, ◌++◌, leb, ◌==◌, length, if◌then◌else◌, select,
}
use oneinstack_panel.Common.Int.{ℤ, pos, negsuc}
use oneinstack_panel.Text.{Text, codes, text_eq, trim_space, to_upper, byte_len}
use oneinstack_panel.Mfa.{Crypto}

-- The decimal digit of `n` at 10 ^ k.
abbrev pub digit_at : ℕ → ℕ → ℕ
digit_at n k = b'0' + n / 10 ^ k % 10

-- The `k` last decimal digits of `n`.
abbrev pub last_digits : ℕ → ℕ → Text
last_digits n zero = []
last_digits n (suc k) = digit_at n k ∷ last_digits n k

-- `%06d`, for numbers below 1,000,000
unfoldable pub six_digits : ℕ → Text
six_digits n = last_digits n 6

-- `binary.BigEndian.PutUint64`: the byte of `n` at 256 ^ k.
abbrev byte_of : ℕ → ℕ → ℕ
byte_of n k = n / 256 ^ k % 256

abbrev big_endian : ℕ → List ℕ
big_endian n =
    byte_of n 7
    ∷ byte_of n 6
    ∷ byte_of n 5
    ∷ byte_of n 4
    ∷ byte_of n 3
    ∷ byte_of n 2
    ∷ byte_of n 1
    ∷ byte_of n 0
    ∷ []

-- `uint64(counter)`
abbrev uint64_of : ℤ → ℕ
uint64_of (pos n) = n % 2 ^ 64
uint64_of (negsuc n) = 2 ^ 64 - (n % 2 ^ 64 + 1)

-- `sum[i]`; a MAC of SHA-1 has 20 bytes, so that no index of `totpAt` is out of range.
abbrev pub byte_at : ℕ → List ℕ → ℕ
byte_at i [] = 0
byte_at zero (b ∷ bs) = b
byte_at (suc i) (b ∷ bs) = byte_at i bs

-- The four bytes from an offset as a number; their bits are apart, so `|` is a sum.
abbrev truncated : ℕ → List ℕ → ℕ
truncated o sum =
    byte_at o sum % 128 * 2 ^ 24
    + byte_at (o + 1) sum % 256 * 2 ^ 16
    + byte_at (o + 2) sum % 256 * 2 ^ 8
    + byte_at (o + 3) sum % 256

unfoldable pub totp_at : Crypto → Text → ℤ → Option Text
unfolding six_digits
totp_at c secret counter = elim (c.decode_base32 (to_upper (trim_space secret))) [
  | none ↦ none
  | some key ↦
      let sum = c.hmac_sha1 key (big_endian (uint64_of counter)) in
      some (six_digits (truncated (byte_at (length sum - 1) sum % 16) sum % 1000000))
]

-- `for _, char := range code { if char < '0' || char > '9' { return 0, false } }`
abbrev pub all_digits : Text → Bool
all_digits [] = true
all_digits (d ∷ s) = leb b'0' d && leb d b'9' && all_digits s

abbrev pub previous : ℕ → ℤ
previous zero = negsuc 0
previous (suc n) = pos n

-- A candidate of the loop of `matchingTOTPCounter`.
abbrev pub is_code_at : Crypto → Text → Text → ℤ → Bool
is_code_at c secret code counter = elim (totp_at c secret counter) [
  | none ↦ false
  | some expected ↦ text_eq expected code
]

abbrev pub first_match : (ℤ → Bool) → List ℤ → Option ℤ
first_match test [] = none
first_match test (n ∷ ns) = let rest = first_match test ns in if test n then some n else rest

-- The counters of the loop: the one of now, with the one before and the one after.
abbrev pub candidates : ℕ → List ℤ
candidates now = let n = now / 30 in previous n ∷ pos n ∷ pos (n + 1) ∷ []

unfoldable pub matching_totp_counter : Crypto → Text → Text → ℕ → Option ℤ
unfolding totp_at
matching_totp_counter c secret given now =
    let code = trim_space given in
    if byte_len code == 6 && all_digits code
    then first_match (is_code_at c secret code) (candidates now)
    else none

abbrev pub validate_totp : Crypto → Text → Text → ℕ → Bool
validate_totp c secret code now = elim (matching_totp_counter c secret code now) [
  | none ↦ false
  | some n ↦ true
]

-- The decimal form, of 20 digits at most, which an int64 never exceeds.
decimal_from : ℕ → ℕ → Text → Text
decimal_from zero n rest = rest
decimal_from (suc fuel) n rest =
    let more = decimal_from fuel (n / 10) (digit_at n 0 ∷ rest) in
    if n / 10 == 0 then digit_at n 0 ∷ rest else more

-- `fmt.Sprintf("%s:user:%d", base, userID)`
unfoldable pub credential_purpose : Text → ℕ → Text
unfolding decimal_from
credential_purpose base user_id = base ++ codes ":user:" ++ decimal_from 20 user_id []

abbrev is_no_dash : ℕ → Bool
is_no_dash d = not (d == b'-')

unfoldable pub recovery_code_hash : Crypto → ℕ → Text → Option Text
unfolding credential_purpose
recovery_code_hash c user_id code =
    let plain = to_upper (select is_no_dash (trim_space code)) in
    elim (c.derive_subkey (credential_purpose (codes "security.recovery-code") user_id)) [
      | none ↦ none
      | some key ↦ some (c.hmac_sha256_hex key plain)
    ]

-- The first hash that is the candidate goes; `none` where none is.
unfoldable pub remove_first : Text → List Text → Option (List Text)
remove_first candidate [] = none
remove_first candidate (h ∷ hs) =
    let rest = remove_first candidate hs in
    if text_eq h candidate then some hs else elim rest [ none ↦ none | some kept ↦ some (h ∷ kept) ]

abbrev is_blank : Text → Bool
is_blank s = text_eq (trim_space s) []

unfoldable pub decode_recovery_hashes : Crypto → Text → Option (List Text)
decode_recovery_hashes c value = if is_blank value then some [] else c.decode_hashes value

unfoldable pub hash_recovery_codes : Crypto → ℕ → List Text → Option (List Text)
unfolding recovery_code_hash
hash_recovery_codes c user_id [] = some []
hash_recovery_codes c user_id (code ∷ rest) = elim (recovery_code_hash c user_id code) [
  | none ↦ none
  | some h ↦ elim (hash_recovery_codes c user_id rest) [ none ↦ none | some hs ↦ some (h ∷ hs) ]
]
