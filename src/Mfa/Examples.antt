-- ===== src/Mfa/Examples.antt =====
-- Logins of internal/services/security, with a cipher and a hash of the examples' own.
use oneinstack_panel.Common.{
  ℕ, ◌≡◌, ◌↔◌, refl, Bool, true, false, Option, none, some, List, [], ◌∷◌,
}
use oneinstack_panel.Common.Int.{ℤ, pos}
use oneinstack_panel.Text.{codes, text_eq, trim_space, byte_len, rune_len, to_upper}
use oneinstack_panel.Mfa.{UserMfa, MfaDb, Crypto}
use oneinstack_panel.Mfa.Totp.{totp_at, validate_totp, matching_totp_counter}
use oneinstack_panel.Mfa.Manager.{
  find_mfa, verify_login_code, confirm, read_setup, save_setup, after,
}
use oneinstack_panel.Mfa.Calls.{login_call, confirm_call, step, IsRising}
use oneinstack_panel.Mfa.Overlap.{
  Desk, Move, whole, read_half, save_half, move, moves_accept, crosses,
}
use oneinstack_panel.Mfa.Overlap.Run.{moves_accept-IsRising}
use oneinstack_panel.Mfa.Codes.{IsNear, validate_totp_iff}
use oneinstack_panel.Mfa.Recovery.{IsUsedUp, verify_login_code-IsUsedUp}

-- The MAC is 20 bytes, the last byte of the counter four times over at the offset 0.
abbrev last_byte : List ℕ → ℕ
last_byte [] = 0
last_byte (b ∷ []) = b
last_byte (b ∷ d ∷ bs) = last_byte (d ∷ bs)

abbrev toy : Crypto
toy = record {
  decode_base32 = λ s. some s;
  hmac_sha1 = λ key bytes.
      0
      ∷ 0
      ∷ 0
      ∷ last_byte bytes
      ∷ 0
      ∷ 0
      ∷ 0
      ∷ 0
      ∷ 0
      ∷ 0
      ∷ 0
      ∷ 0
      ∷ 0
      ∷ 0
      ∷ 0
      ∷ 0
      ∷ 0
      ∷ 0
      ∷ 0
      ∷ 0
      ∷ [];
  hmac_sha256_hex = λ key s. s;
  encrypt_credential = λ s purpose. some s;
  decrypt_credential = λ s purpose. some s;
  derive_subkey = λ purpose. some [];
  check_password = λ password hash. text_eq password hash;
  encode_hashes = λ hs. codes "[]";
  decode_hashes = λ s. some (codes "AAAAA" ∷ codes "BBBBB" ∷ []);
}

abbrev ann : UserMfa
ann = record {
  user_id = 4;
  enabled = true;
  secret_encrypted = codes "S";
  pending_secret_encrypted = [];
  recovery_code_hashes_json = codes "[..]";
  recovery_codes_generation = 1;
  last_totp_counter = pos 9;
}

abbrev one_user : MfaDb
one_user = record { mfa = ann ∷ []; users = []; sessions = [] }

-- The code of the counter 10 opens one login, then none. A `Setup` of the user and the confirmation of
-- another user overlap the logins.
abbrev moves : List Move
moves =
    read_half 4 (codes "N")
    ∷ whole (login_call 305 4 (codes " 000010 "))
    ∷ whole (confirm_call 305 7 (codes "pw") (codes "000010") [])
    ∷ save_half 0
    ∷ whole (login_call 306 4 (codes "000010"))
    ∷ whole (login_call 307 4 (codes "000011"))
    ∷ []

abbrev desk : Desk
desk = record { db = one_user; begun = [] }

moves_outcome : moves_accept toy 4 moves desk ≡ pos 10 ∷ pos 11 ∷ []
unfolding moves_accept move step confirm read_setup verify_login_code matching_totp_counter byte_len
    trim_space rune_len
moves_outcome = refl

-- A user who confirms a secret and logs in, while another `Setup` of the same user has read the row.
abbrev joining : UserMfa
joining = record ann { enabled = false; pending_secret_encrypted = codes "P" }

abbrev joining_db : MfaDb
joining_db = record {
  mfa = joining ∷ [];
  users = record { id = 4; password = codes "pw"; security_version = 1 } ∷ [];
  sessions = [];
}

abbrev confirmed : MfaDb
confirmed = after joining_db (confirm toy 305 4 (codes "pw") (codes "000010") [] joining_db)

abbrev logged_in : MfaDb
logged_in = after confirmed (verify_login_code toy 305 4 (codes "000010") confirmed)

abbrev undone : MfaDb
undone =
    after logged_in (save_setup (codes "N") (read_setup toy 4 (codes "N") joining_db) logged_in)

abbrev state_of : Option UserMfa → Option (Bool × ℤ)
state_of none = none
state_of (some row) = some (row.enabled, row.last_totp_counter)

-- The save switches the second factor off, and sets the last counter back.
overlapping_setup :
    (state_of (find_mfa 4 logged_in.mfa) ≡ some (true, pos 10))
    × (state_of (find_mfa 4 undone.mfa) ≡ some (false, pos 9))
unfolding confirm read_setup save_setup verify_login_code matching_totp_counter validate_totp
    byte_len trim_space rune_len
overlapping_setup = (refl, refl)

moves_accept-IsRising_example : IsRising (pos 9) (moves_accept toy 4 moves desk)
unfolding crosses move
moves_accept-IsRising_example = moves_accept-IsRising toy moves 4 ann one_user refl refl

validate_totp_iff_example :
    (validate_totp toy (codes "S") (codes "000010") 305 ≡ true)
    ↔ ((n : ℤ) × IsNear 305 n × (totp_at toy (codes "S") n ≡ some (trim_space (codes "000010"))))
validate_totp_iff_example = validate_totp_iff toy (codes "S") (codes "000010") 305

verify_login_code-IsUsedUp_example :
    (row : UserMfa) × (find_mfa 4
        (after one_user (verify_login_code toy 305 4 (codes "bbb-bb") one_user)).mfa
      ≡ some row)
    × IsUsedUp toy 4 (codes "bbb-bb") (codes "BBBBB") ann row
unfolding verify_login_code matching_totp_counter byte_len trim_space rune_len to_upper
verify_login_code-IsUsedUp_example =
    verify_login_code-IsUsedUp toy 305 4 (codes "bbb-bb") (codes "BBBBB") ann one_user
      (after one_user (verify_login_code toy 305 4 (codes "bbb-bb") one_user)) refl refl
