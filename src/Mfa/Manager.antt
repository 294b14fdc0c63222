-- ===== src/Mfa/Manager.antt =====
-- internal/services/security/totp.go: the calls of `TOTPManager`. Each is one transaction, whose error
-- leaves the tables as they were, but for `Setup`, which reads a row, and later saves all its columns,
-- in no transaction.
use oneinstack_panel.Common.{
  ℕ, ◌+◌, ◌%◌, ◌^◌, Bool, true, false, not, ◌&&◌, Option, none, some, List, [], ◌∷◌, map, find?,
  ltb, ◌==◌, if◌then◌else◌,
}
use oneinstack_panel.Common.Int.{ℤ, pos, negsuc}
use oneinstack_panel.Text.{Text, codes, is_empty}
use oneinstack_panel.Mfa.{UserMfa, User, UserSession, MfaDb, MfaError, Crypto}
use oneinstack_panel.Mfa.Totp.{
  matching_totp_counter, validate_totp, credential_purpose, recovery_code_hash, remove_first,
  decode_recovery_hashes, hash_recovery_codes,
}

abbrev pub totp_secret : Text
totp_secret = codes "security.totp.secret"

abbrev pub totp_pending : Text
totp_pending = codes "security.totp.pending"

abbrev pub find_mfa : ℕ → List UserMfa → Option UserMfa
find_mfa id rows = find? (λ r. r.user_id == id) rows

abbrev pub find_user : ℕ → List User → Option User
find_user id rows = find? (λ u. u.id == id) rows

-- `Where("user_id = ?", id).Updates(change)`
unfoldable pub update_mfa : ℕ → (UserMfa → UserMfa) → List UserMfa → List UserMfa
update_mfa id change [] = []
update_mfa id change (r ∷ rows) =
    (if r.user_id == id then change r else r) ∷ update_mfa id change rows

-- `Save(&record)`: the row of the record's user is written, or added.
unfoldable pub save_mfa : UserMfa → List UserMfa → List UserMfa
save_mfa new [] = new ∷ []
save_mfa new (r ∷ rows) =
    let rest = save_mfa new rows in if r.user_id == new.user_id then new ∷ rows else r ∷ rest

abbrev pub ltz : ℤ → ℤ → Bool
ltz (pos m) (pos n) = ltb m n
ltz (pos m) (negsuc n) = false
ltz (negsuc m) (pos n) = true
ltz (negsuc m) (negsuc n) = ltb n m

-- How a login was accepted.
pub data Factor : Type 0 where
  totp : ℤ → Factor
  recovery : Text → Factor

pub data Outcome (A : Type 0) : Type 0 where
  refused : MfaError → Outcome A
  done : A → MfaDb → Outcome A

-- The tables after a call.
abbrev pub after : {A : Type 0} → MfaDb → Outcome A → MfaDb
after db (refused e) = db
after db (done a db') = db'

-- The conditional update of `last_totp_counter`, and the branch on `RowsAffected`.
unfoldable pub accept_counter : ℕ → UserMfa → ℤ → MfaDb → Outcome Factor
unfolding update_mfa
accept_counter id row counter db =
    if ltz row.last_totp_counter counter
    then done (totp counter)
        (record db { mfa = update_mfa id (λ r. record r { last_totp_counter = counter }) db.mfa })
    else refused MfaError.invalid_second_factor

-- The second half of `VerifyLoginCode`: a recovery code. The row that is updated is the one that was
-- read in the same transaction.
unfoldable pub accept_recovery_code : Crypto → ℕ → UserMfa → Text → MfaDb → Outcome Factor
unfolding decode_recovery_hashes recovery_code_hash remove_first
accept_recovery_code c id row code db =
    elim (decode_recovery_hashes c row.recovery_code_hashes_json) [
      | none ↦ refused MfaError.credential_error
      | some hashes ↦ elim (recovery_code_hash c id code) [
        | none ↦ refused MfaError.credential_error
        | some candidate ↦ elim (remove_first candidate hashes) [
          | none ↦ refused MfaError.invalid_second_factor
          | some kept ↦ done (recovery candidate) (record db {
            mfa =
                update_mfa id (λ r. record r { recovery_code_hashes_json = c.encode_hashes kept })
                  db.mfa;
          })
        ]
      ]
    ]

-- `VerifyLoginCode`, on the row of the user, where it is enabled.
unfoldable pub verify_enabled : Crypto → ℕ → ℕ → Text → UserMfa → MfaDb → Outcome Factor
unfolding accept_counter accept_recovery_code
verify_enabled c now id code row db =
    elim (c.decrypt_credential row.secret_encrypted (credential_purpose totp_secret id)) [
      | none ↦ refused MfaError.credential_error
      | some secret ↦ elim (matching_totp_counter c secret code now) [
        | some counter ↦ accept_counter id row counter db
        | none ↦ accept_recovery_code c id row code db
      ]
    ]

unfoldable pub verify_login_code : Crypto → ℕ → ℕ → Text → MfaDb → Outcome Factor
unfolding verify_enabled
verify_login_code c now id code db = elim (find_mfa id db.mfa) [
  | none ↦ refused MfaError.mfa_not_enabled
  | some row ↦
      if row.enabled then verify_enabled c now id code row db else refused MfaError.mfa_not_enabled
]

abbrev no_mfa : ℕ → UserMfa
no_mfa id = record {
  user_id = id;
  enabled = false;
  secret_encrypted = [];
  pending_secret_encrypted = [];
  recovery_code_hashes_json = [];
  recovery_codes_generation = 0;
  last_totp_counter = pos 0;
}

abbrev row_or_new : ℕ → Option UserMfa → UserMfa
row_or_new id none = no_mfa id
row_or_new id (some row) = row

-- The row that `Setup` is going to save.
pub data Draft : Type 0 where
  rejected : MfaError → Draft
  drafted : UserMfa → Draft

-- `Setup` up to its write, with the secret that was drawn: the row is read, and changed in memory.
unfoldable pub read_setup : Crypto → ℕ → Text → MfaDb → Draft
read_setup c id secret db =
    let row = row_or_new id (find_mfa id db.mfa) in
    if row.enabled
    then rejected MfaError.mfa_already_enabled
    else elim (c.encrypt_credential secret (credential_purpose totp_pending id)) [
      | none ↦ rejected MfaError.credential_error
      | some encrypted ↦
          drafted
            (record row { user_id = id; enabled = false; pending_secret_encrypted = encrypted })
    ]

-- The write of `Setup`: all the columns of the row, whatever they have become since the reading.
unfoldable pub save_setup : Text → Draft → MfaDb → Outcome Text
unfolding save_mfa
save_setup secret (rejected e) db = refused e
save_setup secret (drafted row) db = done secret (record db { mfa = save_mfa row db.mfa })

-- `Setup` with no other call between its halves; the URI that it returns is made of the secret alone.
unfoldable pub setup : Crypto → ℕ → Text → MfaDb → Outcome Text
unfolding read_setup save_setup
setup c id secret db = save_setup secret (read_setup c id secret db) db

-- `record.RecoveryCodesGeneration++`
abbrev next_generation : ℕ → ℕ
next_generation n = (n + 1) % 2 ^ 64

-- `Confirm` with the recovery codes that `generateRecoveryCodes` drew: the checks on the two rows,
-- and what is written.
unfoldable pub confirm_row :
    Crypto → ℕ → ℕ → Text → Text → List Text → User → UserMfa → MfaDb → Outcome (List Text)
unfolding save_mfa hash_recovery_codes
confirm_row c now id password code drawn user row db =
    if row.enabled
    then refused MfaError.mfa_already_enabled
    else if not (c.check_password password user.password)
    then refused MfaError.invalid_password
    else if is_empty row.pending_secret_encrypted
    then refused MfaError.mfa_unavailable
    else elim (c.decrypt_credential row.pending_secret_encrypted
        (credential_purpose totp_pending id)) [
          | none ↦ refused MfaError.credential_error
          | some secret ↦
              if not (validate_totp c secret code now)
              then refused MfaError.invalid_second_factor
              else elim (hash_recovery_codes c id drawn) [
                | none ↦ refused MfaError.credential_error
                | some hashes ↦
                    elim (c.encrypt_credential secret (credential_purpose totp_secret id)) [
                      | none ↦ refused MfaError.credential_error
                      | some encrypted ↦ done drawn (record db {
                        mfa =
                            save_mfa
                              (record row {
                                enabled = true;
                                secret_encrypted = encrypted;
                                pending_secret_encrypted = [];
                                recovery_code_hashes_json = c.encode_hashes hashes;
                                recovery_codes_generation =
                                    next_generation row.recovery_codes_generation;
                              })
                              db.mfa;
                      })
                    ]
              ]
        ]

-- `loadUserAndMFA`, and the rest of the transaction on what it loads.
abbrev pub with_rows : {A : Type 0} → ℕ → MfaDb → (User → UserMfa → Outcome A) → Outcome A
with_rows id db go = elim (find_user id db.users) [
  | none ↦ refused MfaError.user_not_found
  | some user ↦ elim (find_mfa id db.mfa) [
    | none ↦ refused MfaError.mfa_unavailable
    | some row ↦ go user row
  ]
]

unfoldable pub confirm : Crypto → ℕ → ℕ → Text → Text → List Text → MfaDb → Outcome (List Text)
unfolding confirm_row
confirm c now id password code drawn db =
    with_rows id db (λ user row. confirm_row c now id password code drawn user row db)

-- The checks that `Disable` and `RegenerateRecoveryCodes` share; `none` where they pass.
unfoldable pub check_enabled : Crypto → ℕ → ℕ → Text → Text → User → UserMfa → Option MfaError
check_enabled c now id password code user row =
    if not row.enabled
    then some MfaError.mfa_not_enabled
    else if not (c.check_password password user.password)
    then some MfaError.invalid_password
    else elim (c.decrypt_credential row.secret_encrypted (credential_purpose totp_secret id)) [
      | none ↦ some MfaError.credential_error
      | some secret ↦
          if validate_totp c secret code now then none else some MfaError.invalid_second_factor
    ]

-- `EffectiveSecurityVersion`
abbrev pub effective_security_version : User → ℕ
effective_security_version u = if u.security_version == 0 then 1 else u.security_version

abbrev pub is_live : UserSession → Bool
is_live s = elim s.revoked_at [ none ↦ true | some at ↦ false ]

unfoldable pub disable_row : ℕ → ℕ → User → MfaDb → MfaDb
unfolding update_mfa
disable_row now id user db = record db {
  mfa =
      update_mfa id
        (λ r. record r {
          enabled = false;
          secret_encrypted = [];
          pending_secret_encrypted = [];
          recovery_code_hashes_json = [];
        })
        db.mfa;
  users =
      map
        (λ u.
          if u.id == id
          then record u { security_version = (effective_security_version user + 1) % 2 ^ 64 }
          else u)
        db.users;
  sessions =
      map
        (λ s.
          if s.user_id == id && is_live s
          then record s { revoked_at = some now; revocation_reason = codes "totp_disabled" }
          else s)
        db.sessions;
}

unfoldable pub disable : Crypto → ℕ → ℕ → Text → Text → MfaDb → Outcome Unit
unfolding disable_row check_enabled
disable c now id password code db = with_rows id db (λ user row.
    elim (check_enabled c now id password code user row) [
      | some error ↦ refused error
      | none ↦ done tt (disable_row now id user db)
    ])

unfoldable pub regenerate_recovery_codes :
    Crypto → ℕ → ℕ → Text → Text → List Text → MfaDb → Outcome (List Text)
unfolding save_mfa check_enabled hash_recovery_codes
regenerate_recovery_codes c now id password code drawn db = with_rows id db (λ user row.
    elim (check_enabled c now id password code user row) [
      | some error ↦ refused error
      | none ↦ elim (hash_recovery_codes c id drawn) [
        | none ↦ refused MfaError.credential_error
        | some hashes ↦ done drawn (record db {
          mfa =
              save_mfa
                (record row {
                  recovery_code_hashes_json = c.encode_hashes hashes;
                  recovery_codes_generation = next_generation row.recovery_codes_generation;
                })
                db.mfa;
        })
      ]
    ])
