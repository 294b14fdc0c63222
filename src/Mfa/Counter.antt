-- ===== src/Mfa/Counter.antt =====
-- What each call leaves of the last counter of a row.
use mathlib.Core.Path.{subst}
use oneinstack_panel.Common.{
  ℕ, ◌≡◌, ◌≢◌, refl, sym, ◌∙◌, some, List, [], ◌∷◌, arith, Bool-cases, Option-cases, inl, inr, ◌==◌,
  ==_iff, if◌then◌else◌,
}
use oneinstack_panel.Common.Int.{ℤ}
use oneinstack_panel.Text.{Text, is_empty}
use oneinstack_panel.Mfa.{UserMfa, User, MfaDb, Crypto}
use oneinstack_panel.Mfa.Totp.{validate_totp, credential_purpose, hash_recovery_codes}
use oneinstack_panel.Mfa.Manager.{
  totp_secret, totp_pending, find_mfa, find_user, update_mfa, save_mfa, setup, read_setup,
  save_setup, confirm_row, confirm, with_rows, check_enabled, disable_row, disable,
  regenerate_recovery_codes, after,
}

pub find_mfa-user_id :
    (id : ℕ) (rows : List UserMfa) (r : UserMfa) → find_mfa id rows ≡ some r → r.user_id ≡ id
find_mfa-user_id id [] r e = cc
find_mfa-user_id id (s ∷ rows) r e = ground (arith, find_mfa-user_id id rows r)

pub find_mfa-update_mfa :
    (own : ℕ) (change : UserMfa → UserMfa) (same : (s : UserMfa) → (change s).user_id ≡ s.user_id)
    (id : ℕ) (rows : List UserMfa) (r : UserMfa)
    → find_mfa id rows ≡ some r
    → find_mfa id (update_mfa own change rows) ≡ some (if r.user_id == own then change r else r)
unfolding update_mfa
find_mfa-update_mfa own change same id [] r e = cc
find_mfa-update_mfa own change same id (s ∷ rows) r e =
    ground (arith, same s, find_mfa-update_mfa own change same id rows r)

pub find_mfa-save_mfa_self :
    (new : UserMfa) (rows : List UserMfa) → find_mfa new.user_id (save_mfa new rows) ≡ some new
unfolding save_mfa
find_mfa-save_mfa_self new [] = ground arith
find_mfa-save_mfa_self new (s ∷ rows) = ground (arith, find_mfa-save_mfa_self new rows)

pub find_mfa-save_mfa_other :
    (id : ℕ) (new : UserMfa) (rows : List UserMfa)
    → id ≢ new.user_id
    → find_mfa id (save_mfa new rows) ≡ find_mfa id rows
unfolding save_mfa
find_mfa-save_mfa_other id new [] h = ground arith
find_mfa-save_mfa_other id new (s ∷ rows) h = ground (arith, find_mfa-save_mfa_other id new rows)

-- The row of `id` is there, with the last counter `n`.
abbrev pub HasCounter : ℕ → ℤ → List UserMfa → Type 0
HasCounter id n rows = (r : UserMfa) × (find_mfa id rows ≡ some r) × (r.last_totp_counter ≡ n)

pub update_mfa-HasCounter :
    (own : ℕ) (change : UserMfa → UserMfa)
    → ((s : UserMfa) → (change s).user_id ≡ s.user_id)
    → ((s : UserMfa) → (change s).last_totp_counter ≡ s.last_totp_counter)
    → (id : ℕ) (n : ℤ) (rows : List UserMfa) → HasCounter id n rows
    → HasCounter id n (update_mfa own change rows)
update_mfa-HasCounter own change same last id n rows (r, e, k) = (
  if r.user_id == own then change r else r,
  find_mfa-update_mfa own change same id rows r e,
  ground (arith, last r),
)

save_mfa-HasCounter :
    (new : UserMfa) (id : ℕ) (n : ℤ) (rows : List UserMfa)
    → ((r : UserMfa)
        → find_mfa new.user_id rows ≡ some r
        → new.last_totp_counter ≡ r.last_totp_counter)
    → HasCounter id n rows
    → HasCounter id n (save_mfa new rows)
save_mfa-HasCounter new id n rows last (r, e, k) = elim (Bool-cases (id == new.user_id)) [
  | inl same ↦
      let is = (==_iff id new.user_id).0 same in
      (
        new,
        subst (λ i. find_mfa i (save_mfa new rows) ≡ some new) (sym is)
            (find_mfa-save_mfa_self new rows),
        last r (subst (λ i. find_mfa i rows ≡ some r) is e) ∙ k,
      )
  | inr other ↦ (r, find_mfa-save_mfa_other id new rows (ground arith) ∙ e, k)
]

-- A call that refuses, or writes one row with the counter that it has read.
pub data Writes (own : ℕ) (db : MfaDb) : MfaDb → Type 0 where
  nothing : Writes own db db
  saved :
      (new : UserMfa)
      → new.user_id ≡ own
      → ((r : UserMfa) → find_mfa own db.mfa ≡ some r → new.last_totp_counter ≡ r.last_totp_counter)
      → Writes own db (record db { mfa = save_mfa new db.mfa })

module _ (c : Crypto) (now own : ℕ) (db : MfaDb) where
  pub setup-Writes : (secret : Text) → Writes own db (after db (setup c own secret db))
  unfolding setup read_setup save_setup
  setup-Writes secret = elim (Option-cases (find_mfa own db.mfa)) [
    | inl new ↦
        elim (Option-cases (c.encrypt_credential secret (credential_purpose totp_pending own))) [
          | inl w ↦ rw (new, w, setup, read_setup, save_setup) nothing
          | inr (encrypted, w) ↦
              rw (new, w, setup, read_setup, save_setup)
                (saved _ refl (λ r e. absurd (cc (new, e))))
        ]
    | inr (row, found) ↦ elim (Bool-cases row.enabled) [
      | inl h ↦ rw (found, h, setup, read_setup, save_setup) nothing
      | inr h ↦
          elim (Option-cases (c.encrypt_credential secret (credential_purpose totp_pending own))) [
            | inl w ↦ rw (found, h, w, setup, read_setup, save_setup) nothing
            | inr (encrypted, w) ↦
                rw (found, h, w, setup, read_setup, save_setup)
                  (saved _ refl (λ r e. ground (arith, found, e)))
          ]
    ]
  ]

  confirm_row-Writes :
      (password code : Text) (drawn : List Text) (user : User) (row : UserMfa)
      → find_mfa own db.mfa ≡ some row
      → Writes own db (after db (confirm_row c now own password code drawn user row db))
  unfolding confirm_row
  confirm_row-Writes password code drawn user row found = elim (Bool-cases row.enabled) [
    | inl h ↦ rw (h, confirm_row) nothing
    | inr h ↦ elim (Bool-cases (c.check_password password user.password)) [
      | inr i ↦ rw (h, i, confirm_row) nothing
      | inl i ↦ elim (Bool-cases (is_empty row.pending_secret_encrypted)) [
        | inl j ↦ rw (h, i, j, confirm_row) nothing
        | inr j ↦
            elim (Option-cases (
              c.decrypt_credential row.pending_secret_encrypted
                (credential_purpose totp_pending own))) [
                  | inl d ↦ rw (h, i, j, d, confirm_row) nothing
                  | inr (secret, d) ↦ elim (Bool-cases (validate_totp c secret code now)) [
                    | inr v ↦ rw (h, i, j, d, v, confirm_row) nothing
                    | inl v ↦ elim (Option-cases (hash_recovery_codes c own drawn)) [
                      | inl m ↦ rw (h, i, j, d, v, m, confirm_row) nothing
                      | inr (hashes, m) ↦
                          elim (Option-cases
                            (c.encrypt_credential secret (credential_purpose totp_secret own))) [
                              | inl w ↦ rw (h, i, j, d, v, m, w, confirm_row) nothing
                              | inr (encrypted, w) ↦
                                  rw (h, i, j, d, v, m, w, confirm_row)
                                    (saved _ (find_mfa-user_id own db.mfa row found)
                                      (λ r e. ground (arith, found, e)))
                            ]
                    ]
                  ]
                ]
      ]
    ]
  ]

  pub confirm-Writes :
      (password code : Text) (drawn : List Text)
      → Writes own db (after db (confirm c now own password code drawn db))
  unfolding confirm
  confirm-Writes password code drawn = elim (Option-cases (find_user own db.users)) [
    | inl gone ↦ rw (gone, confirm, with_rows) nothing
    | inr (user, known) ↦ elim (Option-cases (find_mfa own db.mfa)) [
      | inl none_left ↦ rw (known, none_left, confirm, with_rows) nothing
      | inr (row, found) ↦
          rw (known, found, confirm, with_rows)
            (confirm_row-Writes password code drawn user row found)
    ]
  ]

  pub regenerate-Writes :
      (password code : Text) (drawn : List Text)
      → Writes own db (after db (regenerate_recovery_codes c now own password code drawn db))
  unfolding regenerate_recovery_codes
  regenerate-Writes password code drawn = elim (Option-cases (find_user own db.users)) [
    | inl gone ↦ rw (gone, regenerate_recovery_codes, with_rows) nothing
    | inr (user, known) ↦ elim (Option-cases (find_mfa own db.mfa)) [
      | inl none_left ↦ rw (known, none_left, regenerate_recovery_codes, with_rows) nothing
      | inr (row, found) ↦ elim (Option-cases (check_enabled c now own password code user row)) [
        | inr (error, k) ↦ rw (known, found, k, regenerate_recovery_codes, with_rows) nothing
        | inl k ↦ elim (Option-cases (hash_recovery_codes c own drawn)) [
          | inl m ↦ rw (known, found, k, m, regenerate_recovery_codes, with_rows) nothing
          | inr (hashes, m) ↦
              rw (known, found, k, m, regenerate_recovery_codes, with_rows)
                (saved _ (find_mfa-user_id own db.mfa row found) (λ r e. ground (arith, found, e)))
        ]
      ]
    ]
  ]

pub Writes-HasCounter :
    (own : ℕ) (db db' : MfaDb) (id : ℕ) (n : ℤ)
    → Writes own db db'
    → HasCounter id n db.mfa
    → HasCounter id n db'.mfa
Writes-HasCounter own db _ id n nothing k = k
Writes-HasCounter own db _ id n (saved new same last) k =
    save_mfa-HasCounter new id n db.mfa
      (λ r e. last r (subst (λ i. find_mfa i db.mfa ≡ some r) same e)) k

pub disable-HasCounter :
    (c : Crypto) (now own : ℕ) (password code : Text) (db : MfaDb) (id : ℕ) (n : ℤ)
    → HasCounter id n db.mfa
    → HasCounter id n (after db (disable c now own password code db)).mfa
unfolding disable disable_row
disable-HasCounter c now own password code db id n k =
    elim (Option-cases (find_user own db.users)) [
      | inl gone ↦ rw (gone, disable, with_rows) k
      | inr (user, known) ↦ elim (Option-cases (find_mfa own db.mfa)) [
        | inl none_left ↦ rw (known, none_left, disable, with_rows) k
        | inr (row, found) ↦ elim (Option-cases (check_enabled c now own password code user row)) [
          | inr (error, h) ↦ rw (known, found, h, disable, with_rows) k
          | inl h ↦
              rw (known, found, h, disable, with_rows)
                (update_mfa-HasCounter own _ (λ s. refl) (λ s. refl) id n db.mfa k)
        ]
      ]
    ]
