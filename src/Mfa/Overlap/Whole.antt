-- ===== src/Mfa/Overlap/Whole.antt =====
-- internal/services/security/totp.go: whole calls on the row of a user whose second factor is off.
use mathlib.Core.Path.{subst}
use oneinstack_panel.Common.{
  ℕ, ◌≡◌, ◌≢◌, refl, sym, ◌∙◌, Bool, true, false, some, List, arith, Bool-cases, Option-cases, inl,
  inr, ◌==◌, ==_iff,
}
use oneinstack_panel.Common.Int.{ℤ}
use oneinstack_panel.Text.{Text}
use oneinstack_panel.Mfa.{UserMfa, MfaDb, Crypto}
use oneinstack_panel.Mfa.Totp.{
  matching_totp_counter, credential_purpose, decode_recovery_hashes, recovery_code_hash,
  remove_first,
}
use oneinstack_panel.Mfa.Manager.{
  totp_secret, find_mfa, find_user, update_mfa, ltz, after, with_rows, accept_counter,
  accept_recovery_code, verify_enabled, verify_login_code, setup, read_setup, check_enabled,
  disable, disable_row, regenerate_recovery_codes,
}
use oneinstack_panel.Mfa.Counter.{find_mfa-user_id, confirm-Writes, regenerate-Writes}
use oneinstack_panel.Mfa.Calls.{
  Call, login_call, setup_call, confirm_call, disable_call, regenerate_call, step,
}
use oneinstack_panel.Mfa.Overlap.Off.{
  IsOff, read_setup-IsDraft, save_setup-IsOff, Writes-other, update_mfa-IsOff,
}

module _ (c : Crypto) (now own user : ℕ) (n : ℤ) (db : MfaDb)
    (k : IsOff n (find_mfa own db.mfa)) where
  -- The tables after a call of `user` keep the row of `own` off.
  abbrev pub Keeps : MfaDb → Type 0
  Keeps db' = IsOff n (find_mfa own db'.mfa)

  -- The row of `own` is not enabled, so a row of `user` that is enabled is another.
  enabled_other :
      (row : UserMfa) → find_mfa user db.mfa ≡ some row → row.enabled ≡ true → own ≢ user
  enabled_other row found on same =
      let off = subst (IsOff n) (subst (λ i. find_mfa i db.mfa ≡ some row) (sym same) found) k in
      absurd (cc (off.0, on))

  -- An update of another user's rows.
  updated :
      (change : UserMfa → UserMfa)
      → ((s : UserMfa) → (change s).user_id ≡ s.user_id)
      → own ≢ user
      → IsOff n (find_mfa own (update_mfa user change db.mfa))
  updated change same other =
      update_mfa-IsOff user change same own n db.mfa
        (λ r found mine off.
          absurd
            (other (sym (find_mfa-user_id own db.mfa r found) ∙ (==_iff r.user_id user).0 mine)))
        k

  counter-Keeps :
      (row : UserMfa) (m : ℤ) → own ≢ user → Keeps (after db (accept_counter user row m db))
  unfolding accept_counter
  counter-Keeps row m other = elim (Bool-cases (ltz row.last_totp_counter m)) [
    | inr old ↦ rw (old, accept_counter) k
    | inl new ↦ rw (new, accept_counter) (updated _ (λ s. refl) other)
  ]

  recovery-Keeps :
      (row : UserMfa) (code : Text)
      → own ≢ user
      → Keeps (after db (accept_recovery_code c user row code db))
  unfolding accept_recovery_code
  recovery-Keeps row code other =
      elim (Option-cases (decode_recovery_hashes c row.recovery_code_hashes_json)) [
        | inl d ↦ rw (d, accept_recovery_code) k
        | inr (hashes, d) ↦ elim (Option-cases (recovery_code_hash c user code)) [
          | inl h ↦ rw (d, h, accept_recovery_code) k
          | inr (candidate, h) ↦ elim (Option-cases (remove_first candidate hashes)) [
            | inl m ↦ rw (d, h, m, accept_recovery_code) k
            | inr (kept, m) ↦ rw (d, h, m, accept_recovery_code) (updated _ (λ s. refl) other)
          ]
        ]
      ]

  pub login-Keeps : (code : Text) → Keeps (after db (verify_login_code c now user code db))
  unfolding verify_login_code verify_enabled
  login-Keeps code = elim (Option-cases (find_mfa user db.mfa)) [
    | inl gone ↦ rw (gone, verify_login_code) k
    | inr (row, found) ↦ elim (Bool-cases row.enabled) [
      | inr off ↦ rw (found, off, verify_login_code) k
      | inl on ↦
          let other = enabled_other row found on in
          elim (Option-cases
            (c.decrypt_credential row.secret_encrypted (credential_purpose totp_secret user))) [
              | inl d ↦ rw (found, on, d, verify_login_code, verify_enabled) k
              | inr (secret, d) ↦ elim (Option-cases (matching_totp_counter c secret code now)) [
                | inl m ↦
                    rw (found, on, d, m, verify_login_code, verify_enabled)
                      (recovery-Keeps row code other)
                | inr (counter, m) ↦
                    rw (found, on, d, m, verify_login_code, verify_enabled)
                      (counter-Keeps row counter other)
              ]
            ]
    ]
  ]

  pub setup-Keeps : (secret : Text) → Keeps (after db (setup c user secret db))
  unfolding setup
  setup-Keeps secret =
      save_setup-IsOff own user n secret (read_setup c user secret db) db
        (read_setup-IsDraft c user secret db) k

  pub disable-Keeps :
      (password code : Text) → Keeps (after db (disable c now user password code db))
  unfolding disable disable_row
  disable-Keeps password code = elim (Option-cases (find_user user db.users)) [
    | inl gone ↦ rw (gone, disable, with_rows) k
    | inr (u, known) ↦ elim (Option-cases (find_mfa user db.mfa)) [
      | inl none_left ↦ rw (known, none_left, disable, with_rows) k
      | inr (row, found) ↦ elim (Option-cases (check_enabled c now user password code u row)) [
        | inr (error, h) ↦ rw (known, found, h, disable, with_rows) k
        | inl h ↦
            rw (known, found, h, disable, with_rows)
              (update_mfa-IsOff user _ (λ s. refl) own n db.mfa (λ r e mine off. (refl, off.1)) k)
      ]
    ]
  ]

  -- The user's own row refuses, and another's is not his.
  pub regenerate-Keeps :
      (password code : Text) (drawn : List Text)
      → Keeps (after db (regenerate_recovery_codes c now user password code drawn db))
  unfolding regenerate_recovery_codes check_enabled
  regenerate-Keeps password code drawn = elim (Option-cases (find_user user db.users)) [
    | inl gone ↦ rw (gone, regenerate_recovery_codes, with_rows) k
    | inr (u, known) ↦ elim (Option-cases (find_mfa user db.mfa)) [
      | inl none_left ↦ rw (known, none_left, regenerate_recovery_codes, with_rows) k
      | inr (row, found) ↦ elim (Bool-cases row.enabled) [
        | inr off ↦ rw (known, found, off, regenerate_recovery_codes, with_rows, check_enabled) k
        | inl on ↦
            subst (IsOff n)
              (sym (
                Writes-other own user db _ (enabled_other row found on)
                  (regenerate-Writes c now user db password code drawn)))
              k
      ]
    ]
  ]

  pub confirm-Keeps :
      (password code : Text) (drawn : List Text)
      → own ≢ user
      → Keeps (step c (confirm_call now user password code drawn) db)
  unfolding step
  confirm-Keeps password code drawn other =
      subst (IsOff n)
        (sym (Writes-other own user db _ other (confirm-Writes c now user db password code drawn)))
        k

-- A confirmation by the user.
abbrev pub confirms : ℕ → Call → Bool
confirms own (confirm_call now user password code drawn) = own == user
confirms own _ = false

pub step-IsOff :
    (c : Crypto) (k : Call) (own : ℕ) (n : ℤ) (db : MfaDb)
    → confirms own k ≡ false
    → IsOff n (find_mfa own db.mfa)
    → IsOff n (find_mfa own (step c k db).mfa)
unfolding step
step-IsOff c (login_call now user code) own n db h k = login-Keeps c now own user n db k code
step-IsOff c (setup_call user secret) own n db h k = setup-Keeps c 0 own user n db k secret
step-IsOff c (confirm_call now user password code drawn) own n db h k =
    confirm-Keeps c now own user n db k password code drawn (λ e. ground (arith, h, e))
step-IsOff c (disable_call now user password code) own n db h k =
    disable-Keeps c now own user n db k password code
step-IsOff c (regenerate_call now user password code drawn) own n db h k =
    regenerate-Keeps c now own user n db k password code drawn
