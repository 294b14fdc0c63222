-- ===== src/Mfa/Replay.antt =====
-- internal/services/security/totp.go: the last counter of a row through whole calls.
use mathlib.Core.Path.{subst}
use oneinstack_panel.Common.{
  ℕ, ◌≡◌, refl, sym, ap, ◌∙◌, true, false, Option, none, some, List, arith, Bool-cases,
  Option-cases, inl, inr, ◌==◌, ==_iff, if◌then◌else◌,
}
use oneinstack_panel.Common.Int.{ℤ}
use oneinstack_panel.Text.{Text}
use oneinstack_panel.Mfa.{UserMfa, MfaDb, MfaError, Crypto}
use oneinstack_panel.Mfa.Totp.{
  matching_totp_counter, credential_purpose, decode_recovery_hashes, recovery_code_hash,
  remove_first,
}
use oneinstack_panel.Mfa.Manager.{
  totp_secret, find_mfa, update_mfa, ltz, after, Factor, recovery, Outcome, refused, done,
  accept_counter, accept_recovery_code, verify_enabled, verify_login_code,
}
use oneinstack_panel.Mfa.Calls.{
  Call, login_call, setup_call, confirm_call, disable_call, regenerate_call, step, counter_of,
  accepted_by, or_append, IsRising,
}
use oneinstack_panel.Mfa.Counter.{
  HasCounter, find_mfa-user_id, find_mfa-update_mfa, update_mfa-HasCounter, setup-Writes,
  confirm-Writes, regenerate-Writes, Writes-HasCounter, disable-HasCounter,
}

-- A call leaves the counter, or accepts a greater one and stores it.
abbrev pub Grows : ℕ → ℤ → Option ℤ → List UserMfa → Type 0
Grows id n none rows = HasCounter id n rows
Grows id n (some m) rows = (ltz n m ≡ true) × HasCounter id m rows

module _ (c : Crypto) (now id : ℕ) (n : ℤ) (code : Text) (db : MfaDb)
    (k : HasCounter id n db.mfa) where
  abbrev Good : ℕ → Outcome Factor → Type 0
  Good own o = Grows id n (if own == id then counter_of o else none) (after db o).mfa

  done_recovery :
      (own : ℕ) (h : Text) (hashes : Text)
      → Good own (
          done (recovery h) (record db {
            mfa = update_mfa own (λ r. record r { recovery_code_hashes_json = hashes }) db.mfa;
          }))
  done_recovery own h hashes =
      let kept =
        update_mfa-HasCounter own (λ r. record r { recovery_code_hashes_json = hashes }) (λ s. refl)
          (λ s. refl) id n db.mfa k in
      elim (Bool-cases (own == id)) [ inl same ↦ rw same kept | inr other ↦ rw other kept ]

  refused-Good : (own : ℕ) (e : MfaError) → Good own (refused e)
  refused-Good own e = elim (Bool-cases (own == id)) [
    | inl same ↦ rw same k
    | inr other ↦ rw other k
  ]

  recovery-Good : (own : ℕ) (row : UserMfa) → Good own (accept_recovery_code c own row code db)
  unfolding accept_recovery_code
  recovery-Good own row =
      elim (Option-cases (decode_recovery_hashes c row.recovery_code_hashes_json)) [
        | inl d ↦ rw (d, accept_recovery_code) (refused-Good own MfaError.credential_error)
        | inr (hashes, d) ↦ elim (Option-cases (recovery_code_hash c own code)) [
          | inl h ↦ rw (d, h, accept_recovery_code) (refused-Good own MfaError.credential_error)
          | inr (candidate, h) ↦ elim (Option-cases (remove_first candidate hashes)) [
            | inl m ↦
                rw (d, h, m, accept_recovery_code) (refused-Good own MfaError.invalid_second_factor)
            | inr (kept, m) ↦ rw (d, h, m, accept_recovery_code) (done_recovery own candidate _)
          ]
        ]
      ]

  stored : ℕ → ℤ → List UserMfa
  stored own m = update_mfa own (λ r. record r { last_totp_counter = m }) db.mfa

  stored_self :
      (row : UserMfa) (m : ℤ)
      → find_mfa id db.mfa ≡ some row
      → ltz row.last_totp_counter m ≡ true
      → (ltz n m ≡ true) × HasCounter id m (stored id m)
  unfolding stored
  stored_self row m found h =
      let (r, e, l) = k in
      let same : r ≡ row = ground (arith, e, found) in
      let mine : (row.user_id == id) ≡ true =
        ground (arith, find_mfa-user_id id db.mfa row found) in
      (
        ground (arith, h, l, same),
        (
          record row { last_totp_counter = m },
          find_mfa-update_mfa id (λ s. record s { last_totp_counter = m }) (λ s. refl) id db.mfa row
                found
              ∙ ap (λ b. some (if b then record row { last_totp_counter = m } else row)) mine,
          refl,
        ),
      )

  stored_other : (own : ℕ) (m : ℤ) → (own == id) ≡ false → HasCounter id n (stored own m)
  unfolding stored
  stored_other own m other =
      let (r, e, l) = k in
      let apart : (r.user_id == own) ≡ false = ground (arith, find_mfa-user_id id db.mfa r e) in
      (
        r,
        find_mfa-update_mfa own (λ s. record s { last_totp_counter = m }) (λ s. refl) id db.mfa r e
            ∙ ap (λ b. some (if b then record r { last_totp_counter = m } else r)) apart,
        l,
      )

  counter-Good :
      (own : ℕ) (row : UserMfa) (m : ℤ)
      → find_mfa own db.mfa ≡ some row
      → Good own (accept_counter own row m db)
  unfolding accept_counter stored
  counter-Good own row m found = elim (Bool-cases (ltz row.last_totp_counter m)) [
    | inr old ↦ rw (old, accept_counter) (refused-Good own MfaError.invalid_second_factor)
    | inl new ↦
        rw (new, accept_counter)
          (elim (Bool-cases (own == id)) [
            | inl same ↦
                let is = (==_iff own id).0 same in
                rw same (
                  subst (λ i. (ltz n m ≡ true) × HasCounter id m (stored i m)) (sym is)
                    (stored_self row m (subst (λ i. find_mfa i db.mfa ≡ some row) is found) new))
            | inr other ↦ rw other (stored_other own m other)
          ])
  ]

  login-Good : (own : ℕ) → Good own (verify_login_code c now own code db)
  unfolding verify_login_code verify_enabled
  login-Good own = elim (Option-cases (find_mfa own db.mfa)) [
    | inl gone ↦ rw (gone, verify_login_code) (refused-Good own MfaError.mfa_not_enabled)
    | inr (row, found) ↦ elim (Bool-cases row.enabled) [
      | inr off ↦ rw (found, off, verify_login_code) (refused-Good own MfaError.mfa_not_enabled)
      | inl on ↦
          elim (Option-cases
            (c.decrypt_credential row.secret_encrypted (credential_purpose totp_secret own))) [
              | inl d ↦
                  rw (found, on, d, verify_login_code, verify_enabled)
                    (refused-Good own MfaError.credential_error)
              | inr (secret, d) ↦ elim (Option-cases (matching_totp_counter c secret code now)) [
                | inl m ↦
                    rw (found, on, d, m, verify_login_code, verify_enabled) (recovery-Good own row)
                | inr (counter, m) ↦
                    rw (found, on, d, m, verify_login_code, verify_enabled)
                      (counter-Good own row counter found)
              ]
            ]
    ]
  ]

pub step-Grows :
    (c : Crypto) (call : Call) (id : ℕ) (n : ℤ) (db : MfaDb)
    → HasCounter id n db.mfa
    → Grows id n (accepted_by c id call db) (step c call db).mfa
unfolding step
step-Grows c (login_call now own code) id n db k = login-Good c now id n code db k own
step-Grows c (setup_call own secret) id n db k =
    Writes-HasCounter own db _ id n (setup-Writes c 0 own db secret) k
step-Grows c (confirm_call now own password code drawn) id n db k =
    Writes-HasCounter own db _ id n (confirm-Writes c now own db password code drawn) k
step-Grows c (disable_call now own password code) id n db k =
    disable-HasCounter c now own password code db id n k
step-Grows c (regenerate_call now own password code drawn) id n db k =
    Writes-HasCounter own db _ id n (regenerate-Writes c now own db password code drawn) k

pub IsRising-append :
    (id : ℕ) (n : ℤ) (o : Option ℤ) (rows : List UserMfa) (ms : List ℤ)
    → Grows id n o rows
    → ((m : ℤ) → HasCounter id m rows → IsRising m ms)
    → IsRising n (or_append o ms)
IsRising-append id n none rows ms g rest = rest n g
IsRising-append id n (some m) rows ms (h, g) rest = (h, rest m g)
