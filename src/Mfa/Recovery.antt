-- ===== src/Mfa/Recovery.antt =====
-- A recovery code is used up by the login that it opens.
use mathlib.Core.Path.{subst}
use oneinstack_panel.Common.{
  ℕ, ◌≡◌, refl, sym, ap, ◌∙◌, true, some, List, [], ◌∷◌, ◌++◌, arith, Bool-cases, Option-cases, inl,
  inr, ◌==◌, if◌then◌else◌,
}
use oneinstack_panel.Common.Int.{ℤ}
use oneinstack_panel.Text.{Text, text_eq}
use oneinstack_panel.Text.Laws.{text_eq_iff}
use oneinstack_panel.Mfa.{UserMfa, MfaDb, MfaError, Crypto}
use oneinstack_panel.Mfa.Totp.{
  matching_totp_counter, credential_purpose, decode_recovery_hashes, recovery_code_hash,
  remove_first,
}
use oneinstack_panel.Mfa.Manager.{
  totp_secret, find_mfa, update_mfa, ltz, recovery, refused, done, accept_counter,
  accept_recovery_code, verify_enabled, verify_login_code, after,
}
use oneinstack_panel.Mfa.Counter.{find_mfa-user_id, find_mfa-update_mfa}

-- The first hash that is the candidate is taken out.
remove_first-split :
    (h : Text) (hs kept : List Text)
    → remove_first h hs ≡ some kept
    → (xs : List Text) × (ys : List Text) × (hs ≡ xs ++ h ∷ ys) × (kept ≡ xs ++ ys)
unfolding remove_first
remove_first-split h [] kept e = absurd (cc e)
remove_first-split h (g ∷ hs) kept e = elim (Bool-cases (text_eq g h)) [
  | inl same ↦ ([], hs, ground (arith, text_eq_iff g h), ground arith)
  | inr other ↦ elim (Option-cases (remove_first h hs)) [
    | inl missing ↦ absurd (ground arith)
    | inr (rest, found) ↦
        let (xs, ys, p, q) = remove_first-split h hs rest found in
        let is : g ∷ rest ≡ kept = ground arith in
        (g ∷ xs, ys, ap (λ l. g ∷ l) p, sym is ∙ ap (λ l. g ∷ l) q)
  ]
]

-- What a login by a recovery code uses up: of the hashes that the row held, one that is the code's.
pub record IsUsedUp (c : Crypto) (id : ℕ) (code h : Text) (row row' : UserMfa) : Type 0 where
  pub hash : recovery_code_hash c id code ≡ some h
  pub before : List Text
  pub behind : List Text
  pub held : decode_recovery_hashes c row.recovery_code_hashes_json ≡ some (before ++ h ∷ behind)
  pub left : row'.recovery_code_hashes_json ≡ c.encode_hashes (before ++ behind)
  pub counter : row'.last_totp_counter ≡ row.last_totp_counter

module _ (c : Crypto) (id : ℕ) (code h : Text) (row : UserMfa) (db db' : MfaDb)
    (found : find_mfa id db.mfa ≡ some row) where
  abbrev Used : Type 0
  Used = (row' : UserMfa) × (find_mfa id db'.mfa ≡ some row') × IsUsedUp c id code h row row'

  not_counter : (n : ℤ) → accept_counter id row n db ≡ done (recovery h) db' → Used
  unfolding accept_counter
  not_counter n e = elim (Bool-cases (ltz row.last_totp_counter n)) [
    | inl above ↦ absurd (ground arith)
    | inr below ↦ absurd (ground arith)
  ]

  accept_recovery_code-Used : accept_recovery_code c id row code db ≡ done (recovery h) db' → Used
  unfolding accept_recovery_code
  accept_recovery_code-Used =
      elim (Option-cases (decode_recovery_hashes c row.recovery_code_hashes_json)) [
        | inl d ↦ rw (d, accept_recovery_code) (λ e. absurd (cc e))
        | inr (hashes, d) ↦ elim (Option-cases (recovery_code_hash c id code)) [
          | inl m ↦ rw (d, m, accept_recovery_code) (λ e. absurd (cc e))
          | inr (candidate, m) ↦ elim (Option-cases (remove_first candidate hashes)) [
            | inl k ↦ rw (d, m, k, accept_recovery_code) (λ e. absurd (cc e))
            | inr (kept, k) ↦
                rw (d, m, k, accept_recovery_code)
                  (λ e.
                    let same : candidate ≡ h = ground arith in
                    let wrote : update_mfa id
                          (λ r. record r { recovery_code_hashes_json = c.encode_hashes kept })
                          db.mfa
                        ≡ db'.mfa =
                      ap (λ o. (after db o).mfa) e in
                    let (xs, ys, p, q) = remove_first-split candidate hashes kept k in
                    let mine : (row.user_id == id) ≡ true =
                      ground (arith, find_mfa-user_id id db.mfa row found) in
                    let new : UserMfa = record row {
                      recovery_code_hashes_json = c.encode_hashes kept;
                    } in
                    let stored =
                      find_mfa-update_mfa id
                        (λ r. record r { recovery_code_hashes_json = c.encode_hashes kept })
                        (λ s. refl) id db.mfa row found
                      ∙ ap (λ b. some (if b then new else row)) mine in
                    (
                      new,
                      subst (λ rows. find_mfa id rows ≡ some new) wrote stored,
                      record {
                        hash = m ∙ ap (λ x. some x) same;
                        before = xs;
                        behind = ys;
                        held = d ∙ ap (λ l. some l) p ∙ ap (λ x. some (xs ++ x ∷ ys)) same;
                        left = ap (λ l. c.encode_hashes l) q;
                        counter = refl;
                      },
                    ))
          ]
        ]
      ]

verify_enabled-IsUsedUp :
    (c : Crypto) (now id : ℕ) (code h : Text) (row : UserMfa) (db db' : MfaDb)
    → find_mfa id db.mfa ≡ some row
    → verify_enabled c now id code row db ≡ done (recovery h) db'
    → (row' : UserMfa) × (find_mfa id db'.mfa ≡ some row') × IsUsedUp c id code h row row'
unfolding verify_enabled
verify_enabled-IsUsedUp c now id code h row db db' found =
    elim (Option-cases
      (c.decrypt_credential row.secret_encrypted (credential_purpose totp_secret id))) [
        | inl d ↦ rw (d, verify_enabled) (λ e. absurd (cc e))
        | inr (secret, d) ↦ elim (Option-cases (matching_totp_counter c secret code now)) [
          | inr (n, m) ↦ rw (d, m, verify_enabled) (not_counter c id code h row db db' found n)
          | inl m ↦
              rw (d, m, verify_enabled) (accept_recovery_code-Used c id code h row db db' found)
        ]
      ]

-- A login that a recovery code opens takes one hash, that of the code, out of those that the user's
-- row held, and keeps the others in their order and the last counter.
pub verify_login_code-IsUsedUp :
    (c : Crypto) (now id : ℕ) (code h : Text) (row : UserMfa) (db db' : MfaDb)
    → find_mfa id db.mfa ≡ some row
    → verify_login_code c now id code db ≡ done (recovery h) db'
    → (row' : UserMfa) × (find_mfa id db'.mfa ≡ some row') × IsUsedUp c id code h row row'
unfolding verify_login_code
verify_login_code-IsUsedUp c now id code h row db db' found e = elim (Bool-cases row.enabled) [
  | inr off ↦
      let no : verify_login_code c now id code db ≡ refused MfaError.mfa_not_enabled =
        ground arith in
      absurd (cc (no, e))
  | inl on ↦
      let go : verify_login_code c now id code db ≡ verify_enabled c now id code row db =
        ground arith in
      verify_enabled-IsUsedUp c now id code h row db db' found (sym go ∙ e)
]
