-- ===== src/Mfa/Overlap/Off.antt =====
-- internal/services/security/totp.go: the row of a user whose second factor is off.
use mathlib.Core.Path.{subst}
use oneinstack_panel.Common.{
  ℕ, ◌≡◌, ◌≢◌, refl, sym, ap, ◌∙◌, true, false, Option, none, some, List, [], ◌∷◌, arith,
  Bool-cases, Option-cases, inl, inr, ◌==◌, ==_iff, if◌then◌else◌,
}
use oneinstack_panel.Common.Int.{ℤ, pos}
use oneinstack_panel.Text.{Text}
use oneinstack_panel.Mfa.{UserMfa, MfaDb, Crypto}
use oneinstack_panel.Mfa.Totp.{credential_purpose}
use oneinstack_panel.Mfa.Manager.{
  find_mfa, update_mfa, save_mfa, totp_pending, after, Draft, rejected, drafted, read_setup,
  save_setup,
}
use oneinstack_panel.Mfa.Counter.{
  find_mfa-update_mfa, find_mfa-save_mfa_self, find_mfa-save_mfa_other, Writes, nothing, saved,
}

-- The row is absent, with the counter that a new row has, or it is off and has the counter `n`.
abbrev pub IsOff : ℤ → Option UserMfa → Type 0
IsOff n none = n ≡ pos 0
IsOff n (some r) = (r.enabled ≡ false) × (r.last_totp_counter ≡ n)

pub IsOff-one : (n m : ℤ) (o : Option UserMfa) → IsOff n o → IsOff m o → n ≡ m
IsOff-one n m none e f = e ∙ sym f
IsOff-one n m (some r) (off, e) (off', f) = sym e ∙ f

-- What a `Setup` is going to save, against the row of its user.
abbrev pub IsDraft : ℕ → Option UserMfa → Draft → Type 0
IsDraft own o (rejected e) = Unit
IsDraft own o (drafted row) =
    (row.user_id ≡ own) × (row.enabled ≡ false) × IsOff row.last_totp_counter o

pub read_setup-IsDraft :
    (c : Crypto) (own : ℕ) (secret : Text) (db : MfaDb)
    → IsDraft own (find_mfa own db.mfa) (read_setup c own secret db)
unfolding read_setup
read_setup-IsDraft c own secret db = elim (Option-cases (find_mfa own db.mfa)) [
  | inl new ↦
      elim (Option-cases (c.encrypt_credential secret (credential_purpose totp_pending own))) [
        | inl w ↦ rw (new, w, read_setup) tt
        | inr (encrypted, w) ↦ rw (new, w, read_setup) (refl, refl, ground (arith, new))
      ]
  | inr (row, found) ↦ elim (Bool-cases row.enabled) [
    | inl h ↦ rw (found, h, read_setup) tt
    | inr h ↦
        elim (Option-cases (c.encrypt_credential secret (credential_purpose totp_pending own))) [
          | inl w ↦ rw (found, h, w, read_setup) tt
          | inr (encrypted, w) ↦
              rw (found, h, w, read_setup) (refl, refl, (ground (arith, h), ground (arith, found)))
        ]
  ]
]

-- The row of a user after the save of a draft, of the same user or of another.
pub save_setup-IsOff :
    (own user : ℕ) (n : ℤ) (secret : Text) (o : Draft) (db : MfaDb)
    → IsDraft user (find_mfa user db.mfa) o
    → IsOff n (find_mfa own db.mfa)
    → IsOff n (find_mfa own (after db (save_setup secret o db)).mfa)
unfolding save_setup
save_setup-IsOff own user n secret (rejected e) db d k = k
save_setup-IsOff own user n secret (drafted row) db (same, off, l) k =
    elim (Bool-cases (own == user)) [
      | inl is ↦
          let one : own ≡ row.user_id = (==_iff own user).0 is ∙ sym same in
          let l' : IsOff row.last_totp_counter (find_mfa own db.mfa) =
            subst (λ i. IsOff row.last_totp_counter (find_mfa i db.mfa))
              (sym ((==_iff own user).0 is)) l in
          subst (λ i. IsOff n (find_mfa i (save_mfa row db.mfa))) (sym one)
            (subst (IsOff n) (sym (find_mfa-save_mfa_self row db.mfa))
              (off, IsOff-one row.last_totp_counter n (find_mfa own db.mfa) l' k))
      | inr other ↦
          subst (IsOff n)
            (sym (find_mfa-save_mfa_other own row db.mfa (ground (arith, same, other)))) k
    ]

pub save_setup-Writes :
    (user : ℕ) (secret : Text) (o : Draft) (db : MfaDb)
    → IsDraft user (find_mfa user db.mfa) o
    → Writes user db (after db (save_setup secret o db))
unfolding save_setup
save_setup-Writes user secret (rejected e) db d = nothing
save_setup-Writes user secret (drafted row) db (same, off, l) =
    saved row same (λ r e. sym (subst (IsOff row.last_totp_counter) e l).1)

-- Another user's row.
pub Writes-other :
    (own user : ℕ) (db db' : MfaDb)
    → own ≢ user
    → Writes user db db'
    → find_mfa own db'.mfa ≡ find_mfa own db.mfa
Writes-other own user db _ h nothing = refl
Writes-other own user db _ h (saved new same last) =
    find_mfa-save_mfa_other own new db.mfa (λ e. h (e ∙ same))

pub find_mfa-update_mfa-none :
    (user : ℕ) (change : UserMfa → UserMfa) (same : (s : UserMfa) → (change s).user_id ≡ s.user_id)
    (own : ℕ) (rows : List UserMfa)
    → find_mfa own rows ≡ none
    → find_mfa own (update_mfa user change rows) ≡ none
unfolding update_mfa
find_mfa-update_mfa-none user change same own [] e = refl
find_mfa-update_mfa-none user change same own (s ∷ rows) e =
    ground (arith, same s, find_mfa-update_mfa-none user change same own rows)

-- An update of a user's rows leaves another user's row, or switches it off.
pub update_mfa-IsOff :
    (user : ℕ) (change : UserMfa → UserMfa) (same : (s : UserMfa) → (change s).user_id ≡ s.user_id)
    (own : ℕ) (n : ℤ) (rows : List UserMfa)
    → ((r : UserMfa)
        → find_mfa own rows ≡ some r
        → (r.user_id == user) ≡ true
        → IsOff n (some r)
        → IsOff n (some (change r)))
    → IsOff n (find_mfa own rows)
    → IsOff n (find_mfa own (update_mfa user change rows))
update_mfa-IsOff user change same own n rows f k = elim (Option-cases (find_mfa own rows)) [
  | inl gone ↦
      subst (IsOff n) (sym (find_mfa-update_mfa-none user change same own rows gone))
        (subst (IsOff n) gone k)
  | inr (r, found) ↦
      let off = subst (IsOff n) found k in
      let next = find_mfa-update_mfa user change same own rows r found in
      elim (Bool-cases (r.user_id == user)) [
        | inl mine ↦
            subst (IsOff n) (sym (next ∙ ap (λ b. some (if b then change r else r)) mine))
              (f r found mine off)
        | inr other ↦
            subst (IsOff n) (sym (next ∙ ap (λ b. some (if b then change r else r)) other)) off
      ]
]
