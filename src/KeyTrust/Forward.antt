-- ===== src/KeyTrust/Forward.antt =====
-- What a refresh of internal/services/panelupdate/keytrust.go has checked, and how the stored state goes on.
use mathlib.Core.Path.{subst}
use oneinstack_panel.Common.{
  ℕ, ◌≡◌, ◌<◌, ◌⊎◌, refl, Bool, true, false, Option, none, some, List, [], ◌∷◌, arith, Bool-cases,
  Option-cases, inl, inr, ltb,
}
use oneinstack_panel.Text.{Text, text_eq}
use oneinstack_panel.Text.Laws.{text_eq_iff}
use oneinstack_panel.KeyTrust.{
  TrustedKeyRecord, KeysetDocument, TrustState, Crypto, KeyMap, find_record, lookup,
  clone_trusted_keys, effective_trusted_keys,
}
use oneinstack_panel.KeyTrust.Keyset.{
  KeysetError, keys_error, signatures_error, or_else, document_error, active_error, validate_keyset,
  verify_keyset,
}
use oneinstack_panel.KeyTrust.Refresh.{
  Refreshed, refused, refreshed, keeps_keys, state_error, next_state, trusted, save, accept, stored,
  file_after,
}
use oneinstack_panel.KeyTrust.Signed.{IsSigned, verify_keyset-IsSigned}
use oneinstack_panel.KeyTrust.Trusted.{
  IsUnique, keys_error-IsUnique, answer, lookup-apply_records, lookup-apply_records_other,
}

-- The state that is written has a higher revision than the one that was loaded, and each key id of it.
abbrev pub IsAfter : Option TrustState → TrustState → Type 0
IsAfter none t = Unit
IsAfter (some s) t =
    (s.revision < t.revision)
    × ((id : Text) (r : TrustedKeyRecord)
        → find_record id s.keys ≡ some r
        → (u : TrustedKeyRecord) × (find_record id t.keys ≡ some u))

-- The file stays, or it gets a state that comes after the one that was loaded.
abbrev pub IsNext : Option TrustState → Option TrustState → Option TrustState → Type 0
IsNext s file file' = (file' ≡ file) ⊎ (t : TrustState) × (file' ≡ some t) × IsAfter s t

-- The stored state stays, or it gets a higher revision, and it keeps every key id.
abbrev pub IsForward : TrustState → Option TrustState → Type 0
IsForward s s' = IsNext (some s) (some s) s'

keeps_keys-find_record :
    (old new : List TrustedKeyRecord) (id : Text) (r : TrustedKeyRecord)
    → keeps_keys old new ≡ true
    → find_record id old ≡ some r
    → (u : TrustedKeyRecord) × (find_record id new ≡ some u)
unfolding keeps_keys
keeps_keys-find_record [] new id r k e = absurd (cc e)
keeps_keys-find_record (q ∷ old) new id r k e = elim (Option-cases (find_record q.key_id new)) [
  | inl missing ↦ absurd (ground (arith, k, missing))
  | inr (u, here) ↦ elim (Bool-cases (text_eq q.key_id id)) [
    | inl same ↦
        (u, subst (λ s. find_record s new ≡ some u) ((text_eq_iff q.key_id id).0 same) here)
    | inr other ↦
        keeps_keys-find_record old new id r (ground (arith, k, here)) (ground (arith, e, other))
  ]
]

-- The keys of the stored state.
abbrev pub stored_keys : Option TrustState → List TrustedKeyRecord
stored_keys none = []
stored_keys (some s) = s.keys

or_else-none : (o p : Option KeysetError) → or_else o p ≡ none → (o ≡ none) × (p ≡ none)
or_else-none none p e = (refl, e)
or_else-none (some x) p e = absurd (cc e)

validate_keyset-IsUnique :
    (c : Crypto) (now : ℕ) (d : KeysetDocument)
    → validate_keyset c now d ≡ none
    → IsUnique [] d.keys
unfolding validate_keyset
validate_keyset-IsUnique c now d e =
    let (meta, rest) =
      or_else-none (document_error now d)
        (or_else (keys_error c [] d.keys)
          (or_else (active_error d) (signatures_error c d.keys [] d.signatures)))
        e in
    let (keys, more) =
      or_else-none (keys_error c [] d.keys)
        (or_else (active_error d) (signatures_error c d.keys [] d.signatures)) rest in
    keys_error-IsUnique c [] d.keys keys

-- What an accepted keyset has passed, and the keys that are trusted after it.
pub record IsAccepted (c : Crypto) (now : ℕ) (static : KeyMap) (d : KeysetDocument)
    (s : Option TrustState) (keys : KeyMap) (file file' : Option TrustState) : Type 0 where
  pub valid : validate_keyset c now d ≡ none
  pub signed : IsSigned c d (effective_trusted_keys static (stored_keys s))
  pub answered :
      (id : Text) (r : TrustedKeyRecord)
      → find_record id d.keys ≡ some r
      → lookup id keys ≡ answer r
  pub others :
      (id : Text)
      → find_record id d.keys ≡ none
      → lookup id keys ≡ lookup id (clone_trusted_keys static)
  pub forward : IsNext s file file'

state_error-IsAfter :
    (now : ℕ) (digest : Text) (d : KeysetDocument) (s : TrustState)
    → state_error digest d s ≡ none
    → ltb s.revision d.revision ≡ true
    → IsAfter (some s) (next_state now digest d)
unfolding state_error
state_error-IsAfter now digest d s e higher =
    let kept : keeps_keys s.keys d.keys ≡ true = ground arith in
    (ground (arith, higher), λ id r here. keeps_keys-find_record s.keys d.keys id r kept here)

-- What the answer to a keyset stands for: a refusal writes nothing.
abbrev pub IsAnswer :
    Crypto
    → ℕ
    → KeyMap
    → KeysetDocument
    → Option TrustState
    → Option TrustState
    → Refreshed
    → Type 0
IsAnswer c now static d s file (refused e) = stored file (refused e) ≡ file
IsAnswer c now static d s file (refreshed keys result write) =
    IsAccepted c now static d s keys file (file_after file write)

module _ (c : Crypto) (now : ℕ) (static : KeyMap) (d : KeysetDocument) (s file : Option TrustState)
    (valid : validate_keyset c now d ≡ none)
    (signed : verify_keyset c (effective_trusted_keys static (stored_keys s)) d ≡ true) where
  trusted-IsAnswer :
      (write : Option TrustState)
      → IsNext s file (file_after file write)
      → IsAnswer c now static d s file (trusted static d write)
  unfolding trusted effective_trusted_keys
  trusted-IsAnswer write forward = record {
    valid = valid;
    signed = verify_keyset-IsSigned c (effective_trusted_keys static (stored_keys s)) d signed;
    answered = λ id r here.
        lookup-apply_records id (clone_trusted_keys static) [] d.keys r here
          (validate_keyset-IsUnique c now d valid);
    others = λ id absent. lookup-apply_records_other id (clone_trusted_keys static) d.keys absent;
    forward = forward;
  }

  save-IsAnswer :
      (saves : Bool) (new : TrustState)
      → IsAfter s new
      → IsAnswer c now static d s file (save saves static d new)
  unfolding save
  save-IsAnswer true new forward = trusted-IsAnswer (some new) (inr (new, refl, forward))
  save-IsAnswer false new forward = refl

module _ (c : Crypto) (now : ℕ) (saves : Bool) (static : KeyMap) (d : KeysetDocument) where
  pub accept-IsAnswer :
      (s file : Option TrustState) → IsAnswer c now static d s file (accept c now saves static d s)
  unfolding accept
  accept-IsAnswer none file = elim (Option-cases (validate_keyset c now d)) [
    | inr (x, invalid) ↦ rw (invalid, accept) refl
    | inl valid ↦ elim (Bool-cases (verify_keyset c (effective_trusted_keys static []) d)) [
      | inr unsigned ↦ rw (valid, unsigned, accept) refl
      | inl signed ↦
          rw (valid, signed, accept)
            (save-IsAnswer c now static d none file valid signed saves
              (next_state now (c.digest_of (c.keyset_payload d)) d) tt)
    ]
  ]
  accept-IsAnswer (some s) file = elim (Option-cases (validate_keyset c now d)) [
    | inr (x, invalid) ↦ rw (invalid, accept) refl
    | inl valid ↦ elim (Bool-cases (verify_keyset c (effective_trusted_keys static s.keys) d)) [
      | inr unsigned ↦ rw (valid, unsigned, accept) refl
      | inl signed ↦ elim (Option-cases (state_error (c.digest_of (c.keyset_payload d)) d s)) [
        | inr (x, wrong) ↦ rw (valid, signed, wrong, accept) refl
        | inl right ↦ elim (Bool-cases (ltb s.revision d.revision)) [
          | inl higher ↦
              rw (valid, signed, right, higher, accept)
                (save-IsAnswer c now static d (some s) file valid signed saves
                  (next_state now (c.digest_of (c.keyset_payload d)) d)
                  (state_error-IsAfter now (c.digest_of (c.keyset_payload d)) d s right higher))
          | inr equal ↦
              rw (valid, signed, right, equal, accept)
                (trusted-IsAnswer c now static d (some s) file valid signed none (inl refl))
        ]
      ]
    ]
  ]
