-- ===== src/KeyTrust/Trusted.antt =====
-- Which keys a refresh of internal/services/panelupdate/keytrust.go leaves trusted.
use mathlib.Core.Path.{subst}
use oneinstack_panel.Common.{
  ◌≡◌, refl, sym, ap, ◌∙◌, true, false, Option, none, some, List, [], ◌∷◌, arith, Bool-cases, inl,
  inr, if◌then◌else◌,
}
use oneinstack_panel.Text.{Text, text_eq}
use oneinstack_panel.Text.Laws.{text_eq_iff, text_eq_refl}
use oneinstack_panel.KeyTrust.{
  TrustedKeyRecord, Crypto, KeyMap, is_revoked, find_record, lookup, delete, put, apply_record,
  apply_records,
}
use oneinstack_panel.KeyTrust.Keyset.{has_text, record_error, keys_error}

-- No key id comes twice, nor is one of those seen before.
abbrev pub IsUnique : List Text → List TrustedKeyRecord → Type 0
IsUnique seen [] = Unit
IsUnique seen (r ∷ rs) = (has_text r.key_id seen ≡ false) × IsUnique (r.key_id ∷ seen) rs

pub keys_error-IsUnique :
    (c : Crypto) (seen : List Text) (rs : List TrustedKeyRecord)
    → keys_error c seen rs ≡ none
    → IsUnique seen rs
unfolding keys_error record_error
keys_error-IsUnique c seen [] e = tt
keys_error-IsUnique c seen (r ∷ rs) e =
    let fresh : has_text r.key_id seen ≡ false = ground arith in
    let rest : keys_error c (r.key_id ∷ seen) rs ≡ none = ground arith in
    (fresh, keys_error-IsUnique c (r.key_id ∷ seen) rs rest)

-- What a map says of a key id after a change.
lookup-delete_self : (id : Text) (keys : KeyMap) → lookup id (delete id keys) ≡ none
lookup-delete_self id [] = refl
lookup-delete_self id ((k, v) ∷ keys) = ground (arith, lookup-delete_self id keys)

lookup-delete_other :
    (id other : Text) (keys : KeyMap)
    → text_eq other id ≡ false
    → lookup id (delete other keys) ≡ lookup id keys
lookup-delete_other id other [] h = refl
lookup-delete_other id other ((k, v) ∷ keys) h = elim (Bool-cases (text_eq k other)) [
  | inl same ↦
      let past : text_eq k id ≡ false =
        subst (λ s. text_eq s id ≡ false) (sym ((text_eq_iff k other).0 same)) h in
      ground (arith, same, past, lookup-delete_other id other keys h)
  | inr past ↦ ground (arith, lookup-delete_other id other keys h)
]

lookup-put_self : (id key : Text) (keys : KeyMap) → lookup id (put id key keys) ≡ some key
lookup-put_self id key keys = ground (arith, text_eq_refl id)

lookup-put_other :
    (id other key : Text) (keys : KeyMap)
    → text_eq other id ≡ false
    → lookup id (put other key keys) ≡ lookup id keys
lookup-put_other id other key keys h = ground (arith, h, lookup-delete_other id other keys h)

-- What the record of a key makes of the key.
abbrev pub answer : TrustedKeyRecord → Option Text
answer r = if is_revoked r then none else some r.public_key

lookup-apply_record_self :
    (r : TrustedKeyRecord) (keys : KeyMap) → lookup r.key_id (apply_record r keys) ≡ answer r
lookup-apply_record_self r keys = elim (Bool-cases (is_revoked r)) [
  | inl gone ↦ rw gone (lookup-delete_self r.key_id keys)
  | inr stays ↦ rw stays (lookup-put_self r.key_id r.public_key keys)
]

lookup-apply_record_other :
    (id : Text) (r : TrustedKeyRecord) (keys : KeyMap)
    → text_eq r.key_id id ≡ false
    → lookup id (apply_record r keys) ≡ lookup id keys
lookup-apply_record_other id r keys other = elim (Bool-cases (is_revoked r)) [
  | inl gone ↦ rw gone (lookup-delete_other id r.key_id keys other)
  | inr stays ↦ rw stays (lookup-put_other id r.key_id r.public_key keys other)
]

-- A key id that no record has stays as it was.
pub lookup-apply_records_other :
    (id : Text) (keys : KeyMap) (rs : List TrustedKeyRecord)
    → find_record id rs ≡ none
    → lookup id (apply_records keys rs) ≡ lookup id keys
unfolding apply_records
lookup-apply_records_other id keys [] e = refl
lookup-apply_records_other id keys (r ∷ rs) e =
    let other : text_eq r.key_id id ≡ false = ground arith in
    let rest : find_record id rs ≡ none = ground arith in
    lookup-apply_records_other id (apply_record r keys) rs rest
    ∙ lookup-apply_record_other id r keys other

seen-find_record :
    (id : Text) (seen : List Text) (rs : List TrustedKeyRecord)
    → has_text id seen ≡ true
    → IsUnique seen rs
    → find_record id rs ≡ none
seen-find_record id seen [] h k = refl
seen-find_record id seen (r ∷ rs) h (fresh, k) = elim (Bool-cases (text_eq r.key_id id)) [
  | inl same ↦
      let is = (text_eq_iff r.key_id id).0 same in
      absurd (ground (arith, subst (λ s. has_text s seen ≡ false) is fresh, h))
  | inr other ↦
      let seen_before : has_text id (r.key_id ∷ seen) ≡ true = ground arith in
      ground (arith, other, seen-find_record id (r.key_id ∷ seen) rs seen_before k)
]

-- Where no key id comes twice, the record of a key decides.
pub lookup-apply_records :
    (id : Text) (keys : KeyMap) (seen : List Text) (rs : List TrustedKeyRecord)
    (r : TrustedKeyRecord)
    → find_record id rs ≡ some r
    → IsUnique seen rs
    → lookup id (apply_records keys rs) ≡ answer r
unfolding apply_records
lookup-apply_records id keys seen [] r e k = absurd (cc e)
lookup-apply_records id keys seen (u ∷ rs) r e (fresh, k) =
    elim (Bool-cases (text_eq u.key_id id)) [
      | inl same ↦
          let is = (text_eq_iff u.key_id id).0 same in
          let one : u ≡ r = ground arith in
          let again : has_text id (u.key_id ∷ seen) ≡ true = ground (arith, same) in
          lookup-apply_records_other id (apply_record u keys) rs
            (seen-find_record id (u.key_id ∷ seen) rs again k)
          ∙ subst (λ s. lookup s (apply_record u keys) ≡ answer u) is
              (lookup-apply_record_self u keys)
          ∙ ap answer one
      | inr other ↦
          let rest : find_record id rs ≡ some r = ground arith in
          lookup-apply_records id (apply_record u keys) (u.key_id ∷ seen) rs r rest k
    ]
