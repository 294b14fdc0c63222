-- ===== src/KeyTrust/Keyset.antt =====
-- internal/services/panelupdate/keytrust.go: the checks of a keyset, `validateKeyset` and `verifyKeyset`.
use oneinstack_panel.Common.{
  ℕ, ◌+◌, ◌*◌, Bool, true, false, not, ◌&&◌, ◌||◌, Option, none, some, List, [], ◌∷◌, any, select,
  ltb, leb, ◌==◌, length, if◌then◌else◌,
}
use oneinstack_panel.Text.{Text, codes, text_eq, trim_space, is_empty}
use oneinstack_panel.KeyTrust.{
  TrustedKeyRecord, KeysetSignature, KeysetDocument, Crypto, KeyMap, is_revoked, is_active,
  is_staged, is_retired, find_record, lookup,
}

pub data KeysetError : Type 0 where
  missing_state_path download_failed unsupported_metadata invalid_generated_at wrong_key_count
        wrong_signature_count :
      KeysetError
  invalid_key incomplete_key wrong_identifier duplicate_key incomplete_status invalid_status :
      KeysetError
  invalid_active_key unusable_signature duplicate_signature invalid_signature untrusted_keyset :
      KeysetError
  rolled_back changed_without_revision removed_key invalid_stored_state save_failed : KeysetError

abbrev is_some {ℓ} : {A : Type ℓ} → Option A → Bool
is_some none = false
is_some (some a) = true

abbrev pub decoded_of_size : ℕ → Option (List ℕ) → Option (List ℕ)
decoded_of_size n none = none
decoded_of_size n (some bytes) = if length bytes == n then some bytes else none

-- `decodeTrustedKey`
unfoldable pub decode_trusted_key : Crypto → Text → Text → Option (List ℕ)
unfolding trim_space
decode_trusted_key c key_id encoded =
    if is_empty (trim_space key_id)
    then none
    else decoded_of_size 32 (c.decode_base64 (trim_space encoded))

-- The switch on a record's status.
unfoldable pub status_error : TrustedKeyRecord → Option KeysetError
unfolding trim_space
status_error r =
    if is_staged r
    then none
    else if is_active r
    then (if is_some r.activated_at then none else some incomplete_status)
    else if is_retired r
    then (if is_some r.activated_at && is_some r.retired_at then none else some incomplete_status)
    else if is_revoked r
    then (if not (is_some r.revoked_at) || is_empty (trim_space r.revocation_reason)
        then some incomplete_status
        else none)
    else some invalid_status

abbrev pub has_text : Text → List Text → Bool
has_text s seen = any (λ t. text_eq t s) seen

-- One turn of the loop over the keys.
unfoldable pub record_error : Crypto → List Text → TrustedKeyRecord → Option KeysetError
unfolding decode_trusted_key status_error
record_error c seen r = elim (decode_trusted_key c r.key_id r.public_key) [
  | none ↦ some invalid_key
  | some key ↦
      if not (text_eq r.algorithm (codes "Ed25519")) || not (is_some r.created_at)
      then some incomplete_key
      else if not (text_eq r.key_id (c.key_id_of key))
      then some wrong_identifier
      else if has_text r.key_id seen
      then some duplicate_key
      else status_error r
]

unfoldable pub keys_error : Crypto → List Text → List TrustedKeyRecord → Option KeysetError
unfolding record_error
keys_error c seen [] = none
keys_error c seen (r ∷ rs) =
    let rest = keys_error c (r.key_id ∷ seen) rs in
    elim (record_error c seen r) [ some e ↦ some e | none ↦ rest ]

abbrev pub active_count : List TrustedKeyRecord → ℕ
active_count records = length (select is_active records)

abbrev pub is_active_record : Option TrustedKeyRecord → Bool
is_active_record none = false
is_active_record (some r) = is_active r

abbrev pub is_usable : Option TrustedKeyRecord → Bool
is_usable none = false
is_usable (some r) = not (is_revoked r)

-- The loop over the signatures.
unfoldable pub signatures_error :
    Crypto → List TrustedKeyRecord → List Text → List KeysetSignature → Option KeysetError
unfolding trim_space
signatures_error c records seen [] = none
signatures_error c records seen (s ∷ ss) =
    let rest = signatures_error c records (s.key_id ∷ seen) ss in
    if not (is_usable (find_record s.key_id records))
    then some unusable_signature
    else if has_text s.key_id seen
    then some duplicate_signature
    else if not (is_some (decoded_of_size 64 (c.decode_base64 (trim_space s.value))))
    then some invalid_signature
    else rest

abbrev pub or_else : Option KeysetError → Option KeysetError → Option KeysetError
or_else (some e) next = some e
or_else none next = next

abbrev is_late : ℕ → Option ℕ → Bool
is_late now none = true
is_late now (some at) = ltb (now + 24 * 3600 * 1000000000) at

abbrev is_count : ℕ → Bool
is_count n = leb 1 n && leb n 32

-- The checks of the document's own fields.
abbrev pub document_error : ℕ → KeysetDocument → Option KeysetError
document_error now d =
    if not (d.schema_version == 1) || ltb d.revision 1
    then some unsupported_metadata
    else if is_late now d.generated_at
    then some invalid_generated_at
    else if not (is_count (length d.keys))
    then some wrong_key_count
    else if not (is_count (length d.signatures))
    then some wrong_signature_count
    else none

abbrev pub active_error : KeysetDocument → Option KeysetError
active_error d =
    if not (is_active_record (find_record d.active_key_id d.keys)) || not (active_count d.keys == 1)
    then some invalid_active_key
    else none

-- `validateKeyset`: its error, if it has one.
unfoldable pub validate_keyset : Crypto → ℕ → KeysetDocument → Option KeysetError
unfolding keys_error signatures_error
validate_keyset c now d = or_else (document_error now d) (
    or_else (keys_error c [] d.keys)
      (or_else (active_error d) (signatures_error c d.keys [] d.signatures)))

abbrev pub verified_by : Crypto → List ℕ → Option (List ℕ) → Option (List ℕ) → Bool
verified_by c payload (some key) (some value) = c.verify key payload value
verified_by c payload key value = false

-- Whether a signature is one of a key that is trusted.
abbrev pub is_signed_by : Crypto → List ℕ → KeyMap → KeysetSignature → Bool
is_signed_by c payload trusted s = elim (lookup s.key_id trusted) [
  | none ↦ false
  | some encoded ↦
      verified_by c payload (decode_trusted_key c s.key_id encoded)
        (c.decode_base64 (trim_space s.value))
]

-- `verifyKeyset`
unfoldable pub verify_keyset : Crypto → KeyMap → KeysetDocument → Bool
unfolding decode_trusted_key trim_space
verify_keyset c trusted d = any (is_signed_by c (c.keyset_payload d) trusted) d.signatures
