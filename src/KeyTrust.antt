-- ===== src/KeyTrust.antt =====
-- internal/services/panelupdate/keytrust.go: the keys that the panel trusts to sign its updates. Times are in
-- nanoseconds; the zero time and a nil time are `none`.
pub mod Keyset
pub mod Refresh
pub mod Trusted
pub mod Signed
pub mod Forward
pub mod History
mod Examples
use oneinstack_panel.Common.{
  ℕ, Bool, true, false, not, Option, none, some, List, [], ◌∷◌, any, find?, select, if◌then◌else◌,
}
use oneinstack_panel.Text.{Text, codes, text_eq, trim_space, is_empty}

pub record TrustedKeyRecord : Type 0 where
  pub key_id : Text
  pub algorithm : Text
  pub public_key : Text
  pub status : Text
  pub created_at : Option ℕ
  pub activated_at : Option ℕ
  pub retired_at : Option ℕ
  pub revoked_at : Option ℕ
  pub revocation_reason : Text

pub record KeysetSignature : Type 0 where
  pub key_id : Text
  pub value : Text

pub record KeysetDocument : Type 0 where
  pub schema_version : ℕ
  pub revision : ℕ
  pub generated_at : Option ℕ
  pub active_key_id : Text
  pub keys : List TrustedKeyRecord
  pub signatures : List KeysetSignature

pub record TrustState : Type 0 where
  pub schema_version : ℕ
  pub revision : ℕ
  pub generated_at : Option ℕ
  pub active_key_id : Text
  pub keys : List TrustedKeyRecord
  pub digest : Text
  pub updated_at : ℕ

-- Base64 and its decoder's length, the hash, the encoding of the signed part, and Ed25519 are given.
pub record Crypto : Type 0 where
  pub decode_base64 : Text → Option (List ℕ)
  pub key_id_of : List ℕ → Text
  pub keyset_payload : KeysetDocument → List ℕ
  pub digest_of : List ℕ → Text
  pub verify : List ℕ → List ℕ → List ℕ → Bool

abbrev pub is_revoked : TrustedKeyRecord → Bool
is_revoked r = text_eq r.status (codes "revoked")

abbrev pub is_active : TrustedKeyRecord → Bool
is_active r = text_eq r.status (codes "active")

abbrev pub is_staged : TrustedKeyRecord → Bool
is_staged r = text_eq r.status (codes "staged")

abbrev pub is_retired : TrustedKeyRecord → Bool
is_retired r = text_eq r.status (codes "retired")

abbrev pub find_record : Text → List TrustedKeyRecord → Option TrustedKeyRecord
find_record id records = find? (λ r. text_eq r.key_id id) records

-- A map from key ids to encoded keys.
abbrev pub KeyMap : Type 0
KeyMap = List (Text × Text)

abbrev pub key_of : Option (Text × Text) → Option Text
key_of none = none
key_of (some p) = some p.1

abbrev pub lookup : Text → KeyMap → Option Text
lookup id keys = key_of (find? (λ p. text_eq p.0 id) keys)

abbrev pub delete : Text → KeyMap → KeyMap
delete id keys = select (λ p. not (text_eq p.0 id)) keys

abbrev pub put : Text → Text → KeyMap → KeyMap
put id key keys = (id, key) ∷ delete id keys

-- `cloneTrustedKeys`: where two ids are the same without their spaces, the order of Go's map decides,
-- which is the order of the list here.
unfoldable pub clone_trusted_keys : KeyMap → KeyMap
unfolding trim_space
clone_trusted_keys [] = []
clone_trusted_keys ((id, key) ∷ rest) =
    put (trim_space id) (trim_space key) (clone_trusted_keys rest)

-- A turn of the loop of `effectiveTrustedKeys`.
abbrev pub apply_record : TrustedKeyRecord → KeyMap → KeyMap
apply_record r keys = if is_revoked r then delete r.key_id keys else put r.key_id r.public_key keys

unfoldable pub apply_records : KeyMap → List TrustedKeyRecord → KeyMap
apply_records keys [] = keys
apply_records keys (r ∷ rs) = apply_records (apply_record r keys) rs

-- `effectiveTrustedKeys`
unfoldable pub effective_trusted_keys : KeyMap → List TrustedKeyRecord → KeyMap
unfolding clone_trusted_keys apply_records
effective_trusted_keys static records = apply_records (clone_trusted_keys static) records
