-- ===== src/Preview.antt =====
-- internal/services/operationpreview/service.go: previews of operations, each of which is executed
-- once at most. A user's id and a time, in nanoseconds, are numbers; an id that is not positive is 0.
pub mod Once
pub mod RoundTrip
mod Examples
use oneinstack_panel.Common.{
  ℕ, suc, ◌+◌, ◌*◌, Bool, true, false, not, ◌&&◌, ◌||◌, Option, none, some, List, [], ◌∷◌, ◌++◌,
  any, find?, ltb, ◌==◌, if◌then◌else◌,
}
use oneinstack_panel.Text.{Text, codes, text_eq, is_empty, trim_space}

pub record OperationPreview : Type 0 where
  pub id : Text
  pub operation : Text
  pub user_id : ℕ
  pub request_hash : Text
  pub resource_version : Text
  pub encrypted_payload : Text
  pub preview_json : Text
  pub expires_at : ℕ
  pub consumed_at : Option ℕ
  pub created_at : ℕ

-- `Document`: the body has the fields that the service only passes on.
pub record Document (B : Type 0) : Type 0 where
  pub preview_id : Text
  pub operation : Text
  pub expires_at : ℕ
  pub body : B

-- What the service takes from `encoding/json`, `crypto/sha256` and the cipher of utils. A payload
-- that is not a JSON object has no normal form.
pub record Codec (B : Type 0) : Type 0 where
  pub normalize_json : Text → Option Text
  pub digest_hex : Text → Text
  pub cipher_ready : Bool
  pub encrypt : Text → Option Text
  pub decrypt : Text → Option Text
  pub encode_document : Document B → Option Text
  pub decode_document : Text → Option (Document B)

pub data PreviewError : Type 0 where
  not_found expired consumed invalid_request invalid_payload cipher_failed storage_failed :
      PreviewError

pub data Answer (A : Type 0) : Type 0 where
  refused : PreviewError → Answer A
  done : A → List OperationPreview → Answer A

-- `defaultTTL`: 5 minutes.
abbrev pub default_ttl : ℕ
default_ttl = 5 * 60 * 1000000000

abbrev pub has_id : Text → List OperationPreview → Bool
has_id id rows = any (λ r. text_eq r.id id) rows

-- `s.db.Create(row)`: the identifier is the primary key.
unfoldable pub insert : OperationPreview → List OperationPreview → Option (List OperationPreview)
insert r rows = if has_id r.id rows then none else some (rows ++ r ∷ [])

-- `Where("id = ? AND user_id = ?", id, user).First`
abbrev pub find_preview : Text → ℕ → List OperationPreview → Option OperationPreview
find_preview id user rows = find? (λ r. text_eq r.id id && r.user_id == user) rows

abbrev pub is_open : OperationPreview → Bool
is_open r = elim r.consumed_at [ none ↦ true | some at ↦ false ]

-- `Where("id = ? AND consumed_at IS NULL", id).Updates(…)`, and its `RowsAffected`.
unfoldable pub mark_consumed : ℕ → Text → List OperationPreview → List OperationPreview
mark_consumed now id [] = []
mark_consumed now id (r ∷ rows) =
    (if text_eq r.id id && is_open r then record r { consumed_at = some now } else r)
    ∷ mark_consumed now id rows

unfoldable pub open_count : Text → List OperationPreview → ℕ
open_count id [] = 0
open_count id (r ∷ rows) =
    let rest = open_count id rows in if text_eq r.id id && is_open r then suc rest else rest

module _ {B : Type 0} (c : Codec B) where
  -- `NormalizePayload`
  unfoldable pub normalize_payload : Text → Option (Text × Text)
  normalize_payload payload =
      elim (c.normalize_json (if is_empty payload then codes "{}" else payload)) [
        | none ↦ none
        | some normalized ↦ some (normalized, c.digest_hex normalized)
      ]

  -- The row of `Create`, from what it has computed.
  abbrev pub row_of : Text → ℕ → ℕ → Text → Text → Text → Text → Text → OperationPreview
  row_of id now user operation version digest encrypted json = record {
    id = id;
    operation = operation;
    user_id = user;
    request_hash = digest;
    resource_version = trim_space version;
    encrypted_payload = encrypted;
    preview_json = json;
    expires_at = now + default_ttl;
    consumed_at = none;
    created_at = now;
  }

  abbrev pub named : Text → ℕ → Text → Document B → Document B
  named id now operation d = record d {
    preview_id = id;
    operation = operation;
    expires_at = now + default_ttl;
  }

  -- `Create`, with the identifier that was drawn.
  unfoldable pub create :
      Text → ℕ → Text → ℕ → Text → Document B → Text → List OperationPreview → Answer (Document B)
  unfolding normalize_payload insert
  create id now given user payload d version rows =
      let operation = trim_space given in
      if is_empty operation || user == 0
      then refused PreviewError.invalid_request
      else elim (normalize_payload payload) [
        | none ↦ refused PreviewError.invalid_payload
        | some (normalized, digest) ↦
            if not c.cipher_ready
            then refused PreviewError.cipher_failed
            else elim (c.encrypt normalized) [
              | none ↦ refused PreviewError.cipher_failed
              | some encrypted ↦ elim (c.encode_document (named id now operation d)) [
                | none ↦ refused PreviewError.invalid_payload
                | some json ↦
                    elim (insert (row_of id now user operation version digest encrypted json)
                      rows) [
                        | none ↦ refused PreviewError.storage_failed
                        | some rows' ↦ done (named id now operation d) rows'
                      ]
              ]
            ]
      ]

  -- The conditional update of `Consume`, and its test.
  unfoldable pub claim : ℕ → Text → List OperationPreview → Option (List OperationPreview)
  unfolding mark_consumed open_count
  claim now id rows = if open_count id rows == 1 then some (mark_consumed now id rows) else none

  -- `Consume`: the operation, the payload, the document and the version of the resource.
  unfoldable pub consume :
      ℕ → Text → ℕ → List OperationPreview → Answer (Text × Text × Document B × Text)
  unfolding claim
  consume now id user rows = elim (find_preview (trim_space id) user rows) [
    | none ↦ refused PreviewError.not_found
    | some r ↦
        if not (is_open r)
        then refused PreviewError.consumed
        else if not (ltb now r.expires_at)
        then refused PreviewError.expired
        else elim (c.decode_document r.preview_json) [
          | none ↦ refused PreviewError.invalid_payload
          | some d ↦ elim (c.decrypt r.encrypted_payload) [
            | none ↦ refused PreviewError.cipher_failed
            | some payload ↦ elim (claim now r.id rows) [
              | none ↦ refused PreviewError.consumed
              | some rows' ↦ done (r.operation, payload, d, r.resource_version) rows'
            ]
          ]
        ]
  ]
