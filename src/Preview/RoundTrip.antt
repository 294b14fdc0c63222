-- ===== src/Preview/RoundTrip.antt =====
-- A preview that is created is consumed by its user, while it lasts.
use mathlib.Core.Path.{subst}
use oneinstack_panel.Common.{
  ℕ, ◌+◌, ◌<◌, ◌≡◌, refl, sym, ap, ◌∙◌, true, false, ◌||◌, none, some, List, [], ◌∷◌, ◌++◌, arith,
  Bool-cases, Option-cases, inl, inr, ◌==◌, ltb,
}
use oneinstack_panel.Text.{Text, is_empty, trim_space}
use oneinstack_panel.Text.Laws.{text_eq_refl}
use oneinstack_panel.Preview.{
  OperationPreview, Document, Codec, done, default_ttl, has_id, insert, find_preview, is_open,
  mark_consumed, open_count, named, row_of, normalize_payload, create, claim, consume,
}

find_preview-append :
    (rows : List OperationPreview) (r : OperationPreview)
    → has_id r.id rows ≡ false
    → find_preview r.id r.user_id (rows ++ r ∷ []) ≡ some r
find_preview-append [] r h = ground (arith, text_eq_refl r.id)
find_preview-append (s ∷ rows) r h = ground (arith, find_preview-append rows r)

open_count-append_new :
    (rows : List OperationPreview) (r : OperationPreview)
    → has_id r.id rows ≡ false
    → r.consumed_at ≡ none
    → open_count r.id (rows ++ r ∷ []) ≡ 1
unfolding open_count
open_count-append_new [] r h n = ground (arith, text_eq_refl r.id)
open_count-append_new (s ∷ rows) r h n = ground (arith, open_count-append_new rows r)

-- What `Consume` answers about an open preview that it finds.
consume-open :
    {B : Type 0} (c : Codec B) (now : ℕ) (id : Text) (user : ℕ) (rows : List OperationPreview)
    (r : OperationPreview) (d : Document B) (payload : Text)
    → find_preview (trim_space id) user rows ≡ some r
    → is_open r ≡ true
    → ltb now r.expires_at ≡ true
    → c.decode_document r.preview_json ≡ some d
    → c.decrypt r.encrypted_payload ≡ some payload
    → open_count r.id rows ≡ 1
    → consume c now id user rows
      ≡ done (r.operation, payload, d, r.resource_version) (mark_consumed now r.id rows)
unfolding consume claim
consume-open c now id user rows r d payload found unused lasts read clear one = ground arith

module _ {B : Type 0} (c : Codec B) (id : Text) (now : ℕ) (given : Text) (user : ℕ) (payload : Text)
    (d : Document B) (version : Text) (rows : List OperationPreview) where
  -- What a `Create` that succeeds has found and written.
  record Created (doc : Document B) (rows' : List OperationPreview) : Type 0 where
    normalized : Text
    digest : Text
    encrypted : Text
    json : Text
    normal : normalize_payload c payload ≡ some (normalized, digest)
    sealed : c.encrypt normalized ≡ some encrypted
    encoded : c.encode_document doc ≡ some json
    document : doc ≡ named c id now (trim_space given) d
    fresh : has_id id rows ≡ false
    written :
        rows' ≡ rows ++ row_of c id now user (trim_space given) version digest encrypted json ∷ []

  create-Created :
      (doc : Document B) (rows' : List OperationPreview)
      → create c id now given user payload d version rows ≡ done doc rows'
      → Created doc rows'
  unfolding create insert
  create-Created doc rows' = elim (Bool-cases (is_empty (trim_space given) || user == 0)) [
    | inl bad ↦ rw (bad, create) (λ e. absurd (cc e))
    | inr good ↦ elim (Option-cases (normalize_payload c payload)) [
      | inl m ↦ rw (good, m, create) (λ e. absurd (cc e))
      | inr ((normalized, digest), m) ↦ elim (Bool-cases c.cipher_ready) [
        | inr unready ↦ rw (good, m, unready, create) (λ e. absurd (cc e))
        | inl ready ↦ elim (Option-cases (c.encrypt normalized)) [
          | inl s ↦ rw (good, m, ready, s, create) (λ e. absurd (cc e))
          | inr (encrypted, s) ↦
              elim (Option-cases (c.encode_document (named c id now (trim_space given) d))) [
                | inl j ↦ rw (good, m, ready, s, j, create) (λ e. absurd (cc e))
                | inr (json, j) ↦ elim (Bool-cases (has_id id rows)) [
                  | inl taken ↦
                      rw (good, m, ready, s, j, taken, create, insert) (λ e. absurd (cc e))
                  | inr free ↦
                      rw (good, m, ready, s, j, free, create, insert)
                        (λ e.
                          let same : named c id now (trim_space given) d ≡ doc = ground arith in
                          record {
                            normalized = normalized;
                            digest = digest;
                            encrypted = encrypted;
                            json = json;
                            normal = m;
                            sealed = s;
                            encoded = subst (λ x. c.encode_document x ≡ some json) same j;
                            document = sym same;
                            fresh = free;
                            written = ground arith;
                          })
                ]
              ]
        ]
      ]
    ]
  ]

  -- A preview that `Create` makes is consumed by its user before it expires: `Consume` answers the
  -- trimmed operation, the normal form of the payload, the document and the trimmed version, if the
  -- cipher and the encoding of this document are inverted by their counterparts and the identifier has
  -- no space at its ends.
  pub create-consume :
      ((x y : Text) → c.encrypt x ≡ some y → c.decrypt y ≡ some x)
      → trim_space id ≡ id
      → (doc : Document B)
      → ((y : Text) → c.encode_document doc ≡ some y → c.decode_document y ≡ some doc)
      → (rows' : List OperationPreview)
      → create c id now given user payload d version rows ≡ done doc rows'
      → (later : ℕ) → later < now + default_ttl
      → (normalized : Text) × (digest : Text) × (rows'' : List OperationPreview)
        × (normalize_payload c payload ≡ some (normalized, digest))
        × (consume c later id user rows'
            ≡ done (trim_space given, normalized, doc, trim_space version) rows'')
  create-consume unseal trimmed doc decode rows' e later soon =
      let k = create-Created doc rows' e in
      let row = row_of c id now user (trim_space given) version k.digest k.encrypted k.json in
      let found = find_preview-append rows row k.fresh in
      let here : find_preview (trim_space id) user (rows ++ row ∷ []) ≡ some row =
        rw trimmed found in
      let one = open_count-append_new rows row k.fresh refl in
      let lasts : ltb later (now + default_ttl) ≡ true = ground arith in
      let read = decode k.json k.encoded in
      let clear = unseal k.normalized k.encrypted k.sealed in
      (
        k.normalized,
        k.digest,
        mark_consumed later id (rows ++ row ∷ []),
        k.normal,
        ap (λ l. consume c later id user l) k.written
            ∙ consume-open c later id user (rows ++ row ∷ []) row doc k.normalized here refl lasts
                read clear one,
      )
