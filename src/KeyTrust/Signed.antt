-- ===== src/KeyTrust/Signed.antt =====
-- The signature that a keyset of internal/services/panelupdate/keytrust.go is accepted for.
use oneinstack_panel.Common.{
  ℕ, ◌≡◌, Bool, true, some, List, [], ◌∷◌, any, find?, arith, Bool-cases, Option-cases, inl, inr,
}
use oneinstack_panel.Text.{Text, trim_space}
use oneinstack_panel.KeyTrust.{KeysetSignature, KeysetDocument, Crypto, KeyMap, lookup}
use oneinstack_panel.KeyTrust.Keyset.{verify_keyset, is_signed_by, decode_trusted_key}

-- A signature of the keyset's payload by a key that was trusted.
pub record IsSigned (c : Crypto) (d : KeysetDocument) (keys : KeyMap) : Type 0 where
  pub signature : KeysetSignature
  pub encoded : Text
  pub key : List ℕ
  pub value : List ℕ
  pub listed : find? (is_signed_by c (c.keyset_payload d) keys) d.signatures ≡ some signature
  pub known : lookup signature.key_id keys ≡ some encoded
  pub decoded : decode_trusted_key c signature.key_id encoded ≡ some key
  pub given : c.decode_base64 (trim_space signature.value) ≡ some value
  pub verified : c.verify key (c.keyset_payload d) value ≡ true

any-find? :
    {A : Type 0} (test : A → Bool) (xs : List A)
    → any test xs ≡ true
    → (x : A) × (find? test xs ≡ some x) × (test x ≡ true)
any-find? test [] e = absurd (cc e)
any-find? test (x ∷ xs) e = elim (Bool-cases (test x)) [
  | inl here ↦ (x, ground (arith, here), here)
  | inr past ↦
      let (y, found, ok) = any-find? test xs (ground (arith, e, past)) in
      (y, ground (arith, past, found), ok)
]

-- What a signature that verifies is made of.
is_signed_by-parts :
    (c : Crypto) (payload : List ℕ) (keys : KeyMap) (g : KeysetSignature)
    → is_signed_by c payload keys g ≡ true
    → (encoded : Text) × (key value : List ℕ) × (lookup g.key_id keys ≡ some encoded)
      × (decode_trusted_key c g.key_id encoded ≡ some key)
      × (c.decode_base64 (trim_space g.value) ≡ some value)
      × (c.verify key payload value ≡ true)
is_signed_by-parts c payload keys g ok = elim (Option-cases (lookup g.key_id keys)) [
  | inl unknown ↦ absurd (ground (arith, ok, unknown))
  | inr (encoded, known) ↦ elim (Option-cases (decode_trusted_key c g.key_id encoded)) [
    | inl bad ↦ absurd (ground (arith, ok, known, bad))
    | inr (key, decoded) ↦ elim (Option-cases (c.decode_base64 (trim_space g.value))) [
      | inl bad ↦ absurd (ground (arith, ok, known, decoded, bad))
      | inr (value, given) ↦
          (encoded, key, value, known, decoded, given, ground (arith, ok, known, decoded, given))
    ]
  ]
]

pub verify_keyset-IsSigned :
    (c : Crypto) (keys : KeyMap) (d : KeysetDocument)
    → verify_keyset c keys d ≡ true
    → IsSigned c d keys
unfolding verify_keyset
verify_keyset-IsSigned c keys d e =
    let (g, listed, ok) = any-find? (is_signed_by c (c.keyset_payload d) keys) d.signatures e in
    let (encoded, key, value, known, decoded, given, verified) =
      is_signed_by-parts c (c.keyset_payload d) keys g ok in
    record {
      signature = g;
      encoded = encoded;
      key = key;
      value = value;
      listed = listed;
      known = known;
      decoded = decoded;
      given = given;
      verified = verified;
    }
