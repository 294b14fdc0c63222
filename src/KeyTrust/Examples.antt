-- ===== src/KeyTrust/Examples.antt =====
-- Runs of `RefreshKeyTrust` of internal/services/panelupdate/keytrust.go.
use oneinstack_panel.Common.{
  ℕ, zero, suc, ◌≡◌, refl, Bool, true, false, ◌&&◌, Option, none, some, List, [], ◌∷◌, ◌==◌,
}
use oneinstack_panel.Text.{Text, codes, rune_len}
use oneinstack_panel.KeyTrust.{TrustedKeyRecord, KeysetDocument, TrustState, Crypto, KeyMap, lookup}
use oneinstack_panel.KeyTrust.Refresh.{
  Config, Refreshed, refused, refreshed, Attempt, stored, refresh_key_trust, run_refreshes,
}
use oneinstack_panel.KeyTrust.Forward.{IsForward}
use oneinstack_panel.KeyTrust.History.{
  IsRefresh, refresh_key_trust-IsRefresh, run_refreshes-IsForward,
}

abbrev fill : ℕ → ℕ → Text
fill c zero = []
fill c (suc n) = c ∷ fill c n

abbrev starts : Text → Text → Bool
starts [] value = true
starts (k ∷ key) [] = false
starts (k ∷ key) (v ∷ value) = k == v && starts key value

-- A key is its own identifier, and a signature begins with the key.
abbrev plain_crypto : Crypto
plain_crypto = record {
  decode_base64 = λ s. some s;
  key_id_of = λ key. key;
  keyset_payload = λ d. d.revision ∷ [];
  digest_of = λ payload. fill 48 64;
  verify = λ key payload value. starts key value;
}

abbrev key_a : Text
key_a = fill 97 32

abbrev key_b : Text
key_b = fill 98 32

abbrev record_of : Text → Text → TrustedKeyRecord
record_of key status = record {
  key_id = key;
  algorithm = codes "Ed25519";
  public_key = key;
  status = status;
  created_at = some 1;
  activated_at = some 2;
  retired_at = some 3;
  revoked_at = some 4;
  revocation_reason = codes "leaked";
}

abbrev document_of : ℕ → Text → Text → Text → ℕ → KeysetDocument
document_of revision active status_a status_b signer = record {
  schema_version = 1;
  revision = revision;
  generated_at = some 10;
  active_key_id = active;
  keys = record_of key_a status_a ∷ record_of key_b status_b ∷ [];
  signatures = record { key_id = fill signer 32; value = fill signer 64 } ∷ [];
}

-- The first key is active; then it is revoked in favour of the second.
abbrev first_keyset : KeysetDocument
first_keyset = document_of 1 key_a (codes "active") (codes "staged") 97

abbrev second_keyset : KeysetDocument
second_keyset = document_of 2 key_b (codes "revoked") (codes "active") 98

abbrev config : Config
config = record {
  trusted_keys = (key_a, key_a) ∷ [];
  key_status_url = codes "https://c";
  trust_state_path = codes "/t";
}

abbrev first_state : TrustState
first_state = record {
  schema_version = 1;
  revision = 1;
  generated_at = some 10;
  active_key_id = key_a;
  keys = first_keyset.keys;
  digest = fill 48 64;
  updated_at = 20;
}

-- The file while a slow refresh has loaded the first state.
abbrev third_state : TrustState
third_state = record first_state { revision = 3; active_key_id = key_b }

abbrev keys_after : Refreshed → KeyMap
keys_after (refused e) = []
keys_after (refreshed keys result s) = keys

first_stored :
    stored none (refresh_key_trust plain_crypto 20 config (some first_keyset) true none)
    ≡ some first_state
unfolding refresh_key_trust
first_stored = refl

first_revoked :
    lookup key_a (
      keys_after
        (refresh_key_trust plain_crypto 30 config (some second_keyset) true (some first_state)))
    ≡ none
unfolding refresh_key_trust rune_len
first_revoked = refl

refresh_key_trust-IsRefresh_example :
    IsRefresh plain_crypto 30 config
      (some second_keyset)
      (some first_state)
      (some third_state)
      (refresh_key_trust plain_crypto 30 config (some second_keyset) true (some first_state))
refresh_key_trust-IsRefresh_example =
    refresh_key_trust-IsRefresh plain_crypto 30 config (some second_keyset) true (some first_state)
      (some third_state)

-- The second keyset, and then the first again, which is refused.
abbrev attempts : List Attempt
attempts =
    record { now = 30; config = config; fetched = some second_keyset; saves = true }
    ∷ record { now = 40; config = config; fetched = some first_keyset; saves = true }
    ∷ []

run_refreshes-IsForward_example :
    IsForward first_state (run_refreshes plain_crypto attempts (some first_state))
run_refreshes-IsForward_example = run_refreshes-IsForward plain_crypto attempts first_state

abbrev revision_of : Option TrustState → ℕ
revision_of none = 0
revision_of (some s) = s.revision

attempts_revision : revision_of (run_refreshes plain_crypto attempts (some first_state)) ≡ 2
unfolding run_refreshes rune_len
attempts_revision = refl

-- A refresh that has loaded the first state writes the second keyset over the third.
overlapping_refresh :
    revision_of (
      stored
        (some third_state)
        (refresh_key_trust plain_crypto 30 config (some second_keyset) true (some first_state)))
    ≡ 2
unfolding refresh_key_trust rune_len
overlapping_refresh = refl

-- A key that was revoked is trusted again after a keyset that lists it as active.
revoked_returns :
    lookup key_a (
      keys_after (
        refresh_key_trust plain_crypto 50 config
          (some (document_of 3 key_a (codes "active") (codes "retired") 98))
          true
          (stored (some first_state) (
            refresh_key_trust plain_crypto 30 config
              (some second_keyset)
              true
              (some first_state)))))
    ≡ some key_a
unfolding refresh_key_trust rune_len
revoked_returns = refl
