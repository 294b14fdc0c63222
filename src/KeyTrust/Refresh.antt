-- ===== src/KeyTrust/Refresh.antt =====
-- internal/services/panelupdate/keytrust.go: `RefreshKeyTrust`. It loads the state of the file, downloads,
-- and later writes the file, with no lock: the file that it writes need not be the one that it has loaded.
use oneinstack_panel.Common.{
  ℕ, Bool, true, false, not, ◌&&◌, Option, none, some, List, [], ◌∷◌, select, ltb, leb, ◌==◌,
  length, if◌then◌else◌,
}
use oneinstack_panel.Text.{Text, codes, text_eq, trim_space, is_empty, byte_len}
use oneinstack_panel.KeyTrust.{
  TrustedKeyRecord, KeysetDocument, TrustState, Crypto, KeyMap, is_revoked, find_record,
  clone_trusted_keys, effective_trusted_keys,
}
use oneinstack_panel.KeyTrust.Keyset.{
  KeysetError, missing_state_path, download_failed, untrusted_keyset, rolled_back,
  changed_without_revision, removed_key, invalid_stored_state, save_failed, validate_keyset,
  verify_keyset,
}

-- What the refresh reads of `Config`.
pub record Config : Type 0 where
  pub trusted_keys : KeyMap
  pub key_status_url : Text
  pub trust_state_path : Text

pub record KeyTrustResult : Type 0 where
  pub source : Text
  pub revision : ℕ
  pub active_key_id : Text
  pub trusted_key_count : ℕ
  pub revoked_key_count : ℕ
  pub updated_at : Option ℕ

-- The answer, and the state that was written, if one was.
pub data Refreshed : Type 0 where
  refused : KeysetError → Refreshed
  refreshed : KeyMap → KeyTrustResult → Option TrustState → Refreshed

abbrev pub file_after : Option TrustState → Option TrustState → Option TrustState
file_after file none = file
file_after file (some new) = some new

-- What the file holds after the refresh, from what it holds just before the write.
abbrev pub stored : Option TrustState → Refreshed → Option TrustState
stored file (refused e) = file
stored file (refreshed keys result write) = file_after file write

abbrev is_missing : Option ℕ → Bool
is_missing none = true
is_missing (some t) = false

-- `loadTrustState` on the state that the file holds.
unfoldable pub is_valid_state : TrustState → Bool
unfolding byte_len
is_valid_state s =
    s.schema_version == 1
    && leb 1 s.revision
    && not (is_missing s.generated_at)
    && not (is_empty s.active_key_id)
    && leb 1 (length s.keys)
    && leb (length s.keys) 32
    && byte_len s.digest == 64

abbrev has_record : Option TrustedKeyRecord → Bool
has_record none = false
has_record (some r) = true

-- `rejectRemovedKeys`
unfoldable pub keeps_keys : List TrustedKeyRecord → List TrustedKeyRecord → Bool
keeps_keys [] current = true
keeps_keys (r ∷ rs) current = has_record (find_record r.key_id current) && keeps_keys rs current

-- The checks against a state that is stored.
unfoldable pub state_error : Text → KeysetDocument → TrustState → Option KeysetError
unfolding keeps_keys
state_error digest d s =
    if ltb d.revision s.revision
    then some rolled_back
    else if d.revision == s.revision && not (text_eq digest s.digest)
    then some changed_without_revision
    else if not (keeps_keys s.keys d.keys)
    then some removed_key
    else none

abbrev pub next_state : ℕ → Text → KeysetDocument → TrustState
next_state now digest d = record {
  schema_version = 1;
  revision = d.revision;
  generated_at = d.generated_at;
  active_key_id = d.active_key_id;
  keys = d.keys;
  digest = digest;
  updated_at = now;
}

abbrev pub revoked_count : List TrustedKeyRecord → ℕ
revoked_count records = length (select is_revoked records)

-- The answer where every check has passed.
unfoldable pub trusted : KeyMap → KeysetDocument → Option TrustState → Refreshed
unfolding effective_trusted_keys
trusted static d write =
    let keys = effective_trusted_keys static d.keys in
    refreshed keys
      (record {
        source = codes "center";
        revision = d.revision;
        active_key_id = d.active_key_id;
        trusted_key_count = length keys;
        revoked_key_count = revoked_count d.keys;
        updated_at = d.generated_at;
      })
      write

-- The state is written, or the write fails.
unfoldable pub save : Bool → KeyMap → KeysetDocument → TrustState → Refreshed
unfolding trusted
save true static d new = trusted static d (some new)
save false static d new = refused save_failed

-- The checks of a keyset that was downloaded against the state that was loaded, and the write.
unfoldable pub accept : Crypto → ℕ → Bool → KeyMap → KeysetDocument → Option TrustState → Refreshed
unfolding validate_keyset verify_keyset state_error effective_trusted_keys save trusted
accept c now saves static d none = elim (validate_keyset c now d) [
  | some e ↦ refused e
  | none ↦
      if not (verify_keyset c (effective_trusted_keys static []) d)
      then refused untrusted_keyset
      else save saves static d (next_state now (c.digest_of (c.keyset_payload d)) d)
]
accept c now saves static d (some s) = elim (validate_keyset c now d) [
  | some e ↦ refused e
  | none ↦
      if not (verify_keyset c (effective_trusted_keys static s.keys) d)
      then refused untrusted_keyset
      else elim (state_error (c.digest_of (c.keyset_payload d)) d s) [
        | some e ↦ refused e
        | none ↦
            if ltb s.revision d.revision
            then save saves static d (next_state now (c.digest_of (c.keyset_payload d)) d)
            else trusted static d none
      ]
]

-- The download, which may have failed.
abbrev pub accept_fetched :
    Crypto → ℕ → Bool → KeyMap → Option TrustState → Option KeysetDocument → Refreshed
accept_fetched c now saves static s none = refused download_failed
accept_fetched c now saves static s (some d) = accept c now saves static d s

abbrev pub is_invalid : Option TrustState → Bool
is_invalid none = false
is_invalid (some s) = not (is_valid_state s)

abbrev static_result : KeyMap → KeyTrustResult
static_result static = record {
  source = codes "static";
  revision = 0;
  active_key_id = [];
  trusted_key_count = length static;
  revoked_key_count = 0;
  updated_at = none;
}

-- `RefreshKeyTrust` on the state that it loads, with what the download brought and whether the write
-- succeeds.
unfoldable pub refresh_key_trust :
    Crypto → ℕ → Config → Option KeysetDocument → Bool → Option TrustState → Refreshed
unfolding clone_trusted_keys accept is_valid_state trim_space
refresh_key_trust c now config fetched saves s =
    let static = clone_trusted_keys config.trusted_keys in
    if is_empty (trim_space config.key_status_url)
    then refreshed static (static_result static) none
    else if is_empty (trim_space config.trust_state_path)
    then refused missing_state_path
    else if is_invalid s
    then refused invalid_stored_state
    else accept_fetched c now saves static s fetched

-- A refresh with what it meets.
pub record Attempt : Type 0 where
  pub now : ℕ
  pub config : Config
  pub fetched : Option KeysetDocument
  pub saves : Bool

-- Refreshes, each after the end of the one before, and the state that they leave.
unfoldable pub run_refreshes : Crypto → List Attempt → Option TrustState → Option TrustState
unfolding refresh_key_trust
run_refreshes c [] s = s
run_refreshes c (a ∷ rest) s =
    run_refreshes c rest (stored s (refresh_key_trust c a.now a.config a.fetched a.saves s))
