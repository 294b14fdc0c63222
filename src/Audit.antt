-- ===== src/Audit.antt =====
-- The operation audit: the rows and the inputs of internal/services/audit and of
-- internal/models/audit.go. Times are nanoseconds since 1970, and Go's zero time is `none`.
pub mod Normalize
pub mod Chain
pub mod Append
pub mod Cleanup
mod Examples
use oneinstack_panel.Common.{ℕ, ◌%◌, ◌≢◌, Bool, Option, List, [], ◌∷◌}
use oneinstack_panel.Common.Int.{ℤ}
use oneinstack_panel.Text.{Text, codes}

-- uint64 arithmetic wraps.
abbrev pub u64 : ℕ → ℕ
u64 n = n % 18446744073709551616

abbrev pub chain_version : ℕ
chain_version = 1

abbrev pub genesis_hash : Text
genesis_hash = codes "0000000000000000000000000000000000000000000000000000000000000000"

pub record EventInput : Type 0 where
  pub request_id : Text
  pub event_type : Text
  pub action : Text
  pub method : Text
  pub route : Text
  pub path : Text
  pub status : ℤ
  pub outcome : Text
  pub sensitive : Bool
  pub user_id : ℤ
  pub username : Text
  pub auth_mode : Text
  pub remote_ip : Text
  pub user_agent : Text
  pub content_length : ℤ
  pub duration_ms : ℤ
  pub message : Text
  pub created_at : Option ℕ

-- What the signature of an event covers.
pub record EventPayload : Type 0 where
  pub sequence : ℕ
  pub request_id : Text
  pub event_type : Text
  pub action : Text
  pub method : Text
  pub route : Text
  pub path : Text
  pub status : ℕ
  pub outcome : Text
  pub sensitive : Bool
  pub user_id : ℤ
  pub username : Text
  pub auth_mode : Text
  pub remote_ip : Text
  pub user_agent : Text
  pub content_length : ℕ
  pub duration_ms : ℕ
  pub message : Text
  pub created_at : ℕ
  pub previous_hash : Text
  pub version : ℕ

-- A row of the events' table: what is signed, with the row's number and its signature.
pub record AuditEvent : Type 0 where
  pub id : ℕ
  pub payload : EventPayload
  pub open payload use *
  pub entry_hash : Text

pub record AuditCheckpoint : Type 0 where
  pub through_sequence : ℕ
  pub through_entry_hash : Text
  pub signature : Text
  pub updated_at : ℕ

pub record AuditChainState : Type 0 where
  pub last_sequence : ℕ
  pub last_entry_hash : Text
  pub signature : Text
  pub updated_at : ℕ

-- The three tables. `events` stands in ascending order of `sequence`, as the queries read it; the
-- other two hold one row at most, that of id 1.
pub record AuditDb : Type 0 where
  pub events : List AuditEvent
  pub checkpoint : Option AuditCheckpoint
  pub state : Option AuditChainState
  pub next_id : ℕ

-- What the manager needs of `crypto/hmac`, `encoding/json` and `unicode`: the hexadecimal HMAC-SHA256
-- under its key, which is never the empty text, the JSON of the three payloads, and the upper case of
-- a rune beyond ASCII.
pub record Signer : Type 0 where
  pub sign : Text → Text
  pub encode_event : EventPayload → Text
  pub encode_checkpoint : ℕ → Text → Text
  pub encode_state : ℕ → Text → Text
  pub upper_rune : ℕ → ℕ
  pub sign_nonempty : (payload : Text) → sign payload ≢ []
