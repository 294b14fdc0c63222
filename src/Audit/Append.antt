-- ===== src/Audit/Append.antt =====
-- internal/services/audit/manager.go: `Append`, `loadChainHead` and integrity.go's
-- `verifyStoredHead`.
pub mod Extends
pub mod Keeps
pub mod Attempts
use oneinstack_panel.Common.{
  ℕ, zero, suc, ◌+◌, Bool, true, false, not, ◌||◌, Option, none, some, List, [], ◌∷◌, ◌++◌, ◌==◌,
  if◌then◌else◌, any,
}
use oneinstack_panel.Text.{Text, text_eq}
use oneinstack_panel.Audit.{
  u64, genesis_hash, EventInput, EventPayload, AuditEvent, AuditCheckpoint, AuditChainState,
  AuditDb, Signer,
}
use oneinstack_panel.Audit.Normalize.{normalize}
use oneinstack_panel.Audit.Chain.{
  AuditError, chain_head_missing, chain_head_invalid, database_busy, storage_failed, Result, ok,
  err, sign_event, sign_state, verify_state,
}

-- The last row in the order of the sequence.
abbrev pub get_last? : List AuditEvent → Option AuditEvent
get_last? [] = none
get_last? (e ∷ []) = some e
get_last? (e ∷ f ∷ es) = get_last? (f ∷ es)

pub checkpoint_head : Option AuditCheckpoint → ℕ × Text
checkpoint_head none = (0, genesis_hash)
checkpoint_head (some cp) = (cp.through_sequence, cp.through_entry_hash)

unfoldable pub load_chain_head : AuditDb → ℕ × Text
unfolding checkpoint_head
load_chain_head db = elim (get_last? db.events) [
  | none ↦ checkpoint_head db.checkpoint
  | some e ↦ (e.sequence, e.entry_hash)
]

-- `tx.Create(event)`: the table has a unique index on the sequence and one on the entry hash.
pub create_event : AuditDb → AuditEvent → Result AuditDb
create_event db e =
    if any (λ f. f.sequence == e.sequence || text_eq f.entry_hash e.entry_hash) db.events
    then err storage_failed
    else ok (record db { events = db.events ++ e ∷ []; next_id = db.next_id + 1 })

-- How the database ends a transaction whose statements all succeed.
pub data Fate : Type 0 where
  committed busy failed : Fate

-- The number of the attempts in `Append`.
abbrev pub append_attempts : ℕ
append_attempts = 4

module _ (c : Signer) where
  -- `none` is Go's `nil` error.
  pub verify_stored_head : ℕ → Text → Option AuditChainState → Option AuditError
  unfolding verify_state
  verify_stored_head sequence hash none = if sequence == 0 then none else some chain_head_missing
  verify_stored_head sequence hash (some s) =
      if not (verify_state c s)
        || not (s.last_sequence == sequence)
        || not (text_eq s.last_entry_hash hash)
      then some chain_head_invalid
      else none

  pub signed_event : ℕ → EventPayload → AuditEvent
  unfolding sign_event
  signed_event id p =
      let e : AuditEvent = record { id = id; payload = p; entry_hash = [] } in
      record e { entry_hash = sign_event c e }

  unfoldable pub signed_state : ℕ → AuditEvent → AuditChainState
  unfolding sign_state
  signed_state now e =
      let s : AuditChainState = record {
        last_sequence = e.sequence;
        last_entry_hash = e.entry_hash;
        signature = [];
        updated_at = now;
      } in
      record s { signature = sign_state c s }

  -- The event that continues the chain after the given head.
  unfoldable pub next_event : ℕ → ℕ × Text → EventPayload → AuditEvent
  unfolding signed_event
  next_event id (sequence, hash) p =
      signed_event id (record p { sequence = u64 (sequence + 1); previous_hash = hash })

  pub store_state : ℕ → AuditEvent → Result AuditDb → Result (AuditDb × AuditEvent)
  unfolding signed_state
  store_state now e (err x) = err x
  store_state now e (ok db) = ok (record db { state = some (signed_state now e) }, e)

  -- The rest of the transaction, after the head has been read.
  pub append_at : ℕ → AuditDb → EventPayload → ℕ × Text → Result (AuditDb × AuditEvent)
  unfolding create_event store_state
  append_at now db p (sequence, hash) =
      let e = next_event db.next_id (sequence, hash) p in
      elim (verify_stored_head sequence hash db.state) [
        | some x ↦ err x
        | none ↦ store_state now e (create_event db e)
      ]

  -- The transaction of one attempt, which changes nothing when a step of it fails.
  unfoldable pub append_tx : ℕ → AuditDb → EventPayload → Result (AuditDb × AuditEvent)
  unfolding append_at
  append_tx now db p = append_at now db p (load_chain_head db)

  pub settle : Fate → Result (AuditDb × AuditEvent) → Result (AuditDb × AuditEvent)
  settle committed r = r
  settle busy r = err database_busy
  settle failed r = err storage_failed

  -- The loop: `attempts` are left, and only a busy database is tried again.
  pub append_from : ℕ → (ℕ → Fate) → ℕ → AuditDb → EventPayload → Result (AuditDb × AuditEvent)
  unfolding append_tx settle
  append_from zero fates now db p = err database_busy
  append_from (suc attempts) fates now db p =
      let again = append_from attempts fates now db p in
      elim (settle (fates attempts) (append_tx now db p)) [
        | ok r ↦ ok r
        | err database_busy ↦ again
        | err x ↦ err x
      ]

  unfoldable pub append : (ℕ → Fate) → ℕ → AuditDb → EventInput → Result (AuditDb × AuditEvent)
  unfolding append_from normalize
  append fates now db input = append_from append_attempts fates now db (normalize c now input)
