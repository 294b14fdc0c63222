-- ===== src/Audit/Chain.antt =====
-- internal/services/audit: the signatures of the hash chain and its verification (manager.go,
-- integrity.go). The manager's mutex makes each call one step.
pub mod Linked
pub mod Verified
pub mod History
use oneinstack_panel.Common.{
  ℕ, zero, suc, ◌+◌, Bool, true, false, not, ◌&&◌, ◌||◌, Option, none, some, List, [], ◌∷◌, ◌++◌,
  leb, ltb, ◌==◌, if◌then◌else◌, length, any, select,
}
use oneinstack_panel.Text.{Text, text_eq, is_empty}
use oneinstack_panel.Audit.{
  u64, chain_version, genesis_hash, EventInput, EventPayload, AuditEvent, AuditCheckpoint,
  AuditChainState, AuditDb, Signer,
}
use oneinstack_panel.Audit.Normalize.{normalize}

-- The messages of a verification.
pub data Verdict : Type 0 where
  intact checkpoint_invalid link_broken signature_invalid head_missing head_invalid : Verdict

pub record VerificationResult : Type 0 where
  pub valid : Bool
  pub checked_entries : ℕ
  pub checkpoint_sequence : ℕ
  pub first_sequence : ℕ
  pub last_sequence : ℕ
  pub invalid_sequence : ℕ
  pub message : Verdict

pub data AuditError : Type 0 where
  chain_head_missing chain_head_invalid database_busy storage_failed : AuditError
  cleanup_refused : Verdict → AuditError

pub data Result {ℓ} (A : Type ℓ) : Type ℓ where
  ok : A → Result A
  err : AuditError → Result A

module _ (c : Signer) where
  unfoldable pub sign_event : AuditEvent → Text
  sign_event e = c.sign (c.encode_event e.payload)

  unfoldable pub sign_checkpoint : AuditCheckpoint → Text
  sign_checkpoint cp = c.sign (c.encode_checkpoint cp.through_sequence cp.through_entry_hash)

  unfoldable pub verify_checkpoint : AuditCheckpoint → Bool
  unfolding sign_checkpoint
  verify_checkpoint cp =
      if cp.through_sequence == 0 || is_empty cp.through_entry_hash || is_empty cp.signature
      then false
      else text_eq (sign_checkpoint cp) cp.signature

  unfoldable pub sign_state : AuditChainState → Text
  sign_state s = c.sign (c.encode_state s.last_sequence s.last_entry_hash)

  unfoldable pub verify_state : AuditChainState → Bool
  unfolding sign_state
  verify_state s =
      if s.last_sequence == 0 || is_empty s.last_entry_hash || is_empty s.signature
      then false
      else text_eq (sign_state s) s.signature

-- `result.Valid = false` with the sequence and the message.
abbrev pub invalid : VerificationResult → ℕ → Verdict → VerificationResult
invalid r n v = record r { valid = false; invalid_sequence = n; message = v }

abbrev pub counted : VerificationResult → AuditEvent → VerificationResult
counted r e = record r {
  checked_entries = r.checked_entries + 1;
  first_sequence = if r.first_sequence == 0 then e.sequence else r.first_sequence;
  last_sequence = e.sequence;
}

-- How the loop over the rows ends: by its `return`, or after the last row.
pub data ScanEnd : Type 0 where
  stopped : VerificationResult → ScanEnd
  finished : VerificationResult → ℕ → Text → ScanEnd

module _ (c : Signer) where
  -- `event.Sequence != expectedSequence || …`
  pub is_linked : ℕ → Text → AuditEvent → Bool
  is_linked expected_sequence expected_previous e =
      e.sequence == expected_sequence
      && text_eq e.previous_hash expected_previous
      && e.version == chain_version

  unfoldable pub scan : VerificationResult → ℕ → Text → List AuditEvent → ScanEnd
  unfolding is_linked sign_event
  scan r expected_sequence expected_previous [] = finished r expected_sequence expected_previous
  scan r expected_sequence expected_previous (e ∷ es) =
      let rest = scan (counted r e) (u64 (expected_sequence + 1)) e.entry_hash es in
      if not (is_linked expected_sequence expected_previous e)
      then stopped (invalid (counted r e) e.sequence link_broken)
      else if not (text_eq (sign_event c e) e.entry_hash)
      then stopped (invalid (counted r e) e.sequence signature_invalid)
      else rest

  -- The part of `verifyLocked` after the loop, at the logical head. The code puts the genesis hash
  -- for the head's hash where the head's sequence is 0.
  pub verify_head : VerificationResult → ℕ → Text → Option AuditChainState → VerificationResult
  unfolding verify_state
  verify_head r sequence hash none = if ltb 0 sequence then invalid r sequence head_missing else r
  verify_head r sequence hash (some s) =
      let logical_hash = if sequence == 0 then genesis_hash else hash in
      if not (verify_state c s)
        || not (s.last_sequence == sequence)
        || not (text_eq s.last_entry_hash logical_hash)
      then invalid r sequence head_invalid
      else r

  pub finish_scan : Option AuditChainState → ScanEnd → VerificationResult
  unfolding verify_head
  finish_scan state (stopped r) = r
  finish_scan state (finished r expected_sequence expected_previous) =
      verify_head r (u64 (expected_sequence + 18446744073709551615)) expected_previous state

  pub verify_rows : AuditDb → VerificationResult → Option AuditCheckpoint → VerificationResult
  unfolding scan finish_scan verify_checkpoint
  verify_rows db r none = finish_scan db.state (scan r 1 genesis_hash db.events)
  verify_rows db r (some cp) =
      if not (verify_checkpoint c cp)
      then invalid r cp.through_sequence checkpoint_invalid
      else finish_scan db.state (
          scan (record r { checkpoint_sequence = cp.through_sequence })
            (u64 (cp.through_sequence + 1)) cp.through_entry_hash db.events)

  -- `verifyLocked`
  unfoldable pub verify : AuditDb → VerificationResult
  unfolding verify_rows
  verify db =
      verify_rows db
        (record {
          valid = true;
          checked_entries = 0;
          checkpoint_sequence = 0;
          first_sequence = 0;
          last_sequence = 0;
          invalid_sequence = 0;
          message = intact;
        })
        db.checkpoint
