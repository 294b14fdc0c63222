-- ===== src/Audit/Cleanup.antt =====
-- internal/services/audit/integrity.go: `CleanupBefore`.
pub mod Keeps
pub mod Retained
use oneinstack_panel.Common.{
  ℕ, ◌+◌, ◌-◌, Bool, true, false, not, Option, none, some, List, [], ◌∷◌, ltb, leb, length,
  if◌then◌else◌, select,
}
use oneinstack_panel.Text.{Text}
use oneinstack_panel.Audit.{AuditEvent, AuditCheckpoint, AuditDb, Signer}
use oneinstack_panel.Audit.Chain.{
  Verdict, VerificationResult, AuditError, storage_failed, cleanup_refused, Result, ok, err,
  sign_checkpoint, verify,
}

pub record CleanupResult : Type 0 where
  pub deleted_entries : ℕ
  pub checkpoint_sequence : ℕ
  pub checkpoint_entry_hash : Text
  pub retention_cutoff : ℕ
  pub integrity_check_passed : Bool

-- `WHERE created_at < cutoff ORDER BY sequence DESC LIMIT 1`, over rows in ascending order.
unfoldable pub last_expired : ℕ → List AuditEvent → Option AuditEvent
last_expired cutoff [] = none
last_expired cutoff (e ∷ es) = elim (last_expired cutoff es) [
  | some f ↦ some f
  | none ↦ if ltb e.created_at cutoff then some e else none
]

-- `DELETE FROM audit_events WHERE sequence <= ?`: the rows that stay.
unfoldable pub delete_through : ℕ → List AuditEvent → List AuditEvent
delete_through n es = select (λ e. not (leb e.sequence n)) es

module _ (c : Signer) where
  unfoldable pub new_checkpoint : ℕ → AuditEvent → AuditCheckpoint
  unfolding sign_checkpoint
  new_checkpoint now e =
      let cp : AuditCheckpoint = record {
        through_sequence = e.sequence;
        through_entry_hash = e.entry_hash;
        signature = [];
        updated_at = now;
      } in
      record cp { signature = sign_checkpoint c cp }

  -- The transaction: the checkpoint is saved, and the rows up to it are deleted.
  unfoldable pub expire_through : ℕ → ℕ → AuditDb → AuditEvent → AuditDb × CleanupResult
  unfolding new_checkpoint delete_through
  expire_through now cutoff db e =
      let rest = delete_through e.sequence db.events in
      (
        record db { events = rest; checkpoint = some (new_checkpoint now e) },
        record {
          deleted_entries = length db.events - length rest;
          checkpoint_sequence = e.sequence;
          checkpoint_entry_hash = e.entry_hash;
          retention_cutoff = cutoff;
          integrity_check_passed = true;
        },
      )

  -- `commits` says whether the database commits the transaction; otherwise nothing changes.
  pub cleanup_through :
      Bool
      → ℕ
      → ℕ
      → AuditDb
      → VerificationResult
      → Option AuditEvent
      → Result (AuditDb × CleanupResult)
  unfolding expire_through
  cleanup_through commits now cutoff db verification none = ok (
    db,
    record {
      deleted_entries = 0;
      checkpoint_sequence = verification.checkpoint_sequence;
      checkpoint_entry_hash = [];
      retention_cutoff = cutoff;
      integrity_check_passed = true;
    },
  )
  cleanup_through commits now cutoff db verification (some e) =
      if commits then ok (expire_through now cutoff db e) else err storage_failed

  unfoldable pub cleanup_before : Bool → ℕ → ℕ → AuditDb → Result (AuditDb × CleanupResult)
  unfolding cleanup_through last_expired
  cleanup_before commits now cutoff db =
      let verification = verify c db in
      if not verification.valid
      then err (cleanup_refused verification.message)
      else cleanup_through commits now cutoff db verification (last_expired cutoff db.events)
