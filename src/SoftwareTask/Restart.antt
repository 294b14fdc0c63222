-- ===== src/SoftwareTask/Restart.antt =====
-- internal/services/softwaretask/manager.go: `reconcileInterruptedTasks`, at the start of the panel.
use oneinstack_panel.Common.{
  ℕ, zero, suc, ◌+◌, Bool, false, not, ◌&&◌, ◌||◌, none, some, List, [], ◌∷◌, ◌++◌, map, select,
  ltb, leb, ◌==◌, length, if◌then◌else◌,
}
use oneinstack_panel.Text.{Text, codes, is_empty, trim_space}
use oneinstack_panel.SoftwareTask.{
  Status, Phase, SoftwareTask, EventType, Level, TaskEvent, HistoryStatus, ConfigurationHistory,
  is_terminal,
}
use oneinstack_panel.SoftwareTask.Reporter.{close_history}
use oneinstack_panel.SoftwareTask.Submit.{is_configure}
use oneinstack_panel.SoftwareTask.World.{Manager}

abbrev is_kept : ℕ → Bool
is_kept c = not (ltb c 0x20) || c == 0x09

abbrev first_runes : ℕ → Text → Text
first_runes zero s = []
first_runes (suc n) [] = []
first_runes (suc n) (c ∷ s) = c ∷ first_runes n s

-- `sanitizeRecoveryValue`
unfoldable pub sanitize_recovery_value : Text → ℕ → Text → Text
unfolding trim_space
sanitize_recovery_value given limit fallback =
    let value = trim_space (select is_kept given) in
    if is_empty value
    then fallback
    else if leb (length value) limit
    then value
    else first_runes limit value

-- `RecoveryInspection`
pub record RecoveryInspection : Type 0 where
  pub status : Text
  pub message : Text

-- What the inspector of components answers, cleaned.
unfoldable pub inspected : (SoftwareTask → RecoveryInspection) → SoftwareTask → RecoveryInspection
unfolding sanitize_recovery_value
inspected inspector t =
    let i = inspector t in
    record {
      status = sanitize_recovery_value i.status 32 (codes "unknown");
      message = sanitize_recovery_value i.message 500 (codes "组件状态未知");
    }

unfoldable pub interrupt : ℕ → RecoveryInspection → SoftwareTask → SoftwareTask
interrupt now i t =
    let message = codes "Panel 重启导致任务中断；" ++ i.message in
    record t {
      event_seq = t.event_seq + 1;
      status = Status.interrupted;
      phase = Phase.of_status Status.interrupted;
      recovery_status = i.status;
      recovery_message = i.message;
      message = message;
      error_code = codes "PANEL_RESTARTED";
      error_message = message;
      finished_at = some now;
      heartbeat_at = some now;
      updated_at = now;
    }

unfoldable pub interrupted_event : ℕ → SoftwareTask → TaskEvent
interrupted_event now t = record {
  task_id = t.id;
  seq = t.event_seq;
  type = EventType.terminal;
  level = Level.error;
  status = t.status;
  phase = t.phase;
  phase_progress = none;
  progress = t.progress;
  code = t.error_code;
  message = t.message;
  created_at = now;
}

-- The row of a task after the restart.
unfoldable pub reconciled : ℕ → (SoftwareTask → RecoveryInspection) → SoftwareTask → SoftwareTask
unfolding inspected interrupt
reconciled now inspector t =
    if is_terminal t.status then t else interrupt now (inspected inspector t) t

unfoldable pub restart_events :
    ℕ → (SoftwareTask → RecoveryInspection) → List SoftwareTask → List TaskEvent
unfolding inspected interrupt interrupted_event
restart_events now inspector [] = []
restart_events now inspector (t ∷ ts) =
    let rest = restart_events now inspector ts in
    if is_terminal t.status
    then rest
    else interrupted_event now (interrupt now (inspected inspector t) t) ∷ rest

unfoldable pub restart_history :
    ℕ → List SoftwareTask → List ConfigurationHistory → List ConfigurationHistory
unfolding close_history
restart_history now [] rows = rows
restart_history now (t ∷ ts) rows = restart_history now ts (
    if not (is_terminal t.status) && is_configure t.operation
    then close_history t.id now (some now) HistoryStatus.interrupted rows
    else rows)

-- A new process: nothing runs or waits, the active tasks are interrupted, and the locks are gone.
unfoldable pub restart : ℕ → (SoftwareTask → RecoveryInspection) → Manager → Manager
unfolding reconciled restart_events restart_history
restart now inspector m = record m {
  db = record {
    tasks = map (reconciled now inspector) m.db.tasks;
    events = m.db.events ++ restart_events now inspector m.db.tasks;
    locks = [];
    history = restart_history now m.db.tasks m.db.history;
  };
  queue = [];
  workers = [];
  cancels = [];
  canceling = [];
  stopping = false;
}
