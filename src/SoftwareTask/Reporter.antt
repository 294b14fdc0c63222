-- ===== src/SoftwareTask/Reporter.antt =====
-- internal/services/softwaretask/reporter.go: `publishLocked` and the calls that end in it. A call
-- changes the database in one transaction.
use oneinstack_panel.Common.{
  ℕ, ◌+◌, Bool, true, false, ◌&&◌, Option, none, some, List, [], ◌∷◌, ◌++◌, map, leb, ◌==◌,
  if◌then◌else◌,
}
use oneinstack_panel.Text.{Text}
use oneinstack_panel.SoftwareTask.{
  Status, RollbackStatus, Operation, Phase, SoftwareTask, EventType, Level, TaskEvent,
  HistoryStatus, ConfigurationHistory, TaskDb, is_terminal, find_task, save_task,
}

-- An empty string or a nil pointer is `none`.
pub record TaskUpdate : Type 0 where
  pub status : Option Status
  pub phase : Option Phase
  pub phase_progress : Option ℕ
  pub progress : Option ℕ
  pub message : Text
  pub error_code : Text
  pub error_message : Text
  pub rollback_status : Option RollbackStatus
  pub recovery_status : Text
  pub recovery_message : Text
  pub start_task : Bool
  pub finished_at : Option ℕ
  pub set_failure_phase : Bool
  pub cancel_requested : Option Bool
  pub resolved_version : Text
  pub package_source : Text

abbrev pub no_update : TaskUpdate
no_update = record {
  status = none;
  phase = none;
  phase_progress = none;
  progress = none;
  message = [];
  error_code = [];
  error_message = [];
  rollback_status = none;
  recovery_status = [];
  recovery_message = [];
  start_task = false;
  finished_at = none;
  set_failure_phase = false;
  cancel_requested = none;
  resolved_version = [];
  package_source = [];
}

pub record EventData : Type 0 where
  pub event_type : EventType
  pub level : Level
  pub phase_progress : Option ℕ
  pub code : Text
  pub message : Text

-- `if update.x != nil { task.x = *update.x }`
abbrev pub or_old {ℓ} : {A : Type ℓ} → Option A → A → A
or_old none old = old
or_old (some new) old = new

-- `if update.x != "" { task.x = update.x }`
abbrev pub or_old_text : Text → Text → Text
or_old_text [] old = old
or_old_text (c ∷ s) old = c ∷ s

-- The new phase progress: written with a new phase also where it is nil.
abbrev pub new_phase_progress : TaskUpdate → Option ℕ → Option ℕ
new_phase_progress u old = elim u.phase_progress [
  | some p ↦ some p
  | none ↦ elim u.phase [ some ph ↦ none | none ↦ old ]
]

-- The progress never goes back.
abbrev pub new_progress : Option ℕ → ℕ → ℕ
new_progress none old = old
new_progress (some p) old = if leb old p then p else old

abbrev pub first_start : Bool → Option ℕ → ℕ → Option ℕ
first_start true none now = some now
first_start true (some at) now = some at
first_start false old now = old

unfoldable pub apply_update : ℕ → TaskUpdate → SoftwareTask → SoftwareTask
apply_update now u t = record t {
  status = or_old u.status t.status;
  phase = or_old u.phase t.phase;
  phase_progress = new_phase_progress u t.phase_progress;
  progress = new_progress u.progress t.progress;
  message = or_old_text u.message t.message;
  error_code = or_old_text u.error_code t.error_code;
  error_message = or_old_text u.error_message t.error_message;
  rollback_status = or_old u.rollback_status t.rollback_status;
  recovery_status = or_old_text u.recovery_status t.recovery_status;
  recovery_message = or_old_text u.recovery_message t.recovery_message;
  started_at = first_start u.start_task t.started_at now;
  heartbeat_at = some now;
  finished_at = elim u.finished_at [ some at ↦ some at | none ↦ t.finished_at ];
  failure_phase = if u.set_failure_phase then some t.phase else t.failure_phase;
  cancel_requested = or_old u.cancel_requested t.cancel_requested;
  resolved_version = or_old_text u.resolved_version t.resolved_version;
  package_source = or_old_text u.package_source t.package_source;
  event_seq = t.event_seq + 1;
  updated_at = now;
}

unfoldable pub configuration_history_status : Status → HistoryStatus
configuration_history_status Status.succeeded = HistoryStatus.succeeded
configuration_history_status Status.canceled = HistoryStatus.canceled
configuration_history_status Status.interrupted = HistoryStatus.interrupted
configuration_history_status _ = HistoryStatus.failed

abbrev is_pending : HistoryStatus → Bool
is_pending HistoryStatus.pending = true
is_pending _ = false

-- The pending rows of a configuration task are closed.
unfoldable pub close_history :
    ℕ → ℕ → Option ℕ → HistoryStatus → List ConfigurationHistory → List ConfigurationHistory
close_history id now at new rows =
    map
      (λ r.
        if r.task_id == id && is_pending r.status
        then record r { status = new; finished_at = at; updated_at = now }
        else r)
      rows

abbrev is_configure : Operation → Bool
is_configure Operation.configure = true
is_configure _ = false

unfoldable pub finish_history :
    ℕ → Option ℕ → SoftwareTask → List ConfigurationHistory → List ConfigurationHistory
unfolding close_history configuration_history_status
finish_history now none t rows = rows
finish_history now (some at) t rows =
    if is_configure t.operation
    then close_history t.id now (some at) (configuration_history_status t.status) rows
    else rows

unfoldable pub event_of : ℕ → EventData → SoftwareTask → TaskEvent
event_of now e t = record {
  task_id = t.id;
  seq = t.event_seq;
  type = e.event_type;
  level = e.level;
  status = t.status;
  phase = t.phase;
  phase_progress = e.phase_progress;
  progress = t.progress;
  code = e.code;
  message = e.message;
  created_at = now;
}

-- The transaction of `publishLocked` on the row that it has read.
unfoldable pub publish_task : ℕ → TaskUpdate → EventData → SoftwareTask → TaskDb → TaskDb
unfolding save_task finish_history event_of apply_update
publish_task now u e t db =
    let new = apply_update now u t in
    if is_terminal t.status then db else record db {
      tasks = save_task new db.tasks;
      events = db.events ++ event_of now e new ∷ [];
      history = finish_history now u.finished_at new db.history;
    }

-- `publishLocked`: `none` is the error that the row is not there.
unfoldable pub publish : ℕ → ℕ → TaskUpdate → EventData → TaskDb → Option TaskDb
unfolding publish_task
publish now id u e db = elim (find_task id db.tasks) [
  | none ↦ none
  | some t ↦ some (publish_task now u e t db)
]
