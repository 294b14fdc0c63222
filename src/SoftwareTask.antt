-- ===== src/SoftwareTask.antt =====
-- internal/services/softwaretask: the rows of internal/models/software_task.go. A task's id, a UUID
-- that the code only compares, is a number; times are numbers too. The columns of
-- the log's path and the parameters, and an event's own number, are left out: no call here uses them.
pub mod Phases
pub mod Reporter
pub mod Reports
pub mod Lawful
pub mod Rows
pub mod Sound
pub mod Numbered
pub mod Later
pub mod Catalog
pub mod Submit
pub mod World
pub mod Callers
pub mod Workers
pub mod Restart
pub mod Steps
pub mod Progress
pub mod Planned
pub mod Exclusive
pub mod Moves
pub mod Holders
pub mod Locked
pub mod OneHolder
pub mod Ends
pub mod Accepted
pub mod Cancel
pub mod Settled
pub mod Canceled
mod Runs
mod Examples
use oneinstack_panel.Common.{
  ℕ, Bool, true, false, Option, none, some, List, [], ◌∷◌, ◌==◌, find?, if◌then◌else◌,
}
use oneinstack_panel.Text.{Text}

pub data Status : Type 0 where
  queued resolving prechecking installing upgrading uninstalling starting stopping : Status
  restarting reloading configuring verifying finalizing canceling rolling_back : Status
  succeeded failed canceled interrupted : Status

pub data RollbackStatus : Type 0 where
  not_required running succeeded failed : RollbackStatus

pub data Operation : Type 0 where
  install upgrade uninstall start stop restart reload configure : Operation

-- A value of the column `phase`: a key of `softwareTaskPhases`, or a status.
pub data Phase : Type 0 where
  resolving precheck install upgrade uninstall start stop restart reload configure config_apply :
      Phase
  verify finalizing : Phase
  of_status : Status → Phase

pub record SoftwareTask : Type 0 where
  pub id : ℕ
  pub operation : Operation
  pub component : Text
  pub software_key : Text
  pub requested_version : Text
  pub resolved_version : Text
  pub package_source : Text
  pub status : Status
  pub phase : Phase
  pub phase_progress : Option ℕ
  pub progress : ℕ
  pub message : Text
  pub error_code : Text
  pub error_message : Text
  pub failure_phase : Option Phase
  pub rollback_status : RollbackStatus
  pub recovery_status : Text
  pub recovery_message : Text
  pub requested_by : ℕ
  pub cancel_requested : Bool
  pub event_seq : ℕ
  pub started_at : Option ℕ
  pub heartbeat_at : Option ℕ
  pub finished_at : Option ℕ
  pub created_at : ℕ
  pub updated_at : ℕ

pub data EventType : Type 0 where
  snapshot phase progress resolved_package warning terminal : EventType

pub data Level : Type 0 where
  info warning error : Level

pub record TaskEvent : Type 0 where
  pub task_id : ℕ
  pub seq : ℕ
  pub type : EventType
  pub level : Level
  pub status : Status
  pub phase : Phase
  pub phase_progress : Option ℕ
  pub progress : ℕ
  pub code : Text
  pub message : Text
  pub created_at : ℕ

pub record OperationLock : Type 0 where
  pub component : Text
  pub task_id : ℕ
  pub acquired_at : ℕ

pub data HistoryStatus : Type 0 where
  pending succeeded failed canceled interrupted : HistoryStatus

-- The columns of internal/models/software_configuration_history.go that a task's end changes.
pub record ConfigurationHistory : Type 0 where
  pub task_id : ℕ
  pub status : HistoryStatus
  pub finished_at : Option ℕ
  pub updated_at : ℕ

pub record TaskDb : Type 0 where
  pub tasks : List SoftwareTask
  pub events : List TaskEvent
  pub locks : List OperationLock
  pub history : List ConfigurationHistory

-- `IsSoftwareTaskTerminal`
abbrev pub is_terminal : Status → Bool
is_terminal succeeded = true
is_terminal failed = true
is_terminal canceled = true
is_terminal interrupted = true
is_terminal _ = false

-- `First(&task, "id = ?", id)`
abbrev pub find_task : ℕ → List SoftwareTask → Option SoftwareTask
find_task id ts = find? (λ t. t.id == id) ts

-- `Save(&task)`: the row with the task's id is replaced.
unfoldable pub save_task : SoftwareTask → List SoftwareTask → List SoftwareTask
save_task t [] = []
save_task t (u ∷ ts) = (if u.id == t.id then t else u) ∷ save_task t ts
