-- ===== src/SoftwareTask/Reports.antt =====
-- internal/services/softwaretask/reporter.go: the calls of a running task's reporter.
use oneinstack_panel.Common.{
  ℕ, Bool, true, false, ◌&&◌, Option, none, some, List, [], ◌∷◌, ◌++◌, leb, if◌then◌else◌,
}
use oneinstack_panel.Common.Int.{ℤ, pos_part}
use oneinstack_panel.Text.{Text, codes, is_empty, trim_space}
use oneinstack_panel.SoftwareTask.{Status, RollbackStatus, Phase, EventType, Level, TaskDb}
use oneinstack_panel.SoftwareTask.Phases.{
  PhaseRange, phase_range, normalize_action_phase, progress_at,
}
use oneinstack_panel.SoftwareTask.Reporter.{TaskUpdate, no_update, EventData, publish}

-- `eventTypeForProgress`
unfoldable pub event_type_for_progress : Option ℕ → EventType
event_type_for_progress none = EventType.phase
event_type_for_progress (some p) = EventType.progress

-- The update of `setPhase`, within the range of the phase.
unfoldable pub phase_update : PhaseRange → Phase → Option ℕ → Text → TaskUpdate
phase_update spec phase phase_progress message = record no_update {
  status = some spec.status;
  phase = some phase;
  phase_progress = phase_progress;
  progress = some (progress_at spec phase_progress);
  message = message;
  start_task = true;
}

-- `setPhase`: an unknown phase is an error.
unfoldable pub set_phase : ℕ → ℕ → Phase → Option ℕ → Text → Text → TaskDb → Option TaskDb
unfolding phase_update event_type_for_progress
set_phase now id phase phase_progress message code db = elim (phase_range phase) [
  | none ↦ none
  | some spec ↦
      publish now id (phase_update spec phase phase_progress message)
        (record {
          event_type = event_type_for_progress phase_progress;
          level = Level.info;
          phase_progress = phase_progress;
          code = code;
          message = message;
        })
        db
]

abbrev is_succeeded : Status → Bool
is_succeeded Status.succeeded = true
is_succeeded _ = false

abbrev is_failed_or_canceled : Status → Bool
is_failed_or_canceled Status.failed = true
is_failed_or_canceled Status.canceled = true
is_failed_or_canceled _ = false

-- The update of `finish`.
unfoldable pub finish_update : ℕ → Status → Text → Text → TaskUpdate
finish_update now status error_code message = record no_update {
  status = some status;
  phase = some (Phase.of_status status);
  message = message;
  error_code = error_code;
  finished_at = some now;
  progress = if is_succeeded status then some 100 else none;
  phase_progress = if is_succeeded status then some 100 else none;
  error_message = if is_failed_or_canceled status then message else [];
  set_failure_phase = is_failed_or_canceled status;
}

unfoldable pub finish : ℕ → ℕ → Status → Text → Text → TaskDb → Option TaskDb
unfolding finish_update
finish now id status error_code message db =
    publish now id (finish_update now status error_code message)
      (record {
        event_type = EventType.terminal;
        level = if is_succeeded status then Level.info else Level.error;
        phase_progress = none;
        code = error_code;
        message = message;
      })
      db

-- `if percent < 0 { percent = 0 }; if percent > 100 { percent = 100 }`
unfoldable pub clamp_percent : ℤ → ℕ
clamp_percent z = let n = pos_part z in if leb n 100 then n else 100

-- The calls that an executor makes, and those of `Manager.run`, with their arguments.
pub data Report : Type 0 where
  action_start : Text → Report
  package_resolved : Text → Text → Report
  action_progress : Text → ℤ → Text → Text → Report
  action_complete : Text → Report
  rollback_start : Report
  rollback_complete : Option Text → Report
  resolving_set : Text → Report
  finalizing_set : Report
  finished : Status → Text → Text → Report

-- An error of the transaction is dropped: `_ = r.setPhase(…)`.
abbrev pub ignored : TaskDb → Option TaskDb → TaskDb
ignored db none = db
ignored db (some db') = db'

abbrev label_of : Option PhaseRange → Text
label_of none = []
label_of (some spec) = spec.label

abbrev source_suffix : Text → Text
source_suffix [] = []
source_suffix (c ∷ s) = codes "（" ++ (c ∷ s) ++ codes "）"

abbrev version_suffix : Text → Text
version_suffix [] = []
version_suffix (c ∷ s) = codes " " ++ (c ∷ s)

-- The calls with an action, at the phase that the action stands for; an unknown one does nothing.
unfoldable pub on_action_start : ℕ → ℕ → Text → Option Phase → TaskDb → TaskDb
unfolding set_phase
on_action_start now id action none db = db
on_action_start now id action (some ph) db = ignored db (
    set_phase now id ph none (codes "正在" ++ label_of (phase_range ph)) (action ++ codes "_started")
      db)

unfoldable pub on_action_progress : ℕ → ℕ → Option Phase → ℤ → Text → Text → TaskDb → TaskDb
unfolding set_phase clamp_percent
on_action_progress now id none percent code message db = db
on_action_progress now id (some ph) percent code message db =
    let text =
      if is_empty (trim_space message) then codes "正在" ++ label_of (phase_range ph) else message in
    ignored db (set_phase now id ph (some (clamp_percent percent)) text code db)

unfoldable pub on_action_complete : ℕ → ℕ → Text → Option Phase → TaskDb → TaskDb
unfolding set_phase
on_action_complete now id action none db = db
on_action_complete now id action (some ph) db = ignored db (
    set_phase now id ph (some 100) (label_of (phase_range ph) ++ codes "完成")
      (action ++ codes "_completed") db)

unfoldable pub on_package_resolved : ℕ → ℕ → Text → Text → TaskDb → TaskDb
on_package_resolved now id given_version given_source db =
    let version = trim_space given_version in
    let source = trim_space given_source in
    if is_empty version && is_empty source
    then db
    else ignored db (
        publish now id (record no_update { resolved_version = version; package_source = source })
          (record {
            event_type = EventType.resolved_package;
            level = Level.info;
            phase_progress = none;
            code = codes "package_resolved";
            message = codes "已解析组件脚本包" ++ version_suffix version ++ source_suffix source;
          })
          db)

abbrev pub rollback_start_update : TaskUpdate
rollback_start_update = record no_update {
  status = some Status.rolling_back;
  phase = some (Phase.of_status Status.rolling_back);
  message = codes "安装失败，正在回滚变更";
  rollback_status = some RollbackStatus.running;
}

unfoldable pub on_rollback_start : ℕ → ℕ → TaskDb → TaskDb
on_rollback_start now id db = ignored db (
    publish now id rollback_start_update
      (record {
        event_type = EventType.phase;
        level = Level.warning;
        phase_progress = none;
        code = codes "rollback_started";
        message = codes "安装失败，正在回滚变更";
      })
      db)

-- The update of `OnRollbackComplete`; the error's text has passed `safeErrorMessage`.
unfoldable pub rollback_update : Option Text → TaskUpdate
rollback_update none = record no_update {
  message = codes "回滚完成";
  rollback_status = some RollbackStatus.succeeded;
}
rollback_update (some error) = record no_update {
  message = codes "回滚失败：" ++ error;
  rollback_status = some RollbackStatus.failed;
  recovery_status = codes "recovery_required";
  recovery_message = codes "自动回滚失败；已保留迁移快照，请根据任务日志执行恢复";
}

abbrev rollback_event : Option Text → EventData
rollback_event none = record {
  event_type = EventType.warning;
  level = Level.warning;
  phase_progress = none;
  code = codes "rollback_completed";
  message = codes "回滚完成";
}
rollback_event (some error) = record {
  event_type = EventType.warning;
  level = Level.error;
  phase_progress = none;
  code = codes "rollback_failed";
  message = codes "回滚失败：" ++ error;
}

-- One call of the reporter of the task `id`, at the time `now`.
unfoldable pub report : ℕ → ℕ → Report → TaskDb → TaskDb
unfolding on_action_start on_action_progress on_action_complete on_package_resolved
    on_rollback_start set_phase finish
report now id (action_start action) db =
    on_action_start now id action (normalize_action_phase action) db
report now id (package_resolved version source) db = on_package_resolved now id version source db
report now id (action_progress action percent code message) db =
    on_action_progress now id (normalize_action_phase action) percent code message db
report now id (action_complete action) db =
    on_action_complete now id action (normalize_action_phase action) db
report now id rollback_start db = on_rollback_start now id db
report now id (rollback_complete error) db =
    ignored db (publish now id (rollback_update error) (rollback_event error) db)
report now id (resolving_set message) db =
    ignored db (set_phase now id Phase.resolving none message (codes "package_resolving") db)
report now id finalizing_set db =
    ignored db
      (set_phase now id Phase.finalizing (some 0) (codes "正在保存任务状态") (codes "task_finalizing") db)
report now id (finished status code message) db = ignored db (finish now id status code message db)

-- A run of calls, each with its time and the task that it is about.
unfoldable pub run_reports : List (ℕ × ℕ × Report) → TaskDb → TaskDb
run_reports [] db = db
run_reports ((now, id, r) ∷ rs) db = run_reports rs (report now id r db)
