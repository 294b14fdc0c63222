-- ===== src/SoftwareTask/Examples.antt =====
-- Runs of the reporter of internal/services/softwaretask on one task.
use oneinstack_panel.Common.{ℕ, ◌≡◌, refl, arith, false, Option, none, some, List, [], ◌∷◌}
use oneinstack_panel.Common.Int.{ℤ}
use oneinstack_panel.Text.{codes}
use oneinstack_panel.SoftwareTask.{
  Status, RollbackStatus, Operation, Phase, SoftwareTask, TaskDb, find_task,
}
use oneinstack_panel.SoftwareTask.Reports.{Report, report, run_reports}
use oneinstack_panel.SoftwareTask.Phases.{normalize_action_phase, phase_range}
use oneinstack_panel.SoftwareTask.Reporter.{publish}
use oneinstack_panel.SoftwareTask.Later.{
  IsConsistent, IsLater, run_reports-IsConsistent, run_reports-IsLater,
}

abbrev nginx_task : SoftwareTask
nginx_task = record {
  id = 7;
  operation = Operation.install;
  component = codes "nginx";
  software_key = codes "nginx";
  requested_version = codes "1.26";
  resolved_version = [];
  package_source = [];
  status = Status.queued;
  phase = Phase.of_status Status.queued;
  phase_progress = none;
  progress = 0;
  message = [];
  error_code = [];
  error_message = [];
  failure_phase = none;
  rollback_status = RollbackStatus.not_required;
  recovery_status = [];
  recovery_message = [];
  requested_by = 1;
  cancel_requested = false;
  event_seq = 0;
  started_at = none;
  heartbeat_at = none;
  finished_at = none;
  created_at = 100;
  updated_at = 100;
}

abbrev one_task : TaskDb
one_task = record { tasks = nginx_task ∷ []; events = []; locks = []; history = [] }

-- A start, a progress beyond 100, the end, and a call after the end.
abbrev calls : List (ℕ × ℕ × Report)
calls =
    (101, 7, Report.action_start (codes "install"))
    ∷ (102, 7, Report.action_progress (codes "install") (ℤ.pos 250) [] [])
    ∷ (103, 7, Report.finished Status.succeeded [] (codes "ok"))
    ∷ (104, 7, Report.action_start (codes "verify"))
    ∷ []

one_task-IsConsistent : IsConsistent one_task
one_task-IsConsistent = record {
  sound = (
    record { bounded = omega arith; complete = λ e. ground arith; ended = λ e. ground arith },
    tt,
  );
  numbered = (record { counts = tt; latest = refl }, tt);
}

run_reports-IsConsistent_example : IsConsistent (run_reports calls one_task)
run_reports-IsConsistent_example = run_reports-IsConsistent calls one_task one_task-IsConsistent

run_reports-IsLater_example :
    (t : SoftwareTask) × (find_task 7 (run_reports calls one_task).tasks ≡ some t)
    × IsLater nginx_task t
run_reports-IsLater_example = run_reports-IsLater calls one_task 7 nginx_task refl

abbrev seen : Option SoftwareTask → Option (ℕ × Status)
seen none = none
seen (some t) = some (t.progress, t.status)

-- The call after the end changes nothing.
calls_outcome : seen (find_task 7 (run_reports calls one_task).tasks) ≡ some (100, Status.succeeded)
unfolding run_reports report normalize_action_phase phase_range publish
calls_outcome = refl
