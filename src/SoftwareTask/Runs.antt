-- ===== src/SoftwareTask/Runs.antt =====
-- Runs of the manager of internal/services/softwaretask on one component.
use oneinstack_panel.Common.{
  ℕ, ◌+◌, ◌≡◌, ◌≤◌, ◌⊎◌, refl, Bool, true, false, Option, none, some, List, [], ◌∷◌, length,
}
use oneinstack_panel.Text.{Text, codes}
use oneinstack_panel.SoftwareTask.{Status, SoftwareTask, Operation, find_task, is_terminal}
use oneinstack_panel.SoftwareTask.Phases.{phase_range}
use oneinstack_panel.SoftwareTask.Submit.{InstallRequest, SubmitError, component_active, queue_full}
use oneinstack_panel.SoftwareTask.World.{
  Stage, Manager, refused, accepted, submit, task_of, queue_size,
}
use oneinstack_panel.SoftwareTask.Cancel.{settle_cancel, request_cancel}
use oneinstack_panel.SoftwareTask.Workers.{success, conclude, check}
use oneinstack_panel.SoftwareTask.Restart.{RecoveryInspection, restart}
use oneinstack_panel.SoftwareTask.Steps.{
  Step, submit_step, take_step, register_step, check_step, lock_step, resolve_step, step, run,
}
use oneinstack_panel.SoftwareTask.Exclusive.{OneActive}
use oneinstack_panel.SoftwareTask.Moves.{run-OneActive}
use oneinstack_panel.SoftwareTask.OneHolder.{Held, run-one_holder}
use oneinstack_panel.SoftwareTask.Ends.{IsEnded, conclude-IsEnded}
use oneinstack_panel.SoftwareTask.Settled.{cancel-lost, restart-is_terminal, IsStuck}
use oneinstack_panel.SoftwareTask.Canceled.{cancel-IsEnded}
use oneinstack_panel.SoftwareTask.Accepted.{IsAccepted, submit_cases}

abbrev redis_request : InstallRequest
redis_request = record {
  operation = [];
  key = codes " redis ";
  version = codes "7.2";
  revision = [];
  previous_configuration = [];
  configuration = [];
  restore_from_id = [];
}

abbrev fresh : Manager
fresh = record {
  db = record { tasks = []; events = []; locks = []; history = [] };
  software = [];
  catalog_revision = none;
  queue = [];
  workers = [];
  cancels = [];
  canceling = [];
  stopping = false;
}

abbrev no_uuid : Text → Bool
no_uuid s = false

-- Two submissions, and the worker of the first.
abbrev to_registered : List Step
to_registered =
    submit_step 1 100 5 redis_request
    ∷ submit_step 2 101 5 redis_request
    ∷ take_step
    ∷ register_step 1
    ∷ []

abbrev to_executing : List Step
to_executing =
    submit_step 1 100 5 redis_request
    ∷ take_step
    ∷ register_step 1
    ∷ check_step 1
    ∷ lock_step 102 1
    ∷ resolve_step 103 1
    ∷ []

abbrev registered : Manager
registered = run no_uuid to_registered fresh

abbrev executing : Manager
executing = run no_uuid to_executing fresh

abbrev queued_row : SoftwareTask
queued_row = task_of 1 100 5 (record {
  component = codes "redis";
  key = codes "redis";
  operation = Operation.install;
  version = codes "7.2";
})

abbrev row_or : SoftwareTask → Option SoftwareTask → SoftwareTask
row_or t none = t
row_or t (some u) = u

-- The row of the task that executes.
abbrev executing_row : SoftwareTask
executing_row = row_or queued_row (find_task 1 executing.db.tasks)

fresh-OneActive : OneActive fresh.db
fresh-OneActive i j t u e = absurd (cc e)

fresh-Held : Held fresh
fresh-Held id w e = absurd (cc e)

-- The second submission is refused.
second_refused :
    submit no_uuid 2 101 5 redis_request
      (run no_uuid (submit_step 1 100 5 redis_request ∷ []) fresh)
    ≡ refused component_active (run no_uuid (submit_step 1 100 5 redis_request ∷ []) fresh)
unfolding run step submit
second_refused = refl

submit_cases_example :
    ((t : SoftwareTask) × (m' : Manager) × (submit no_uuid 1 100 5 redis_request fresh
        ≡ accepted t m')
      × IsAccepted 1 5 redis_request fresh t m')
    ⊎ ((e : SubmitError) × (submit no_uuid 1 100 5 redis_request fresh ≡ refused e fresh))
    ⊎ ((m' : Manager) × (submit no_uuid 1 100 5 redis_request fresh ≡ refused queue_full m')
        × (queue_size ≤ length fresh.queue)
        × (m'.queue ≡ fresh.queue)
        × IsEnded 1 m'.db)
submit_cases_example = submit_cases no_uuid 1 100 5 redis_request fresh

run-OneActive_example : ◌≡◌ {A = ℕ} 1 1
unfolding run step task_of phase_range
run-OneActive_example =
    run-OneActive no_uuid to_registered fresh fresh-OneActive 1 1 queued_row queued_row refl refl
      refl refl refl

run-one_holder_example : ◌≡◌ {A = ℕ} 1 1
unfolding run step task_of phase_range
run-one_holder_example =
    run-one_holder no_uuid to_executing fresh fresh-Held 1 1
      (record { task = queued_row; stage = Stage.executing })
      (record { task = queued_row; stage = Stage.executing }) refl refl refl refl refl

conclude-IsEnded_example : IsEnded 1 (conclude 110 1 success executing).db
unfolding run step task_of phase_range
conclude-IsEnded_example =
    conclude-IsEnded 110 1 success executing (record { task = queued_row; stage = Stage.executing })
      executing_row refl refl refl

-- Between the two halves the task is taken from the queue, and skipped.
abbrev between_halves : List Step
between_halves = take_step ∷ []

cancel-IsEnded_example :
    IsEnded 1
      (settle_cancel 106 1 (
        run no_uuid between_halves
          (request_cancel 105 1 (run no_uuid (submit_step 1 100 5 redis_request ∷ []) fresh)))).db
unfolding run step task_of phase_range
cancel-IsEnded_example =
    cancel-IsEnded no_uuid between_halves 105 106 1
      (run no_uuid (submit_step 1 100 5 redis_request ∷ []) fresh) queued_row refl refl refl

cancel-lost_example : IsStuck 1 (check 1 (settle_cancel 106 1 (request_cancel 105 1 registered)))
unfolding run step task_of phase_range
cancel-lost_example =
    cancel-lost 105 106 1 registered (record { task = queued_row; stage = Stage.registered })
      queued_row refl refl refl refl refl

abbrev inspect : SoftwareTask → RecoveryInspection
inspect t = record { status = codes "stopped"; message = codes "服务未运行" }

restart-is_terminal_example :
    (u : SoftwareTask) × (find_task 1 (restart 200 inspect executing).db.tasks ≡ some u)
    × (is_terminal u.status ≡ true)
    × ((is_terminal executing_row.status ≡ true) × (u ≡ executing_row)
        ⊎ (is_terminal executing_row.status ≡ false)
          × (u.status ≡ Status.interrupted)
          × (u.event_seq ≡ executing_row.event_seq + 1)
          × (u.finished_at ≡ some 200))
unfolding run step task_of phase_range
restart-is_terminal_example = restart-is_terminal 200 inspect 1 executing executing_row refl
