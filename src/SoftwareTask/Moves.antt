-- ===== src/SoftwareTask/Moves.antt =====
-- The steps of internal/services/softwaretask, and the active tasks of a component.
use oneinstack_panel.Common.{
  ℕ, ◌≡◌, refl, Bool, true, false, ◌||◌, Option, none, some, List, [], ◌∷◌, Bool-cases,
  Option-cases, inl, inr, if_cases,
}
use oneinstack_panel.Text.{Text, codes}
use oneinstack_panel.SoftwareTask.{Status, Phase, SoftwareTask, TaskDb, is_terminal, find_task}
use oneinstack_panel.SoftwareTask.Reporter.{publish}
use oneinstack_panel.SoftwareTask.Reports.{Report, ignored, set_phase}
use oneinstack_panel.SoftwareTask.World.{Stage, Worker, Manager}
use oneinstack_panel.SoftwareTask.Cancel.{
  after_request, request_cancel, settle_cancel, cancel_update, cancel_event,
}
use oneinstack_panel.SoftwareTask.Workers.{
  find_worker, at_stage, is_entered, is_registered, is_checked, is_locked, is_executing,
  is_concluded, is_executors, take_next, take, after_resolving, register, check, lock, resolve,
  execute, Outcome, return_executor, deliver_next, deliver, release, is_cancel_requested, leave,
  acquire_component_lock, has_id, resolving_message,
}
use oneinstack_panel.SoftwareTask.Progress.{
  IsProgress, IsProgress-same, publish-IsProgress, finish-IsProgress, set_phase-IsProgress,
  report-IsProgress, touch-IsProgress, restart-IsProgress,
}
use oneinstack_panel.SoftwareTask.Exclusive.{OneActive, IsProgress-OneActive, submit-OneActive}
use oneinstack_panel.SoftwareTask.Steps.{
  Step, submit_step, take_step, register_step, check_step, release_step, lock_step, resolve_step,
  request_cancel_step, settle_cancel_step, touch_step, execute_step, return_step, deliver_step,
  write_software, stop_step, restart_step, step, run,
}

-- A worker's step does nothing, or what it does at its stage.
pub at_stage_cases :
    (P : Manager → Type 0) (id : ℕ) (go : Worker → Manager) (m : Manager) (test : Stage → Bool)
    → P m
    → ((w : Worker) → find_worker id m.workers ≡ some w → test w.stage ≡ true → P (go w))
    → P (at_stage id go m test)
at_stage_cases P id go m test idle act = elim (Option-cases (find_worker id m.workers)) [
  | inl missing ↦ rw (missing, at_stage) idle
  | inr (w, here) ↦ elim (Bool-cases (test w.stage)) [
    | inl yes' ↦ rw (here, yes', at_stage) (act w here yes')
    | inr no' ↦ rw (here, no', at_stage) idle
  ]
]

module _ (m : Manager) where
  -- The manager's tables after a step went on from those before.
  abbrev pub GoesOn : Manager → Type 0
  GoesOn m' = IsProgress m.db m'.db

  same : IsProgress m.db m.db
  same = IsProgress-same m.db m.db refl

  take_next-GoesOn : (q : List ℕ) → GoesOn (take_next q m)
  unfolding take_next
  take_next-GoesOn [] = same
  take_next-GoesOn (id ∷ rest) = elim (Option-cases (find_task id m.db.tasks)) [
    | inl missing ↦ rw (missing, take_next) same
    | inr (t, here) ↦ elim (Bool-cases (is_terminal t.status || t.cancel_requested)) [
      | inl over ↦ rw (here, over, take_next) same
      | inr live ↦ rw (here, live, take_next) same
    ]
  ]

  pub take-GoesOn : GoesOn (take m)
  unfolding take
  take-GoesOn = if_cases GoesOn m.stopping m (take_next m.queue m) same (take_next-GoesOn m.queue)

  pub register-GoesOn : (id : ℕ) → GoesOn (register id m)
  unfolding register
  register-GoesOn id = at_stage_cases GoesOn id _ m is_entered same (λ w e o. same)

  pub check-GoesOn : (id : ℕ) → GoesOn (check id m)
  unfolding check leave
  check-GoesOn id = at_stage_cases GoesOn id _ m is_registered same (λ w e o.
      elim (Bool-cases (is_cancel_requested id m.db)) [
        | inl asked ↦ rw asked same
        | inr free ↦ rw free same
      ])

  pub lock-GoesOn : (now id : ℕ) → GoesOn (lock now id m)
  unfolding lock leave
  lock-GoesOn now id = at_stage_cases GoesOn id _ m is_checked same (λ w e o.
      elim (Option-cases (acquire_component_lock now w.task m.db.locks)) [
        | inr (locks, got) ↦ rw got (IsProgress-same m.db _ refl)
        | inl busy ↦ rw busy (finish-IsProgress now id Status.failed _ _ m.db)
      ])

  after_resolving-GoesOn :
      (id : ℕ) (o : Option TaskDb)
      → IsProgress m.db (ignored m.db o)
      → GoesOn (after_resolving id m o)
  unfolding after_resolving
  after_resolving-GoesOn id none k = same
  after_resolving-GoesOn id (some db) k = k

  pub resolve-GoesOn : (now id : ℕ) → GoesOn (resolve now id m)
  unfolding resolve
  resolve-GoesOn now id = at_stage_cases GoesOn id _ m is_locked same (λ w e o.
      after_resolving-GoesOn id
        (set_phase now id Phase.resolving none (resolving_message w.task.operation)
          (codes "package_resolving") m.db)
        (set_phase-IsProgress now id Phase.resolving none (resolving_message w.task.operation)
          (codes "package_resolving") m.db))

  pub execute-GoesOn : (now id : ℕ) (r : Report) → GoesOn (execute now id r m)
  unfolding execute
  execute-GoesOn now id r = at_stage_cases GoesOn id _ m is_executing same (λ w e o.
      elim (Bool-cases (is_executors r)) [
        | inl own ↦ rw own (report-IsProgress now id r m.db)
        | inr other ↦ rw other same
      ])

  pub return_executor-GoesOn : (id : ℕ) (o : Outcome) → GoesOn (return_executor id o m)
  unfolding return_executor
  return_executor-GoesOn id outcome = at_stage_cases GoesOn id _ m is_executing same (λ w e o. same)

  deliver_next-GoesOn : (now id : ℕ) (s : Stage) → GoesOn (deliver_next now id s m)
  deliver_next-GoesOn now id (Stage.reporting (r ∷ rs)) = report-IsProgress now id r m.db
  deliver_next-GoesOn now id (Stage.reporting []) = same
  deliver_next-GoesOn now id Stage.entered = same
  deliver_next-GoesOn now id Stage.registered = same
  deliver_next-GoesOn now id Stage.checked = same
  deliver_next-GoesOn now id Stage.locked = same
  deliver_next-GoesOn now id Stage.executing = same
  deliver_next-GoesOn now id Stage.concluded = same

  pub deliver-GoesOn : (now id : ℕ) → GoesOn (deliver now id m)
  unfolding deliver
  deliver-GoesOn now id = elim (Option-cases (find_worker id m.workers)) [
    | inl missing ↦ rw (missing, deliver) same
    | inr (w, here) ↦ rw (here, deliver) (deliver_next-GoesOn now id w.stage)
  ]

  pub release-GoesOn : (id : ℕ) → GoesOn (release id m)
  unfolding release leave
  release-GoesOn id =
      at_stage_cases GoesOn id _ m is_concluded same (λ w e o. IsProgress-same m.db _ refl)

  after_request-GoesOn :
      (id : ℕ) (o : Option TaskDb)
      → IsProgress m.db (ignored m.db o)
      → GoesOn (after_request id m o)
  unfolding after_request
  after_request-GoesOn id none k = same
  after_request-GoesOn id (some db) k = k

  pub request_cancel-GoesOn : (now id : ℕ) → GoesOn (request_cancel now id m)
  unfolding request_cancel
  request_cancel-GoesOn now id = elim (Option-cases (find_task id m.db.tasks)) [
    | inl missing ↦ rw (missing, request_cancel) same
    | inr (t, here) ↦ elim (Bool-cases (is_terminal t.status)) [
      | inl over ↦ rw (here, over, request_cancel) same
      | inr live ↦
          rw (here, live, request_cancel)
            (after_request-GoesOn id (publish now id (cancel_update t.operation) cancel_event m.db)
              (publish-IsProgress now id (cancel_update t.operation) cancel_event m.db))
    ]
  ]

  pub settle_cancel-GoesOn : (now id : ℕ) → GoesOn (settle_cancel now id m)
  unfolding settle_cancel
  settle_cancel-GoesOn now id = elim (Bool-cases (has_id id m.canceling)) [
    | inr idle ↦ rw (idle, settle_cancel) same
    | inl due ↦ elim (Bool-cases (has_id id m.cancels)) [
      | inl runs ↦ rw (due, runs, settle_cancel) same
      | inr waits ↦ elim (Option-cases (find_task id m.db.tasks)) [
        | inl missing ↦ rw (due, waits, missing, settle_cancel) same
        | inr (t, here) ↦
            rw (due, waits, here, settle_cancel) (finish-IsProgress now id Status.canceled _ _ m.db)
      ]
    ]
  ]

step-OneActive :
    (is_uuid : Text → Bool) (s : Step) (m : Manager)
    → OneActive m.db
    → OneActive (step is_uuid s m).db
unfolding step
step-OneActive is_uuid (submit_step id now by r) m = submit-OneActive is_uuid id now by r m
step-OneActive is_uuid take_step m = IsProgress-OneActive _ _ (take-GoesOn m)
step-OneActive is_uuid (register_step id) m = IsProgress-OneActive _ _ (register-GoesOn m id)
step-OneActive is_uuid (check_step id) m = IsProgress-OneActive _ _ (check-GoesOn m id)
step-OneActive is_uuid (release_step id) m = IsProgress-OneActive _ _ (release-GoesOn m id)
step-OneActive is_uuid (lock_step now id) m = IsProgress-OneActive _ _ (lock-GoesOn m now id)
step-OneActive is_uuid (resolve_step now id) m = IsProgress-OneActive _ _ (resolve-GoesOn m now id)
step-OneActive is_uuid (request_cancel_step now id) m =
    IsProgress-OneActive _ _ (request_cancel-GoesOn m now id)
step-OneActive is_uuid (settle_cancel_step now id) m =
    IsProgress-OneActive _ _ (settle_cancel-GoesOn m now id)
step-OneActive is_uuid (touch_step now id) m =
    IsProgress-OneActive _ _ (touch-IsProgress now id m.db)
step-OneActive is_uuid (execute_step now id r) m =
    IsProgress-OneActive _ _ (execute-GoesOn m now id r)
step-OneActive is_uuid (return_step id o) m =
    IsProgress-OneActive _ _ (return_executor-GoesOn m id o)
step-OneActive is_uuid (deliver_step now id) m = IsProgress-OneActive _ _ (deliver-GoesOn m now id)
step-OneActive is_uuid (write_software rows) m = λ one. one
step-OneActive is_uuid stop_step m = λ one. one
step-OneActive is_uuid (restart_step now inspector) m =
    IsProgress-OneActive _ _ (restart-IsProgress now inspector m)

-- Whatever steps the callers and the workers take, in whatever order, a component never has two
-- active tasks, if it had none at the start.
pub run-OneActive :
    (is_uuid : Text → Bool) (ss : List Step) (m : Manager)
    → OneActive m.db
    → (i j : ℕ) (t u : SoftwareTask) → find_task i (run is_uuid ss m).db.tasks ≡ some t
    → find_task j (run is_uuid ss m).db.tasks ≡ some u
    → is_terminal t.status ≡ false
    → is_terminal u.status ≡ false
    → t.component ≡ u.component
    → i ≡ j
unfolding run
run-OneActive is_uuid [] m one = one
run-OneActive is_uuid (s ∷ ss) m one =
    run-OneActive is_uuid ss (step is_uuid s m) (step-OneActive is_uuid s m one)
