-- ===== src/SoftwareTask/OneHolder.antt =====
-- The steps of internal/services/softwaretask, and the locks that its workers hold.
use mathlib.Core.Path.{subst}
use oneinstack_panel.Common.{
  ℕ, ◌≡◌, refl, sym, ◌∙◌, Bool, true, ◌||◌, Option, none, some, List, [], ◌∷◌, Bool-cases,
  Option-cases, inl, inr, if_cases, some_inj, ltb, length,
}
use oneinstack_panel.Text.{Text, codes}
use oneinstack_panel.SoftwareTask.{
  Status, Phase, SoftwareTask, TaskDb, OperationLock, is_terminal, find_task,
}
use oneinstack_panel.SoftwareTask.Reporter.{publish}
use oneinstack_panel.SoftwareTask.Reports.{Report, report, ignored}
use oneinstack_panel.SoftwareTask.Submit.{InstallRequest, plan}
use oneinstack_panel.SoftwareTask.World.{
  Stage, Worker, Manager, queue_size, task_of, insert_task, enqueue, submit, after,
}
use oneinstack_panel.SoftwareTask.Cancel.{
  after_request, request_cancel, settle_cancel, touch, cancel_update, cancel_event,
}
use oneinstack_panel.SoftwareTask.Workers.{
  find_worker, set_stage, drop_worker, is_entered, is_registered, is_checked, is_locked,
  is_executing, is_concluded, is_executors, take_next, take, after_resolving, register, check, lock,
  resolve, execute, Outcome, return_executor, deliver_next, deliver, release, is_cancel_requested,
  leave, acquire_component_lock, has_id, resolving_message,
}
use oneinstack_panel.SoftwareTask.Restart.{restart}
use oneinstack_panel.SoftwareTask.Planned.{Checked-cases}
use oneinstack_panel.SoftwareTask.Exclusive.{insert_task-tasks}
use oneinstack_panel.SoftwareTask.Moves.{at_stage_cases}
use oneinstack_panel.SoftwareTask.Holders.{
  publish-locks, finish-locks, set_phase-locks, report-locks,
}
use oneinstack_panel.SoftwareTask.Locked.{
  holds, HoldLocks, drop_worker-HoldLocks, enter-HoldLocks, set_stage-HoldLocks, lock-HoldLocks,
  release-HoldLocks, HoldLocks-one,
}
use oneinstack_panel.SoftwareTask.Steps.{
  Step, submit_step, take_step, register_step, check_step, release_step, lock_step, resolve_step,
  request_cancel_step, settle_cancel_step, touch_step, execute_step, return_step, deliver_step,
  write_software, stop_step, restart_step, step, run,
}

-- The workers at work have the locks of their components.
abbrev pub Held : Manager → Type 0
Held m = HoldLocks m.workers m.db.locks

enqueue_tables :
    (now : ℕ) (t : SoftwareTask) (m : Manager)
    → ((after (enqueue now t m)).workers ≡ m.workers)
      × ((after (enqueue now t m)).db.locks ≡ m.db.locks)
unfolding enqueue
enqueue_tables now t m = elim (Bool-cases (ltb (length m.queue) queue_size)) [
  | inl room ↦ rw (room, enqueue) (refl, refl)
  | inr full ↦ rw (full, enqueue) (refl, finish-locks now t.id Status.failed _ _ m.db)
]

resolving_holds : (s : Stage) → is_locked s ≡ true → holds s ≡ true
resolving_holds Stage.locked o = refl
resolving_holds Stage.entered o = absurd (cc o)
resolving_holds Stage.registered o = absurd (cc o)
resolving_holds Stage.checked o = absurd (cc o)
resolving_holds Stage.executing o = refl
resolving_holds Stage.concluded o = refl
resolving_holds (Stage.reporting rs) o = refl

executing_holds : (s : Stage) → is_executing s ≡ true → holds s ≡ true
executing_holds Stage.locked o = refl
executing_holds Stage.entered o = absurd (cc o)
executing_holds Stage.registered o = absurd (cc o)
executing_holds Stage.checked o = absurd (cc o)
executing_holds Stage.executing o = refl
executing_holds Stage.concluded o = refl
executing_holds (Stage.reporting rs) o = refl

module _ (m : Manager) (held : Held m) where
  kept :
      (ws : List Worker) (ls : List OperationLock)
      → ws ≡ m.workers
      → ls ≡ m.db.locks
      → HoldLocks ws ls
  kept ws ls same locks =
      subst (HoldLocks ws) (sym locks) (subst (λ x. HoldLocks x m.db.locks) (sym same) held)

  -- The workers of a later state, over tables that wrote no lock.
  over :
      (ws : List Worker) (ls : List OperationLock)
      → ls ≡ m.db.locks
      → HoldLocks ws m.db.locks
      → HoldLocks ws ls
  over ws ls same h = subst (HoldLocks ws) (sym same) h

  submit-Held :
      (is_uuid : Text → Bool) (id now by : ℕ) (r : InstallRequest)
      → Held (after (submit is_uuid id now by r m))
  unfolding submit
  submit-Held is_uuid id now by r =
      elim (Checked-cases (plan is_uuid m.stopping m.catalog_revision m.software m.db.tasks by r)) [
        | inl (e, no_plan) ↦ rw (no_plan, submit) held
        | inr (p, made) ↦ elim (Option-cases (insert_task now (task_of id now by p) m.db)) [
          | inl taken ↦ rw (made, taken, submit) held
          | inr (db1, written) ↦
              let (ws, ls) = enqueue_tables now (task_of id now by p) (record m { db = db1 }) in
              rw (made, written, submit)
                (kept _ _ ws
                  (ls ∙ (insert_task-tasks now (task_of id now by p) m.db db1 written).1))
        ]
      ]

  take_next-Held : (q : List ℕ) → Held (take_next q m)
  unfolding take_next
  take_next-Held [] = held
  take_next-Held (id ∷ rest) = elim (Option-cases (find_task id m.db.tasks)) [
    | inl missing ↦ rw (missing, take_next) held
    | inr (t, here) ↦ elim (Bool-cases (is_terminal t.status || t.cancel_requested)) [
      | inl ended ↦ rw (here, ended, take_next) held
      | inr live ↦ rw (here, live, take_next) (enter-HoldLocks m.workers m.db.locks t held)
    ]
  ]

  take-Held : Held (take m)
  unfolding take
  take-Held = if_cases Held m.stopping m (take_next m.queue m) held (take_next-Held m.queue)

  dropped :
      (id : ℕ) (ls : List OperationLock) → ls ≡ m.db.locks → HoldLocks (drop_worker id m.workers) ls
  dropped id ls same = over _ ls same (drop_worker-HoldLocks m.workers m.db.locks id held)

  -- A worker goes on to a stage at which it holds a lock only if it held it before.
  goes :
      (id : ℕ) (s : Stage) (w : Worker)
      → find_worker id m.workers ≡ some w
      → (holds s ≡ true → holds w.stage ≡ true)
      → (ls : List OperationLock) → ls ≡ m.db.locks
      → HoldLocks (set_stage id s m.workers) ls
  goes id s w e k ls same = over _ _ same (
      set_stage-HoldLocks m.workers m.db.locks id s
        (λ v e' o. subst (λ x. holds x.stage ≡ true) (some_inj (sym e ∙ e')) (k o)) held)

  register-Held : (id : ℕ) → Held (register id m)
  unfolding register
  register-Held id =
      at_stage_cases Held id _ m is_entered held
        (λ w e o. goes id Stage.registered w e (λ no'. absurd (cc no')) m.db.locks refl)

  check-Held : (id : ℕ) → Held (check id m)
  unfolding check leave
  check-Held id = at_stage_cases Held id _ m is_registered held (λ w e o.
      if_cases Held (is_cancel_requested id m.db) (leave id m)
        (record m { workers = set_stage id Stage.checked m.workers }) (dropped id m.db.locks refl)
        (goes id Stage.checked w e (λ no'. absurd (cc no')) m.db.locks refl))

  lock-Held : (now id : ℕ) → Held (lock now id m)
  unfolding lock leave
  lock-Held now id = at_stage_cases Held id _ m is_checked held (λ w e o.
      elim (Option-cases (acquire_component_lock now w.task m.db.locks)) [
        | inr (locks, got) ↦ rw got (lock-HoldLocks m.workers m.db.locks now id w locks e got held)
        | inl busy ↦ rw busy (dropped id _ (finish-locks now id Status.failed _ _ m.db))
      ])

  after_resolving-Held :
      (id : ℕ) (w : Worker)
      → find_worker id m.workers ≡ some w
      → is_locked w.stage ≡ true
      → (o : Option TaskDb) → (ignored m.db o).locks ≡ m.db.locks
      → Held (after_resolving id m o)
  unfolding after_resolving
  after_resolving-Held id w e o none same =
      goes id Stage.concluded w e (λ _. resolving_holds w.stage o) m.db.locks refl
  after_resolving-Held id w e o (some db) same =
      goes id Stage.executing w e (λ _. resolving_holds w.stage o) db.locks same

  resolve-Held : (now id : ℕ) → Held (resolve now id m)
  unfolding resolve
  resolve-Held now id = at_stage_cases Held id _ m is_locked held (λ w e o.
      after_resolving-Held id w e o _ (
        set_phase-locks now id Phase.resolving none (resolving_message w.task.operation)
          (codes "package_resolving") m.db))

  execute-Held : (now id : ℕ) (r : Report) → Held (execute now id r m)
  unfolding execute
  execute-Held now id r = at_stage_cases Held id _ m is_executing held (λ w e o.
      if_cases Held (is_executors r) (record m { db = report now id r m.db }) m
        (kept m.workers _ refl (report-locks now id r m.db)) held)

  return_executor-Held : (id : ℕ) (o : Outcome) → Held (return_executor id o m)
  unfolding return_executor
  return_executor-Held id outcome =
      at_stage_cases Held id _ m is_executing held
        (λ w e o. goes id _ w e (λ _. executing_holds w.stage o) m.db.locks refl)

  deliver_next-Held :
      (now id : ℕ) (w : Worker) (s : Stage)
      → find_worker id m.workers ≡ some w
      → w.stage ≡ s
      → Held (deliver_next now id s m)
  deliver_next-Held now id w (Stage.reporting (r ∷ rs)) e at =
      goes id (Stage.reporting rs) w e (λ _. subst (λ s. holds s ≡ true) (sym at) refl) _
        (report-locks now id r m.db)
  deliver_next-Held now id w (Stage.reporting []) e at = held
  deliver_next-Held now id w Stage.entered e at = held
  deliver_next-Held now id w Stage.registered e at = held
  deliver_next-Held now id w Stage.checked e at = held
  deliver_next-Held now id w Stage.locked e at = held
  deliver_next-Held now id w Stage.executing e at = held
  deliver_next-Held now id w Stage.concluded e at = held

  deliver-Held : (now id : ℕ) → Held (deliver now id m)
  unfolding deliver
  deliver-Held now id = elim (Option-cases (find_worker id m.workers)) [
    | inl missing ↦ rw (missing, deliver) held
    | inr (w, here) ↦ rw (here, deliver) (deliver_next-Held now id w w.stage here refl)
  ]

  release-Held : (id : ℕ) → Held (release id m)
  unfolding release leave
  release-Held id =
      at_stage_cases Held id _ m is_concluded held
        (λ w e o. release-HoldLocks m.workers m.db.locks id w.task.component held)

  after_request-Held :
      (id : ℕ) (o : Option TaskDb)
      → (ignored m.db o).locks ≡ m.db.locks
      → Held (after_request id m o)
  unfolding after_request
  after_request-Held id none same = held
  after_request-Held id (some db) same = kept m.workers db.locks refl same

  request_cancel-Held : (now id : ℕ) → Held (request_cancel now id m)
  unfolding request_cancel
  request_cancel-Held now id = elim (Option-cases (find_task id m.db.tasks)) [
    | inl missing ↦ rw (missing, request_cancel) held
    | inr (t, here) ↦ elim (Bool-cases (is_terminal t.status)) [
      | inl ended ↦ rw (here, ended, request_cancel) held
      | inr live ↦
          rw (here, live, request_cancel)
            (after_request-Held id (publish now id (cancel_update t.operation) cancel_event m.db)
              (publish-locks now id (cancel_update t.operation) cancel_event m.db))
    ]
  ]

  settle_cancel-Held : (now id : ℕ) → Held (settle_cancel now id m)
  unfolding settle_cancel
  settle_cancel-Held now id = elim (Bool-cases (has_id id m.canceling)) [
    | inr idle ↦ rw (idle, settle_cancel) held
    | inl due ↦ elim (Bool-cases (has_id id m.cancels)) [
      | inl runs ↦ rw (due, runs, settle_cancel) held
      | inr waits ↦ elim (Option-cases (find_task id m.db.tasks)) [
        | inl missing ↦ rw (due, waits, missing, settle_cancel) held
        | inr (t, here) ↦
            rw (due, waits, here, settle_cancel)
              (kept m.workers _ refl (finish-locks now id Status.canceled _ _ m.db))
      ]
    ]
  ]

  touch-Held : (now id : ℕ) → HoldLocks m.workers (touch now id m.db).locks
  unfolding touch
  touch-Held now id = held

step-Held : (is_uuid : Text → Bool) (s : Step) (m : Manager) → Held m → Held (step is_uuid s m)
unfolding step restart
step-Held is_uuid (submit_step id now by r) m h = submit-Held m h is_uuid id now by r
step-Held is_uuid take_step m h = take-Held m h
step-Held is_uuid (register_step id) m h = register-Held m h id
step-Held is_uuid (check_step id) m h = check-Held m h id
step-Held is_uuid (release_step id) m h = release-Held m h id
step-Held is_uuid (lock_step now id) m h = lock-Held m h now id
step-Held is_uuid (resolve_step now id) m h = resolve-Held m h now id
step-Held is_uuid (request_cancel_step now id) m h = request_cancel-Held m h now id
step-Held is_uuid (settle_cancel_step now id) m h = settle_cancel-Held m h now id
step-Held is_uuid (touch_step now id) m h = touch-Held m h now id
step-Held is_uuid (execute_step now id r) m h = execute-Held m h now id r
step-Held is_uuid (return_step id o) m h = return_executor-Held m h id o
step-Held is_uuid (deliver_step now id) m h = deliver-Held m h now id
step-Held is_uuid (write_software rows) m h = h
step-Held is_uuid stop_step m h = h
step-Held is_uuid (restart_step now inspector) m h = λ id w e. absurd (cc e)

pub run-Held :
    (is_uuid : Text → Bool) (ss : List Step) (m : Manager) → Held m → Held (run is_uuid ss m)
unfolding run
run-Held is_uuid [] m h = h
run-Held is_uuid (s ∷ ss) m h = run-Held is_uuid ss (step is_uuid s m) (step-Held is_uuid s m h)

-- Whatever steps the callers and the workers take, in whatever order, two workers that are between the
-- lock of their component and its release are never at work on one component, if at the start each
-- worker between the two had the lock of its component.
pub run-one_holder :
    (is_uuid : Text → Bool) (ss : List Step) (m : Manager)
    → Held m
    → (i j : ℕ) (w v : Worker) → find_worker i (run is_uuid ss m).workers ≡ some w
    → find_worker j (run is_uuid ss m).workers ≡ some v
    → holds w.stage ≡ true
    → holds v.stage ≡ true
    → w.task.component ≡ v.task.component
    → i ≡ j
run-one_holder is_uuid ss m h = HoldLocks-one _ _ (run-Held is_uuid ss m h)
