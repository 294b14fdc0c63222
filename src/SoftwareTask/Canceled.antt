-- ===== src/SoftwareTask/Canceled.antt =====
-- internal/services/softwaretask: the rows of tasks through any steps, and the end of a cancellation.
use mathlib.Core.Path.{subst}
use oneinstack_panel.Common.{
  ℕ, ◌≡◌, refl, sym, Bool, true, false, some, List, [], ◌∷◌, ◌++◌, arith, Option-cases, inl, inr,
}
use oneinstack_panel.Text.{Text}
use oneinstack_panel.SoftwareTask.{Status, SoftwareTask, TaskDb, find_task}
use oneinstack_panel.SoftwareTask.Submit.{InstallRequest, plan}
use oneinstack_panel.SoftwareTask.Planned.{Checked-cases}
use oneinstack_panel.SoftwareTask.World.{Manager, submit, task_of, insert_task, after}
use oneinstack_panel.SoftwareTask.Cancel.{request_cancel, settle_cancel}
use oneinstack_panel.SoftwareTask.Workers.{has_id}
use oneinstack_panel.SoftwareTask.Ends.{IsEnded, finish-IsEnded}
use oneinstack_panel.SoftwareTask.Progress.{IsProgress, touch-IsProgress, restart-IsProgress}
use oneinstack_panel.SoftwareTask.Exclusive.{insert_task-tasks, enqueue-IsProgress}
use oneinstack_panel.SoftwareTask.Moves.{
  take-GoesOn, register-GoesOn, check-GoesOn, lock-GoesOn, resolve-GoesOn, execute-GoesOn,
  return_executor-GoesOn, deliver-GoesOn, release-GoesOn, request_cancel-GoesOn,
  settle_cancel-GoesOn,
}
use oneinstack_panel.SoftwareTask.Steps.{
  Step, submit_step, take_step, register_step, check_step, release_step, lock_step, resolve_step,
  request_cancel_step, settle_cancel_step, touch_step, execute_step, return_step, deliver_step,
  write_software, stop_step, restart_step, step, run,
}

-- The table has a row of the task.
abbrev pub HasRow : ℕ → TaskDb → Type 0
HasRow id db = (t : SoftwareTask) × (find_task id db.tasks ≡ some t)

HasRow-IsProgress : (id : ℕ) (db db' : TaskDb) → IsProgress db db' → HasRow id db → HasRow id db'
HasRow-IsProgress id db db' k (t, here) = let (u, found, l) = k.later id t here in (u, found)

find_task-append_old :
    (id : ℕ) (ts : List SoftwareTask) (new t : SoftwareTask)
    → find_task id ts ≡ some t
    → find_task id (ts ++ new ∷ []) ≡ some t
find_task-append_old id [] new t e = absurd (cc e)
find_task-append_old id (s ∷ ts) new t e = ground (arith, find_task-append_old id ts new t)

submit-HasRow :
    (is_uuid : Text → Bool) (own id now by : ℕ) (r : InstallRequest) (m : Manager)
    → HasRow own m.db
    → HasRow own (after (submit is_uuid id now by r m)).db
unfolding submit
submit-HasRow is_uuid own id now by r m (t, here) =
    elim (Checked-cases (plan is_uuid m.stopping m.catalog_revision m.software m.db.tasks by r)) [
      | inl (e, no_plan) ↦ rw (no_plan, submit) (t, here)
      | inr (p, made) ↦ elim (Option-cases (insert_task now (task_of id now by p) m.db)) [
        | inl taken ↦ rw (made, taken, submit) (t, here)
        | inr (db1, written) ↦
            let rows = (insert_task-tasks now (task_of id now by p) m.db db1 written).0 in
            rw (made, written, submit)
              (HasRow-IsProgress own db1 _
                (enqueue-IsProgress now (task_of id now by p) (record m { db = db1 }))
                (
                  t,
                  subst (λ ts. find_task own ts ≡ some t) (sym rows)
                      (find_task-append_old own m.db.tasks (task_of id now by p) t here),
                ))
      ]
    ]

step-HasRow :
    (is_uuid : Text → Bool) (own : ℕ) (s : Step) (m : Manager)
    → HasRow own m.db
    → HasRow own (step is_uuid s m).db
unfolding step
step-HasRow is_uuid own (submit_step id now by r) m = submit-HasRow is_uuid own id now by r m
step-HasRow is_uuid own take_step m = HasRow-IsProgress own _ _ (take-GoesOn m)
step-HasRow is_uuid own (register_step id) m = HasRow-IsProgress own _ _ (register-GoesOn m id)
step-HasRow is_uuid own (check_step id) m = HasRow-IsProgress own _ _ (check-GoesOn m id)
step-HasRow is_uuid own (release_step id) m = HasRow-IsProgress own _ _ (release-GoesOn m id)
step-HasRow is_uuid own (lock_step now id) m = HasRow-IsProgress own _ _ (lock-GoesOn m now id)
step-HasRow is_uuid own (resolve_step now id) m =
    HasRow-IsProgress own _ _ (resolve-GoesOn m now id)
step-HasRow is_uuid own (request_cancel_step now id) m =
    HasRow-IsProgress own _ _ (request_cancel-GoesOn m now id)
step-HasRow is_uuid own (settle_cancel_step now id) m =
    HasRow-IsProgress own _ _ (settle_cancel-GoesOn m now id)
step-HasRow is_uuid own (touch_step now id) m =
    HasRow-IsProgress own _ _ (touch-IsProgress now id m.db)
step-HasRow is_uuid own (execute_step now id r) m =
    HasRow-IsProgress own _ _ (execute-GoesOn m now id r)
step-HasRow is_uuid own (return_step id o) m =
    HasRow-IsProgress own _ _ (return_executor-GoesOn m id o)
step-HasRow is_uuid own (deliver_step now id) m =
    HasRow-IsProgress own _ _ (deliver-GoesOn m now id)
step-HasRow is_uuid own (write_software rows) m = λ h. h
step-HasRow is_uuid own stop_step m = λ h. h
step-HasRow is_uuid own (restart_step now inspector) m =
    HasRow-IsProgress own _ _ (restart-IsProgress now inspector m)

run-HasRow :
    (is_uuid : Text → Bool) (own : ℕ) (ss : List Step) (m : Manager)
    → HasRow own m.db
    → HasRow own (run is_uuid ss m).db
unfolding run
run-HasRow is_uuid own [] m h = h
run-HasRow is_uuid own (s ∷ ss) m h =
    run-HasRow is_uuid own ss (step is_uuid s m) (step-HasRow is_uuid own s m h)

-- The second half of a cancellation, where no worker has a cancel function.
settle_cancel-IsEnded :
    (later id : ℕ) (m : Manager)
    → HasRow id m.db
    → has_id id m.canceling ≡ true
    → has_id id m.cancels ≡ false
    → IsEnded id (settle_cancel later id m).db
unfolding settle_cancel
settle_cancel-IsEnded later id m (u, here) due waits =
    rw (due, waits, here, settle_cancel)
      (finish-IsEnded later id Status.canceled _ _ m.db u here refl)

-- Whatever steps come between the two halves of a cancellation, if its second half is still due and
-- no worker has a cancel function of the task then, the task has an end after it.
pub cancel-IsEnded :
    (is_uuid : Text → Bool) (ss : List Step) (now later id : ℕ) (m : Manager) (t : SoftwareTask)
    → find_task id m.db.tasks ≡ some t
    → has_id id (run is_uuid ss (request_cancel now id m)).canceling ≡ true
    → has_id id (run is_uuid ss (request_cancel now id m)).cancels ≡ false
    → IsEnded id (settle_cancel later id (run is_uuid ss (request_cancel now id m))).db
cancel-IsEnded is_uuid ss now later id m t here due waits =
    settle_cancel-IsEnded later id (run is_uuid ss (request_cancel now id m))
      (run-HasRow is_uuid id ss (request_cancel now id m)
        (HasRow-IsProgress id m.db _ (request_cancel-GoesOn m now id) (t, here)))
      due waits
