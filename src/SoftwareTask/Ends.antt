-- ===== src/SoftwareTask/Ends.antt =====
-- internal/services/softwaretask: how a task ends, and where `Cancel` leaves it without an end.
use mathlib.Core.Path.{subst}
use oneinstack_panel.Common.{
  ℕ, ◌≡◌, refl, sym, Bool, true, false, not, ◌&&◌, some, List, [], ◌∷◌, Bool-cases, inl, inr,
}
use oneinstack_panel.Text.{Text}
use oneinstack_panel.SoftwareTask.{
  Status, SoftwareTask, TaskDb, Operation, is_terminal, find_task, save_task,
}
use oneinstack_panel.SoftwareTask.Reporter.{
  TaskUpdate, EventData, apply_update, publish_task, publish, or_old,
}
use oneinstack_panel.SoftwareTask.Reports.{
  Report, finalizing_set, report, ignored, finish, finish_update,
}
use oneinstack_panel.SoftwareTask.Rows.{find_task-save_task_self, find_task-id}
use oneinstack_panel.SoftwareTask.World.{Stage, Worker, Manager}
use oneinstack_panel.SoftwareTask.Workers.{
  find_worker, at_stage, is_executing, conclusion, Outcome, success, canceled_context, failure,
  conclude, report_all, is_cancel_requested, set_stage, deliver_next, deliver, deliver_all,
  return_executor,
}
use oneinstack_panel.SoftwareTask.Progress.{report-IsProgress}
use oneinstack_panel.SoftwareTask.Holders.{find_worker-set_stage_self}

-- The row of a task has ended.
abbrev pub IsEnded : ℕ → TaskDb → Type 0
IsEnded id db =
    (u : SoftwareTask) × (find_task id db.tasks ≡ some u) × (is_terminal u.status ≡ true)

-- What a publication writes to a task that has not ended.
pub publish_live :
    (now id : ℕ) (u : TaskUpdate) (e : EventData) (db : TaskDb) (t : SoftwareTask)
    → find_task id db.tasks ≡ some t
    → is_terminal t.status ≡ false
    → find_task id (ignored db (publish now id u e db)).tasks ≡ some (apply_update now u t)
unfolding publish publish_task apply_update
publish_live now id u e db t here live =
    let same = find_task-id id db.tasks t here in
    let row =
      find_task-save_task_self db.tasks t (apply_update now u t)
        (subst (λ i. find_task i db.tasks ≡ some t) (sym same) here) in
    rw (here, publish, publish_task, live)
      (subst
        (λ i. find_task i (save_task (apply_update now u t) db.tasks) ≡ some (apply_update now u t))
        same row)

publish_over :
    (now id : ℕ) (u : TaskUpdate) (e : EventData) (db : TaskDb) (t : SoftwareTask)
    → find_task id db.tasks ≡ some t
    → is_terminal t.status ≡ true
    → find_task id (ignored db (publish now id u e db)).tasks ≡ some t
unfolding publish publish_task
publish_over now id u e db t here over = rw (here, publish, publish_task, over) here

publish-IsEnded :
    (now id : ℕ) (u : TaskUpdate) (e : EventData) (db : TaskDb) (t : SoftwareTask)
    → find_task id db.tasks ≡ some t
    → is_terminal (or_old u.status t.status) ≡ true
    → IsEnded id (ignored db (publish now id u e db))
unfolding apply_update
publish-IsEnded now id u e db t here ends = elim (Bool-cases (is_terminal t.status)) [
  | inl over ↦ (t, publish_over now id u e db t here over, over)
  | inr live ↦ (apply_update now u t, publish_live now id u e db t here live, ends)
]

pub finish-IsEnded :
    (now id : ℕ) (s : Status) (code message : Text) (db : TaskDb) (t : SoftwareTask)
    → find_task id db.tasks ≡ some t
    → is_terminal s ≡ true
    → IsEnded id (ignored db (finish now id s code message db))
unfolding finish finish_update
finish-IsEnded now id s code message db t here ends =
    publish-IsEnded now id (finish_update now s code message) _ db t here ends

-- The reports after an execution, whatever it returned, end the task.
conclusion-IsEnded :
    (now id : ℕ) (stops asked : Bool) (op : Operation) (o : Outcome) (db : TaskDb)
    (t : SoftwareTask)
    → find_task id db.tasks ≡ some t
    → IsEnded id (report_all now id (conclusion stops asked op o) db)
unfolding conclusion report_all report
conclusion-IsEnded now id stops asked op success db t here =
    let (u, found, l) = (report-IsProgress now id finalizing_set db).later id t here in
    finish-IsEnded now id Status.succeeded _ _ (report now id finalizing_set db) u found refl
conclusion-IsEnded now id stops asked op canceled_context db t here =
    elim (Bool-cases (stops && not asked)) [
      | inl interrupts ↦ rw interrupts (finish-IsEnded now id Status.interrupted _ _ db t here refl)
      | inr cancels ↦ rw cancels (finish-IsEnded now id Status.canceled _ _ db t here refl)
    ]
conclusion-IsEnded now id stops true op (failure code message) db t here =
    finish-IsEnded now id Status.canceled _ _ db t here refl
conclusion-IsEnded now id stops false op (failure code message) db t here =
    finish-IsEnded now id Status.failed _ _ db t here refl

-- The reports that a worker delivers are all made.
deliver_all-db :
    (now id : ℕ) (rs : List Report) (m : Manager) (w : Worker)
    → find_worker id m.workers ≡ some w
    → w.stage ≡ Stage.reporting rs
    → (deliver_all now id rs m).db ≡ report_all now id rs m.db
unfolding deliver_all report_all deliver
deliver_all-db now id [] m w here at = refl
deliver_all-db now id (r ∷ rs) m w here at =
    rw (here, deliver_all, deliver, at, deliver_next)
      (deliver_all-db now id rs _ _
        (find_worker-set_stage_self id (Stage.reporting rs) m.workers w here) refl)

-- The worker that has its reports to make.
abbrev returned : ℕ → List Report → Manager → Manager
returned id rs m = record m { workers = set_stage id (Stage.reporting rs) m.workers }

return_executor-returned :
    (id : ℕ) (o : Outcome) (m : Manager) (w : Worker)
    → find_worker id m.workers ≡ some w
    → is_executing w.stage ≡ true
    → return_executor id o m
      ≡ returned id (conclusion m.stopping (is_cancel_requested id m.db) w.task.operation o) m
unfolding return_executor
return_executor-returned id o m w at executing = rw (at, executing, return_executor, at_stage) refl

-- Where a worker executes a task that has a row, the executor's return, whatever it returned, and the
-- reports after it, with no other step in between, leave the row with an end.
pub conclude-IsEnded :
    (now id : ℕ) (o : Outcome) (m : Manager) (w : Worker) (t : SoftwareTask)
    → find_worker id m.workers ≡ some w
    → is_executing w.stage ≡ true
    → find_task id m.db.tasks ≡ some t
    → IsEnded id (conclude now id o m).db
unfolding conclude
conclude-IsEnded now id o m w t at executing here =
    let rs = conclusion m.stopping (is_cancel_requested id m.db) w.task.operation o in
    let ended =
      conclusion-IsEnded now id m.stopping (is_cancel_requested id m.db) w.task.operation o m.db t
        here in
    let same =
      deliver_all-db now id rs (returned id rs m) (record w { stage = Stage.reporting rs })
        (find_worker-set_stage_self id (Stage.reporting rs) m.workers w at) refl in
    rw (at, executing, conclude, at_stage)
      (subst (λ m'. IsEnded id (deliver_all now id rs m').db)
        (sym (return_executor-returned id o m w at executing))
        (subst (IsEnded id) (sym same) ended))
