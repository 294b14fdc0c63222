-- ===== src/SoftwareTask/Settled.antt =====
-- internal/services/softwaretask: `Cancel` against the worker of the task, and the restart of the panel.
use mathlib.Core.Path.{subst}
use oneinstack_panel.Common.{
  ℕ, ◌+◌, ◌≡◌, ◌⊎◌, refl, sym, ap, ◌∙◌, true, false, none, some, List, [], ◌∷◌, arith, Bool-cases,
  inl, inr, ==_refl,
}
use oneinstack_panel.SoftwareTask.{Status, SoftwareTask, TaskDb, is_terminal, find_task}
use oneinstack_panel.SoftwareTask.Reporter.{
  TaskUpdate, EventData, apply_update, publish, publish_task,
}
use oneinstack_panel.SoftwareTask.Reports.{ignored}
use oneinstack_panel.SoftwareTask.World.{Worker, Manager}
use oneinstack_panel.SoftwareTask.Cancel.{
  request_cancel, settle_cancel, cancel_update, cancel_event, after_request, drop_one,
}
use oneinstack_panel.SoftwareTask.Workers.{
  find_worker, drop_worker, at_stage, is_registered, check, is_cancel_requested, leave, has_id,
}
use oneinstack_panel.SoftwareTask.Ends.{publish_live}
use oneinstack_panel.SoftwareTask.Restart.{RecoveryInspection, restart, reconciled, interrupt}
use oneinstack_panel.SoftwareTask.Progress.{find_task-map, reconciled-IsLater}

-- The state after the first half of `Cancel`, with the tables that it wrote.
abbrev asked : ℕ → TaskDb → Manager → Manager
asked id db m = record m { db = db; canceling = id ∷ m.canceling }

publish_found :
    (now id : ℕ) (u : TaskUpdate) (e : EventData) (db : TaskDb) (t : SoftwareTask)
    → find_task id db.tasks ≡ some t
    → publish now id u e db ≡ some (publish_task now u e t db)
unfolding publish
publish_found now id u e db t here = rw (here, publish) refl

request_cancel_to :
    (now id : ℕ) (m : Manager) (t : SoftwareTask) (db : TaskDb)
    → find_task id m.db.tasks ≡ some t
    → is_terminal t.status ≡ false
    → publish now id (cancel_update t.operation) cancel_event m.db ≡ some db
    → request_cancel now id m ≡ asked id db m
unfolding request_cancel after_request
request_cancel_to now id m t db here live written =
    rw (here, live, request_cancel, written, after_request) refl

-- The first half of `Cancel` on a task that has not ended.
request_cancel_live :
    (now id : ℕ) (m : Manager) (t : SoftwareTask)
    → find_task id m.db.tasks ≡ some t
    → is_terminal t.status ≡ false
    → (db : TaskDb) × (request_cancel now id m ≡ asked id db m)
      × (find_task id db.tasks ≡ some (apply_update now (cancel_update t.operation) t))
request_cancel_live now id m t here live =
    let written = publish_found now id (cancel_update t.operation) cancel_event m.db t here in
    (
      publish_task now (cancel_update t.operation) cancel_event t m.db,
      request_cancel_to now id m t _ here live written,
      subst
          (λ o.
            find_task id (ignored m.db o).tasks
            ≡ some (apply_update now (cancel_update t.operation) t))
          written (publish_live now id (cancel_update t.operation) cancel_event m.db t here live),
    )

-- The second half, where a worker has a cancel function: it is only told.
settle_cancel_told :
    (later id : ℕ) (db : TaskDb) (m : Manager)
    → has_id id m.cancels ≡ true
    → settle_cancel later id (asked id db m)
      ≡ record (asked id db m) { canceling = drop_one id (id ∷ m.canceling) }
unfolding settle_cancel
settle_cancel_told later id db m told = rw (==_refl id, told, settle_cancel) refl

find_worker-drop_worker_self :
    (id : ℕ) (ws : List Worker) → find_worker id (drop_worker id ws) ≡ none
find_worker-drop_worker_self id [] = refl
find_worker-drop_worker_self id (v ∷ ws) = ground (arith, find_worker-drop_worker_self id ws)

-- A task in `canceling` that has no worker.
abbrev pub IsStuck : ℕ → Manager → Type 0
IsStuck id m =
    ((u : SoftwareTask) × (find_task id m.db.tasks ≡ some u) × (u.status ≡ Status.canceling))
    × (find_worker id m.workers ≡ none)

check_asked :
    (id : ℕ) (m : Manager) (w : Worker) (u : SoftwareTask)
    → find_worker id m.workers ≡ some w
    → is_registered w.stage ≡ true
    → find_task id m.db.tasks ≡ some u
    → u.cancel_requested ≡ true
    → u.status ≡ Status.canceling
    → IsStuck id (check id m)
unfolding check leave
check_asked id m w u at registered row asks stuck =
    let wants : is_cancel_requested id m.db ≡ true = rw (row, is_cancel_requested) asks in
    rw (at, registered, wants, check, at_stage, leave)
      ((u, row, stuck), find_worker-drop_worker_self id m.workers)

-- If the cancellation comes after the worker has told its cancel function and before it looks for a
-- request, the worker leaves, and the task stays in `canceling`, which is no end, with nobody to end it.
pub cancel-lost :
    (now later id : ℕ) (m : Manager) (w : Worker) (t : SoftwareTask)
    → find_worker id m.workers ≡ some w
    → is_registered w.stage ≡ true
    → has_id id m.cancels ≡ true
    → find_task id m.db.tasks ≡ some t
    → is_terminal t.status ≡ false
    → IsStuck id (check id (settle_cancel later id (request_cancel now id m)))
unfolding apply_update
cancel-lost now later id m w t at registered told here live =
    let (db, asks, row) = request_cancel_live now id m t here live in
    subst (λ m'. IsStuck id (check id m'))
      (sym (ap (settle_cancel later id) asks ∙ settle_cancel_told later id db m told))
      (check_asked id (record (asked id db m) { canceling = drop_one id (id ∷ m.canceling) }) w _ at
        registered row refl refl)

reconciled_cases :
    (now : ℕ) (inspector : SoftwareTask → RecoveryInspection) (t : SoftwareTask)
    → (is_terminal (reconciled now inspector t).status ≡ true)
      × ((is_terminal t.status ≡ true) × (reconciled now inspector t ≡ t)
          ⊎ (is_terminal t.status ≡ false)
            × ((reconciled now inspector t).status ≡ Status.interrupted)
            × ((reconciled now inspector t).event_seq ≡ t.event_seq + 1)
            × ((reconciled now inspector t).finished_at ≡ some now))
unfolding reconciled interrupt
reconciled_cases now inspector t = elim (Bool-cases (is_terminal t.status)) [
  | inl over ↦ rw (over, reconciled) (over, inl (refl, refl))
  | inr live ↦ rw (live, reconciled) (refl, inr (refl, refl, refl, refl))
]

-- After a restart no row of a task is active: a row that had ended is the same, and any other is interrupted.
pub restart-is_terminal :
    (now : ℕ) (inspector : SoftwareTask → RecoveryInspection) (id : ℕ) (m : Manager)
    (t : SoftwareTask)
    → find_task id m.db.tasks ≡ some t
    → (u : SoftwareTask) × (find_task id (restart now inspector m).db.tasks ≡ some u)
      × (is_terminal u.status ≡ true)
      × ((is_terminal t.status ≡ true) × (u ≡ t)
          ⊎ (is_terminal t.status ≡ false)
            × (u.status ≡ Status.interrupted)
            × (u.event_seq ≡ t.event_seq + 1)
            × (u.finished_at ≡ some now))
unfolding restart
restart-is_terminal now inspector id m t here =
    let (ends, how) = reconciled_cases now inspector t in
    (
      reconciled now inspector t,
      find_task-map (reconciled now inspector) (λ u. (reconciled-IsLater now inspector u).id) id
          m.db.tasks t here,
      ends,
      how,
    )
