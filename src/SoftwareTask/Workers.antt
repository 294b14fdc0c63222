-- ===== src/SoftwareTask/Workers.antt =====
-- internal/services/softwaretask/manager.go: the steps of the workers in `run`. Between two steps of one
-- worker any steps of the others and of callers may come.
use oneinstack_panel.Common.{
  ℕ, Bool, true, false, not, ◌&&◌, ◌||◌, Option, none, some, List, [], ◌∷◌, ◌++◌, any, find?,
  select, ◌==◌, if◌then◌else◌,
}
use oneinstack_panel.Text.{Text, codes, text_eq}
use oneinstack_panel.SoftwareTask.{
  Status, Phase, Operation, SoftwareTask, OperationLock, TaskDb, is_terminal, find_task,
}
use oneinstack_panel.SoftwareTask.Reports.{
  Report, report, ignored, set_phase, finish, resolving_set, finalizing_set, finished,
}
use oneinstack_panel.SoftwareTask.World.{
  Stage, Worker, Manager, operation_label, operation_success_message,
}

abbrev pub find_worker : ℕ → List Worker → Option Worker
find_worker id ws = find? (λ w. w.task.id == id) ws

unfoldable pub set_stage : ℕ → Stage → List Worker → List Worker
set_stage id s [] = []
set_stage id s (w ∷ ws) =
    (if w.task.id == id then record w { stage = s } else w) ∷ set_stage id s ws

abbrev pub drop_worker : ℕ → List Worker → List Worker
drop_worker id ws = select (λ w. not (w.task.id == id)) ws

abbrev pub drop_id : ℕ → List ℕ → List ℕ
drop_id id ids = select (λ i. not (i == id)) ids

abbrev pub has_id : ℕ → List ℕ → Bool
has_id id ids = any (λ i. i == id) ids

abbrev pub find_lock : Text → List OperationLock → Option OperationLock
find_lock component locks = find? (λ l. text_eq l.component component) locks

abbrev pub has_lock_of : ℕ → List OperationLock → Bool
has_lock_of id locks = any (λ l. l.task_id == id) locks

-- `acquireComponentLock`: the component is the primary key, and the task's identifier is unique too.
unfoldable pub acquire_component_lock :
    ℕ → SoftwareTask → List OperationLock → Option (List OperationLock)
acquire_component_lock now t locks = elim (find_lock t.component locks) [
  | some l ↦ none
  | none ↦
      if has_lock_of t.id locks
      then none
      else some
          (locks ++ record { component = t.component; task_id = t.id; acquired_at = now } ∷ [])
]

-- `releaseComponentLock`
abbrev pub release_component_lock : Text → ℕ → List OperationLock → List OperationLock
release_component_lock component id locks =
    select (λ l. not (text_eq l.component component && l.task_id == id)) locks

-- `isCancelRequested`
abbrev pub is_cancel_requested : ℕ → TaskDb → Bool
is_cancel_requested id db = elim (find_task id db.tasks) [
  | none ↦ false
  | some t ↦ t.cancel_requested
]

-- The worker takes the first task of the queue, unless it has ended or is canceled.
unfoldable pub take_next : List ℕ → Manager → Manager
take_next [] m = m
take_next (id ∷ rest) m = elim (find_task id m.db.tasks) [
  | none ↦ record m { queue = rest }
  | some t ↦
      if is_terminal t.status || t.cancel_requested then record m { queue = rest } else record m {
        queue = rest;
        workers = record { task = t; stage = Stage.entered } ∷ m.workers;
      }
]

unfoldable pub take : Manager → Manager
unfolding take_next
take m = if m.stopping then m else take_next m.queue m

-- The worker leaves `run`: the deferred calls release the lock and forget the cancel function.
unfoldable pub leave : ℕ → Manager → Manager
leave id m = record m { workers = drop_worker id m.workers; cancels = drop_id id m.cancels }

-- A step of the worker of a task, if it has come to the stage.
abbrev pub at_stage : ℕ → (Worker → Manager) → Manager → (Stage → Bool) → Manager
at_stage id go m test = elim (find_worker id m.workers) [
  | none ↦ m
  | some w ↦ if test w.stage then go w else m
]

abbrev pub is_entered : Stage → Bool
is_entered Stage.entered = true
is_entered _ = false

abbrev pub is_registered : Stage → Bool
is_registered Stage.registered = true
is_registered _ = false

abbrev pub is_checked : Stage → Bool
is_checked Stage.checked = true
is_checked _ = false

abbrev pub is_locked : Stage → Bool
is_locked Stage.locked = true
is_locked _ = false

abbrev pub is_executing : Stage → Bool
is_executing Stage.executing = true
is_executing _ = false

abbrev pub is_concluded : Stage → Bool
is_concluded Stage.concluded = true
is_concluded (Stage.reporting []) = true
is_concluded _ = false

-- `m.cancels[task.ID] = cancel`
unfoldable pub register : ℕ → Manager → Manager
unfolding set_stage
register id m =
    at_stage id
      (λ w. record m {
        workers = set_stage id Stage.registered m.workers;
        cancels = id ∷ m.cancels;
      })
      m is_entered

-- `if m.isCancelRequested(task.ID) { return }`
unfoldable pub check : ℕ → Manager → Manager
unfolding set_stage leave
check id m =
    at_stage id
      (λ w.
        if is_cancel_requested id m.db
        then leave id m
        else record m { workers = set_stage id Stage.checked m.workers })
      m is_registered

-- The lock, or the end of the task.
unfoldable pub lock : ℕ → ℕ → Manager → Manager
unfolding set_stage leave acquire_component_lock finish
lock now id m =
    at_stage id
      (λ w. elim (acquire_component_lock now w.task m.db.locks) [
        | some locks ↦ record m {
          db = record m.db { locks = locks };
          workers = set_stage id Stage.locked m.workers;
        }
        | none ↦ leave id (record m {
          db = ignored m.db (
              finish now id Status.failed (codes "COMPONENT_BUSY")
                (codes "component "
                  ++ w.task.component
                  ++ codes " already has an operation in progress")
                m.db);
        })
      ])
      m is_checked

-- The phase `resolving`, whose error ends the worker.
unfoldable pub after_resolving : ℕ → Manager → Option TaskDb → Manager
unfolding set_stage
after_resolving id m none = record m { workers = set_stage id Stage.concluded m.workers }
after_resolving id m (some db) = record m {
  db = db;
  workers = set_stage id Stage.executing m.workers;
}

pub resolving_message : Operation → Text
unfolding operation_label
resolving_message op = codes "正在解析并校验" ++ operation_label op ++ codes "脚本包"

unfoldable pub resolve : ℕ → ℕ → Manager → Manager
unfolding after_resolving set_phase resolving_message
resolve now id m =
    at_stage id
      (λ w. after_resolving id m (
        set_phase now id Phase.resolving none (resolving_message w.task.operation)
          (codes "package_resolving") m.db))
      m is_locked

-- The calls that the executor makes of its reporter.
abbrev pub is_executors : Report → Bool
is_executors (resolving_set message) = false
is_executors finalizing_set = false
is_executors (finished s code message) = false
is_executors _ = true

unfoldable pub execute : ℕ → ℕ → Report → Manager → Manager
unfolding report
execute now id r m =
    at_stage id (λ w. if is_executors r then record m { db = report now id r m.db } else m) m
      is_executing

-- What the executor returns: no error, an error of a canceled context, or another with its class.
pub data Outcome : Type 0 where
  success canceled_context : Outcome
  failure : Text → Text → Outcome

-- The calls of the reporter after the executor has returned.
unfoldable pub conclusion : Bool → Bool → Operation → Outcome → List Report
unfolding operation_label operation_success_message
conclusion stops asked op success =
    finalizing_set ∷ finished Status.succeeded [] (operation_success_message op) ∷ []
conclusion stops asked op outcome =
    let interrupted =
      finished Status.interrupted (codes "PANEL_SHUTDOWN")
        (codes "Panel 正在关闭，" ++ operation_label op ++ codes "任务已安全中断；下次启动将重新核验组件状态") in
    let canceled =
      finished Status.canceled (codes "ACTION_CANCELED") (operation_label op ++ codes "任务已取消") in
    elim outcome [
      | success ↦ []
      | canceled_context ↦ (if stops && not asked then interrupted else canceled) ∷ []
      | failure code message ↦
          (if asked then canceled else finished Status.failed code message) ∷ []
    ]

unfoldable pub report_all : ℕ → ℕ → List Report → TaskDb → TaskDb
report_all now id [] db = db
report_all now id (r ∷ rs) db = report_all now id rs (report now id r db)

-- The executor has returned: what `run` reads then says which reports it makes.
unfoldable pub return_executor : ℕ → Outcome → Manager → Manager
unfolding set_stage conclusion
return_executor id outcome m =
    at_stage id
      (λ w. record m {
        workers =
            set_stage id
              (Stage.reporting
                (conclusion m.stopping (is_cancel_requested id m.db) w.task.operation outcome))
              m.workers;
      })
      m is_executing

-- The next of these reports.
abbrev pub deliver_next : ℕ → ℕ → Stage → Manager → Manager
deliver_next now id (Stage.reporting (r ∷ rs)) m = record m {
  db = report now id r m.db;
  workers = set_stage id (Stage.reporting rs) m.workers;
}
deliver_next now id _ m = m

unfoldable pub deliver : ℕ → ℕ → Manager → Manager
unfolding set_stage report
deliver now id m = elim (find_worker id m.workers) [
  | none ↦ m
  | some w ↦ deliver_next now id w.stage m
]

unfoldable pub deliver_all : ℕ → ℕ → List Report → Manager → Manager
unfolding deliver
deliver_all now id [] m = m
deliver_all now id (r ∷ rs) m = deliver_all now id rs (deliver now id m)

-- The executor's return and all the reports, with no other step in between.
unfoldable pub conclude : ℕ → ℕ → Outcome → Manager → Manager
unfolding return_executor deliver_all conclusion
conclude now id outcome m =
    at_stage id
      (λ w.
        deliver_all now id
          (conclusion m.stopping (is_cancel_requested id m.db) w.task.operation outcome)
          (return_executor id outcome m))
      m is_executing

-- The deferred calls of a worker that holds the lock.
unfoldable pub release : ℕ → Manager → Manager
unfolding leave
release id m =
    at_stage id
      (λ w. leave id (record m {
        db = record m.db { locks = release_component_lock w.task.component id m.db.locks };
      }))
      m is_concluded
