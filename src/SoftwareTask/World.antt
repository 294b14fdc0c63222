-- ===== src/SoftwareTask/World.antt =====
-- internal/services/softwaretask/manager.go: the manager, its queue and its workers, and `submit`.
use oneinstack_panel.Common.{
  ℕ, Bool, false, Option, none, some, List, [], ◌∷◌, ◌++◌, ltb, length, if◌then◌else◌,
}
use oneinstack_panel.Text.{Text, codes}
use oneinstack_panel.SoftwareTask.{
  Status, Phase, RollbackStatus, Operation, SoftwareTask, EventType, Level, TaskEvent,
  HistoryStatus, TaskDb, find_task,
}
use oneinstack_panel.SoftwareTask.Reports.{Report, ignored, finish}
use oneinstack_panel.SoftwareTask.Catalog.{Software}
use oneinstack_panel.SoftwareTask.Submit.{
  InstallRequest, SubmitError, ok, err, Plan, plan, is_configure,
}

-- How far a worker has come with its task in `run`. After the executor's return it has reports to make.
pub data Stage : Type 0 where
  entered registered checked locked executing concluded : Stage
  reporting : List Report → Stage

-- A worker: the task as it read it first.
pub record Worker : Type 0 where
  pub task : SoftwareTask
  pub stage : Stage

-- `cancels` has the tasks with a cancel function, `canceling` those whose `Cancel` is between its halves.
pub record Manager : Type 0 where
  pub db : TaskDb
  pub software : List Software
  pub catalog_revision : Option Text
  pub queue : List ℕ
  pub workers : List Worker
  pub cancels : List ℕ
  pub canceling : List ℕ
  pub stopping : Bool

-- `defaultQueueSize`
abbrev pub queue_size : ℕ
queue_size = 128

-- `operationLabel`
unfoldable pub operation_label : Operation → Text
operation_label Operation.upgrade = codes "升级"
operation_label Operation.uninstall = codes "卸载"
operation_label Operation.start = codes "启动"
operation_label Operation.stop = codes "停止"
operation_label Operation.restart = codes "重启"
operation_label Operation.reload = codes "重载"
operation_label Operation.configure = codes "配置"
operation_label Operation.install = codes "安装"

-- `operationSuccessMessage`
unfoldable pub operation_success_message : Operation → Text
operation_success_message Operation.uninstall = codes "卸载完成，软件数据按组件策略保留"
operation_success_message Operation.start = codes "服务启动成功"
operation_success_message Operation.stop = codes "服务停止成功"
operation_success_message Operation.restart = codes "服务重启成功"
operation_success_message Operation.reload = codes "服务重载成功"
operation_success_message Operation.configure = codes "配置已安全发布并验证成功"
operation_success_message Operation.upgrade = codes "升级并验证成功"
operation_success_message Operation.install = codes "安装并验证成功"

-- The row that `submit` creates.
unfoldable pub task_of : ℕ → ℕ → ℕ → Plan → SoftwareTask
unfolding operation_label
task_of id now requested_by p = record {
  id = id;
  operation = p.operation;
  component = p.component;
  software_key = p.key;
  requested_version = p.version;
  resolved_version = [];
  package_source = [];
  status = Status.queued;
  phase = Phase.of_status Status.queued;
  phase_progress = none;
  progress = 0;
  message = codes "任务已进入" ++ operation_label p.operation ++ codes "队列";
  error_code = [];
  error_message = [];
  failure_phase = none;
  rollback_status = RollbackStatus.not_required;
  recovery_status = [];
  recovery_message = [];
  requested_by = requested_by;
  cancel_requested = false;
  event_seq = 1;
  started_at = none;
  heartbeat_at = none;
  finished_at = none;
  created_at = now;
  updated_at = now;
}

unfoldable pub queued_event : ℕ → SoftwareTask → TaskEvent
queued_event now t = record {
  task_id = t.id;
  seq = 1;
  type = EventType.snapshot;
  level = Level.info;
  status = t.status;
  phase = t.phase;
  phase_progress = none;
  progress = t.progress;
  code = codes "task_queued";
  message = t.message;
  created_at = now;
}

-- The transaction of `submit`; the identifier is the primary key.
unfoldable pub insert_task : ℕ → SoftwareTask → TaskDb → Option TaskDb
unfolding queued_event
insert_task now t db = elim (find_task t.id db.tasks) [
  | some u ↦ none
  | none ↦ some (record db {
    tasks = db.tasks ++ t ∷ [];
    events = db.events ++ queued_event now t ∷ [];
    history =
        db.history
        ++ (if is_configure t.operation
            then record {
              task_id = t.id;
              status = HistoryStatus.pending;
              finished_at = none;
              updated_at = now;
            }
              ∷ []
            else []);
  })
]

pub data Submitted : Type 0 where
  refused : SubmitError → Manager → Submitted
  accepted : SoftwareTask → Manager → Submitted

-- The end of `submit`: into the queue, or, where it is full, the task has failed.
unfoldable pub enqueue : ℕ → SoftwareTask → Manager → Submitted
unfolding finish
enqueue now t m =
    if ltb (length m.queue) queue_size
    then accepted t (record m { queue = m.queue ++ t.id ∷ [] })
    else refused SubmitError.queue_full (record m {
      db =
          ignored m.db
            (finish now t.id Status.failed (codes "QUEUE_FULL") (codes "软件任务队列已满，请稍后重试") m.db);
    })

-- `submit`, with the identifier that was drawn.
unfoldable pub submit : (Text → Bool) → ℕ → ℕ → ℕ → InstallRequest → Manager → Submitted
unfolding plan insert_task enqueue task_of
submit is_uuid id now requested_by r m =
    elim (plan is_uuid m.stopping m.catalog_revision m.software m.db.tasks requested_by r) [
      | err e ↦ refused e m
      | ok p ↦ elim (insert_task now (task_of id now requested_by p) m.db) [
        | none ↦ refused SubmitError.storage_failed m
        | some db ↦ enqueue now (task_of id now requested_by p) (record m { db = db })
      ]
    ]

abbrev pub after : Submitted → Manager
after (refused e m) = m
after (accepted t m) = m
