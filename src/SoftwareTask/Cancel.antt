-- ===== src/SoftwareTask/Cancel.antt =====
-- internal/services/softwaretask/repository.go: `Cancel` and `Touch`. Between the two halves of
-- `Cancel` any steps of the workers and of other callers may come.
use oneinstack_panel.Common.{
  ℕ, true, not, ◌&&◌, Option, none, some, List, [], ◌∷◌, ◌++◌, map, ◌==◌, if◌then◌else◌,
}
use oneinstack_panel.Text.{Text, codes}
use oneinstack_panel.SoftwareTask.{
  Status, Phase, Operation, EventType, Level, TaskDb, is_terminal, find_task,
}
use oneinstack_panel.SoftwareTask.Reporter.{TaskUpdate, no_update, EventData, publish}
use oneinstack_panel.SoftwareTask.Reports.{ignored, finish}
use oneinstack_panel.SoftwareTask.World.{Manager}
use oneinstack_panel.SoftwareTask.Workers.{has_id}

abbrev pub cancel_label : Operation → Text
cancel_label Operation.uninstall = codes "卸载"
cancel_label _ = codes "安装"

abbrev pub cancel_update : Operation → TaskUpdate
cancel_update op = record no_update {
  status = some Status.canceling;
  phase = some (Phase.of_status Status.canceling);
  message = codes "正在取消" ++ cancel_label op ++ codes "任务";
  cancel_requested = some true;
}

abbrev pub cancel_event : EventData
cancel_event = record {
  event_type = EventType.phase;
  level = Level.warning;
  phase_progress = none;
  code = codes "cancel_requested";
  message = codes "已收到取消请求";
}

-- The first half of `Cancel`: the request is published, unless the task has ended.
unfoldable pub after_request : ℕ → Manager → Option TaskDb → Manager
after_request id m none = m
after_request id m (some db) = record m { db = db; canceling = id ∷ m.canceling }

unfoldable pub request_cancel : ℕ → ℕ → Manager → Manager
unfolding after_request publish
request_cancel now id m = elim (find_task id m.db.tasks) [
  | none ↦ m
  | some t ↦
      if is_terminal t.status
      then m
      else after_request id m (publish now id (cancel_update t.operation) cancel_event m.db)
]

-- One of the cancellations of the task that are between their halves has its second half.
abbrev pub drop_one : ℕ → List ℕ → List ℕ
drop_one id [] = []
drop_one id (i ∷ ids) = let rest = drop_one id ids in if i == id then ids else i ∷ rest

-- The second half: a task that runs is told by its context, and any other has ended.
unfoldable pub settle_cancel : ℕ → ℕ → Manager → Manager
unfolding finish
settle_cancel now id m =
    if not (has_id id m.canceling)
    then m
    else let m' = record m { canceling = drop_one id m.canceling } in
      if has_id id m.cancels then m' else elim (find_task id m.db.tasks) [
        | none ↦ m'
        | some t ↦ record m' {
          db = ignored m.db (
              finish now id Status.canceled (codes "ACTION_CANCELED")
                (codes "排队中的" ++ cancel_label t.operation ++ codes "任务已取消") m.db);
        }
      ]

-- `Touch`
unfoldable pub touch : ℕ → ℕ → TaskDb → TaskDb
touch now id db = record db {
  tasks =
      map
        (λ t.
          if t.id == id && not (is_terminal t.status)
          then record t { heartbeat_at = some now; updated_at = now }
          else t)
        db.tasks;
}
