-- ===== src/SoftwareTask/Accepted.antt =====
-- internal/services/softwaretask/manager.go: what `submit` answers, and what it has then done.
use mathlib.Core.Path.{subst}
use oneinstack_panel.Common.{
  ℕ, ◌≡◌, ◌≢◌, ◌<◌, ◌≤◌, ◌⊎◌, inl, inr, refl, sym, ap, ◌∙◌, Bool, true, false, not, Option, none,
  some, List, [], ◌∷◌, ◌++◌, arith, Bool-cases, Option-cases, ltb, length,
}
use oneinstack_panel.Text.{Text, codes, is_empty, trim_space}
use oneinstack_panel.SoftwareTask.{Status, Operation, SoftwareTask, TaskDb, find_task}
use oneinstack_panel.SoftwareTask.Reports.{ignored, finish}
use oneinstack_panel.SoftwareTask.Catalog.{Software, find_installed}
use oneinstack_panel.SoftwareTask.Submit.{
  InstallRequest, SubmitError, queue_full, Checked, ok, err, Plan, plan, has_active, resolve,
  version_on, ◌>>=◌,
}
use oneinstack_panel.SoftwareTask.World.{
  Manager, refused, accepted, queue_size, task_of, insert_task, enqueue, submit,
}
use oneinstack_panel.SoftwareTask.Planned.{
  Checked-cases, >>=-ok, guard-ok, IsPlanned, plan-IsPlanned,
}
use oneinstack_panel.SoftwareTask.Exclusive.{insert_task-tasks}
use oneinstack_panel.SoftwareTask.Ends.{IsEnded, finish-IsEnded}

-- A task is an installation exactly where the software has no installed row.
abbrev pub IsOn : Operation → Option Software → Type 0
IsOn op installed =
    (op ≡ Operation.install) × (installed ≡ none)
    ⊎ (op ≢ Operation.install) × ((s : Software) × (installed ≡ some s))

-- What holds of an accepted task and of the manager before and after it.
pub record IsAccepted (id by : ℕ) (r : InstallRequest) (m : Manager) (t : SoftwareTask)
    (m' : Manager) : Type 0 where
  pub running : m.stopping ≡ false
  pub user : by ≢ 0
  pub own : t.id ≡ id
  pub fresh : find_task id m.db.tasks ≡ none
  pub free : has_active t.component m.db.tasks ≡ false
  pub queued : t.status ≡ Status.queued
  pub on : IsOn t.operation (find_installed (trim_space r.key) m.software)
  pub room : length m.queue < queue_size
  pub row : m'.db.tasks ≡ m.db.tasks ++ t ∷ []
  pub last : m'.queue ≡ m.queue ++ id ∷ []

abbrev checked_operation : Operation → Checked (Operation × Text) → Operation
checked_operation op (ok p) = p.0
checked_operation op (err e) = op

version_on-some :
    (op : Operation) (version want : Text) (i : Option Software)
    → version_on op version i ≡ ok want
    → (s : Software) × (i ≡ some s)
unfolding version_on
version_on-some op version want none e = absurd (cc e)
version_on-some op version want (some s) e = (s, refl)

-- The installed version with its operation.
abbrev with_version : Operation → Text → Checked (Operation × Text)
with_version op w = ok (op, w)

version_on-IsOn :
    (asked : Operation) (version : Text) (i : Option Software) (op : Operation) (want : Text)
    → asked ≢ Operation.install
    → (version_on asked version i >>= with_version asked) ≡ ok (op, want)
    → IsOn op i
version_on-IsOn asked version i op want other e =
    let (w, versioned, same) =
      >>=-ok (version_on asked version i) (with_version asked) (op, want) e in
    let is : asked ≡ op = ap (λ c. checked_operation asked c) same in
    inr (λ k. other (is ∙ k), version_on-some asked version w i versioned)

upgrade_other : Operation.upgrade ≢ Operation.install
upgrade_other k = cc

resolve-IsOn :
    (asked : Operation) (version : Text) (i : Option Software) (op : Operation) (want : Text)
    → resolve asked version i ≡ ok (op, want)
    → IsOn op i
unfolding resolve
resolve-IsOn Operation.install version none op want e =
    let (u, same) = guard-ok (not (is_empty version)) _ _ (op, want) e in
    inl (sym (ap (λ c. checked_operation op c) same), refl)
resolve-IsOn Operation.install version (some s) op want e =
    let (u, same) = guard-ok (not (is_empty version)) _ _ (op, want) e in
    let is : Operation.upgrade ≡ op = ap (λ c. checked_operation op c) same in
    inr (λ k. upgrade_other (is ∙ k), (s, refl))
resolve-IsOn Operation.upgrade version i op want e =
    version_on-IsOn Operation.upgrade version i op want (λ k. cc) e
resolve-IsOn Operation.uninstall version i op want e =
    version_on-IsOn Operation.uninstall version i op want (λ k. cc) e
resolve-IsOn Operation.start version i op want e =
    version_on-IsOn Operation.start version i op want (λ k. cc) e
resolve-IsOn Operation.stop version i op want e =
    version_on-IsOn Operation.stop version i op want (λ k. cc) e
resolve-IsOn Operation.restart version i op want e =
    version_on-IsOn Operation.restart version i op want (λ k. cc) e
resolve-IsOn Operation.reload version i op want e =
    version_on-IsOn Operation.reload version i op want (λ k. cc) e
resolve-IsOn Operation.configure version i op want e =
    version_on-IsOn Operation.configure version i op want (λ k. cc) e

find_task-append_new :
    (ts : List SoftwareTask) (t : SoftwareTask)
    → find_task t.id ts ≡ none
    → find_task t.id (ts ++ t ∷ []) ≡ some t
find_task-append_new [] t h = ground arith
find_task-append_new (u ∷ ts) t h = ground (arith, find_task-append_new ts t)

insert_task_fresh :
    (now : ℕ) (t : SoftwareTask) (db db' : TaskDb)
    → insert_task now t db ≡ some db'
    → find_task t.id db.tasks ≡ none
unfolding insert_task
insert_task_fresh now t db db' e = elim (Option-cases (find_task t.id db.tasks)) [
  | inl free ↦ free
  | inr (u, taken) ↦ absurd (ground arith)
]

inserted_found :
    (id now by : ℕ) (p : Plan) (db db1 : TaskDb)
    → insert_task now (task_of id now by p) db ≡ some db1
    → find_task id db1.tasks ≡ some (task_of id now by p)
unfolding task_of
inserted_found id now by p db db1 written =
    subst (λ ts. find_task id ts ≡ some (task_of id now by p))
      (sym (insert_task-tasks now (task_of id now by p) db db1 written).0)
      (find_task-append_new db.tasks (task_of id now by p)
        (insert_task_fresh now (task_of id now by p) db db1 written))

planned-IsAccepted :
    (id now by : ℕ) (r : InstallRequest) (m : Manager) (p : Plan) (db1 : TaskDb)
    {is_uuid : Text → Bool}
    → IsPlanned is_uuid m.stopping m.catalog_revision m.software m.db.tasks by r p
    → insert_task now (task_of id now by p) m.db ≡ some db1
    → ltb (length m.queue) queue_size ≡ true
    → IsAccepted id by r m (task_of id now by p) (record m { db = db1; queue = m.queue ++ id ∷ [] })
unfolding task_of
planned-IsAccepted id now by r m p db1 k written room = record {
  running = k.running;
  user = k.user;
  own = refl;
  fresh = insert_task_fresh now (task_of id now by p) m.db db1 written;
  free = k.free;
  queued = refl;
  on =
      subst (λ key. IsOn p.operation (find_installed key m.software)) k.key
        (resolve-IsOn k.asked (trim_space r.version) (find_installed p.key m.software) p.operation
          p.version k.resolved);
  room = ground arith;
  row = (insert_task-tasks now (task_of id now by p) m.db db1 written).0;
  last = refl;
}

-- A submission is accepted, with what `IsAccepted` says of it, or it is refused and nothing has changed, or the
-- queue is full, and the new task has failed.
pub submit_cases :
    (is_uuid : Text → Bool) (id now by : ℕ) (r : InstallRequest) (m : Manager)
    → ((t : SoftwareTask) × (m' : Manager) × (submit is_uuid id now by r m ≡ accepted t m')
        × IsAccepted id by r m t m')
      ⊎ ((e : SubmitError) × (submit is_uuid id now by r m ≡ refused e m))
      ⊎ ((m' : Manager) × (submit is_uuid id now by r m ≡ refused queue_full m')
          × (queue_size ≤ length m.queue)
          × (m'.queue ≡ m.queue)
          × IsEnded id m'.db)
unfolding submit enqueue
submit_cases is_uuid id now by r m =
    elim (Checked-cases (plan is_uuid m.stopping m.catalog_revision m.software m.db.tasks by r)) [
      | inl (e, no_plan) ↦ inr (inl (e, rw (no_plan, submit) refl))
      | inr (p, made) ↦ elim (Option-cases (insert_task now (task_of id now by p) m.db)) [
        | inl taken ↦ inr (inl (SubmitError.storage_failed, rw (made, taken, submit) refl))
        | inr (db1, written) ↦ elim (Bool-cases (ltb (length m.queue) queue_size)) [
          | inl room ↦ inl (
            task_of id now by p,
            record m { db = db1; queue = m.queue ++ id ∷ [] },
            rw (made, written, submit, enqueue, room) refl,
            planned-IsAccepted id now by r m p db1
                (plan-IsPlanned is_uuid m.stopping m.catalog_revision m.software m.db.tasks by r p
                  made)
                written room,
          )
          | inr full ↦ inr (
              inr (
                record m {
                  db = ignored db1 (
                      finish now id Status.failed (codes "QUEUE_FULL") (codes "软件任务队列已满，请稍后重试")
                        db1);
                },
                rw (made, written, submit, enqueue, full) refl,
                ground arith,
                refl,
                finish-IsEnded now id Status.failed _ _ db1 (task_of id now by p)
                    (inserted_found id now by p m.db db1 written) refl,
              ))
        ]
      ]
    ]
