-- ===== src/SoftwareTask/Progress.antt =====
-- internal/services/softwaretask: how the rows of tasks go on through the writes other than an insertion.
use mathlib.Core.Path.{subst}
use oneinstack_panel.Common.{
  ℕ, ◌≡◌, refl, sym, not, ◌&&◌, Option, none, some, List, [], ◌∷◌, arith, map, Bool-cases,
  Option-cases, inl, inr, ◌==◌, if◌then◌else◌,
}
use oneinstack_panel.Text.{Text}
use oneinstack_panel.SoftwareTask.{
  Status, Phase, SoftwareTask, TaskDb, is_terminal, find_task, save_task,
}
use oneinstack_panel.SoftwareTask.Reporter.{
  TaskUpdate, EventData, apply_update, publish_task, publish,
}
use oneinstack_panel.SoftwareTask.Reports.{Report, report, ignored, set_phase, finish}
use oneinstack_panel.SoftwareTask.Phases.{phase_range}
use oneinstack_panel.SoftwareTask.Lawful.{report_cases}
use oneinstack_panel.SoftwareTask.Later.{
  IsLater, HasLater, IsLater-refl, IsLater-trans, publish_task-HasLater,
}
use oneinstack_panel.SoftwareTask.Cancel.{touch}
use oneinstack_panel.SoftwareTask.Workers.{report_all}
use oneinstack_panel.SoftwareTask.Restart.{RecoveryInspection, reconciled, interrupt, restart}
use oneinstack_panel.SoftwareTask.World.{Manager}

pub record IsProgress (db db' : TaskDb) : Type 0 where
  pub later : (id : ℕ) (t : SoftwareTask) → find_task id db.tasks ≡ some t → HasLater id t db'
  pub absent : (id : ℕ) → find_task id db.tasks ≡ none → find_task id db'.tasks ≡ none

pub IsProgress-same : (db db' : TaskDb) → db'.tasks ≡ db.tasks → IsProgress db db'
IsProgress-same db db' e = record {
  later = λ id t h. (t, subst (λ ts. find_task id ts ≡ some t) (sym e) h, IsLater-refl t);
  absent = λ id h. subst (λ ts. find_task id ts ≡ none) (sym e) h;
}

pub IsProgress-trans :
    (db db1 db2 : TaskDb) → IsProgress db db1 → IsProgress db1 db2 → IsProgress db db2
IsProgress-trans db db1 db2 k l = record {
  later = λ id t h.
      let (u, found, a) = k.later id t h in
      let (v, last, b) = l.later id u found in (v, last, IsLater-trans t u v a b);
  absent = λ id h. l.absent id (k.absent id h);
}

find_task-save_task-none :
    (id : ℕ) (ts : List SoftwareTask) (new : SoftwareTask)
    → find_task id ts ≡ none
    → find_task id (save_task new ts) ≡ none
unfolding save_task
find_task-save_task-none id [] new h = refl
find_task-save_task-none id (u ∷ ts) new h = ground (arith, find_task-save_task-none id ts new)

publish_task-IsProgress :
    (now own : ℕ) (u : TaskUpdate) (e : EventData) (s : SoftwareTask) (db : TaskDb)
    → find_task own db.tasks ≡ some s
    → IsProgress db (publish_task now u e s db)
unfolding publish_task
publish_task-IsProgress now own u e s db mine = record {
  later = λ id t h. publish_task-HasLater now own id u e t s db mine h;
  absent = λ id h. elim (Bool-cases (is_terminal s.status)) [
    | inl over ↦ rw (over, publish_task) h
    | inr live ↦
        rw (live, publish_task) (find_task-save_task-none id db.tasks (apply_update now u s) h)
  ];
}

pub publish-IsProgress :
    (now own : ℕ) (u : TaskUpdate) (e : EventData) (db : TaskDb)
    → IsProgress db (ignored db (publish now own u e db))
unfolding publish
publish-IsProgress now own u e db = elim (Option-cases (find_task own db.tasks)) [
  | inl missing ↦ rw (missing, publish) (IsProgress-same db db refl)
  | inr (s, found) ↦ rw (found, publish) (publish_task-IsProgress now own u e s db found)
]

pub finish-IsProgress :
    (now id : ℕ) (s : Status) (code message : Text) (db : TaskDb)
    → IsProgress db (ignored db (finish now id s code message db))
unfolding finish
finish-IsProgress now id s code message db = publish-IsProgress now id _ _ db

pub set_phase-IsProgress :
    (now id : ℕ) (ph : Phase) (p : Option ℕ) (message code : Text) (db : TaskDb)
    → IsProgress db (ignored db (set_phase now id ph p message code db))
unfolding set_phase
set_phase-IsProgress now id ph p message code db = elim (Option-cases (phase_range ph)) [
  | inl missing ↦ rw (missing, set_phase) (IsProgress-same db db refl)
  | inr (spec, found) ↦ rw (found, set_phase) (publish-IsProgress now id _ _ db)
]

pub report-IsProgress : (now id : ℕ) (r : Report) (db : TaskDb) → IsProgress db (report now id r db)
report-IsProgress now id r db =
    report_cases (IsProgress db) now id db (IsProgress-same db db refl)
      (λ u e t l found. publish_task-IsProgress now id u e t db found) r

pub report_all-IsProgress :
    (now id : ℕ) (rs : List Report) (db : TaskDb) → IsProgress db (report_all now id rs db)
unfolding report_all
report_all-IsProgress now id [] db = IsProgress-same db db refl
report_all-IsProgress now id (r ∷ rs) db =
    IsProgress-trans db (report now id r db) _ (report-IsProgress now id r db)
      (report_all-IsProgress now id rs (report now id r db))

-- A change of every row that keeps the identifiers.
module _ (f : SoftwareTask → SoftwareTask) (same : (t : SoftwareTask) → (f t).id ≡ t.id) where
  pub find_task-map :
      (id : ℕ) (ts : List SoftwareTask) (t : SoftwareTask)
      → find_task id ts ≡ some t
      → find_task id (map f ts) ≡ some (f t)
  find_task-map id [] t h = cc
  find_task-map id (u ∷ ts) t h = ground (arith, same u, find_task-map id ts t)

  pub find_task-map-none :
      (id : ℕ) (ts : List SoftwareTask) → find_task id ts ≡ none → find_task id (map f ts) ≡ none
  find_task-map-none id [] h = refl
  find_task-map-none id (u ∷ ts) h = ground (arith, same u, find_task-map-none id ts)

map-IsProgress :
    (f : SoftwareTask → SoftwareTask)
    → ((t : SoftwareTask) → IsLater t (f t))
    → (db db' : TaskDb) → db'.tasks ≡ map f db.tasks
    → IsProgress db db'
map-IsProgress f l db db' e = record {
  later = λ id t h. (
    f t,
    subst (λ ts. find_task id ts ≡ some (f t)) (sym e)
        (find_task-map f (λ u. (l u).id) id db.tasks t h),
    l t,
  );
  absent = λ id h.
      subst (λ ts. find_task id ts ≡ none) (sym e)
        (find_task-map-none f (λ u. (l u).id) id db.tasks h);
}

touched :
    (now id : ℕ) (t : SoftwareTask)
    → IsLater t (
        if t.id == id && not (is_terminal t.status)
        then record t { heartbeat_at = some now; updated_at = now }
        else t)
touched now id t = record {
  id = ground arith;
  operation = ground arith;
  component = ground arith;
  forward = ground arith;
  counted = ground arith;
  started = λ at e. ground arith;
  frozen = λ h. ground arith;
}

pub touch-IsProgress : (now id : ℕ) (db : TaskDb) → IsProgress db (touch now id db)
unfolding touch
touch-IsProgress now id db = map-IsProgress _ (touched now id) db _ refl

pub reconciled-IsLater :
    (now : ℕ) (inspector : SoftwareTask → RecoveryInspection) (t : SoftwareTask)
    → IsLater t (reconciled now inspector t)
unfolding reconciled interrupt
reconciled-IsLater now inspector t = record {
  id = ground arith;
  operation = ground arith;
  component = ground arith;
  forward = ground arith;
  counted = ground arith;
  started = λ at e. ground arith;
  frozen = λ h. ground arith;
}

pub restart-IsProgress :
    (now : ℕ) (inspector : SoftwareTask → RecoveryInspection) (m : Manager)
    → IsProgress m.db (restart now inspector m).db
unfolding restart
restart-IsProgress now inspector m = map-IsProgress _ (reconciled-IsLater now inspector) m.db _ refl
