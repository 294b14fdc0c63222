-- ===== src/SoftwareTask/Holders.antt =====
-- internal/services/softwaretask: the lists of workers and of locks, and the writes that leave the locks alone.
use oneinstack_panel.Common.{
  ℕ, ◌≡◌, ◌≢◌, refl, Option, none, some, List, [], ◌∷◌, ◌++◌, arith, Bool-cases, Option-cases, inl,
  inr, ◌==◌, if◌then◌else◌,
}
use oneinstack_panel.Text.{Text}
use oneinstack_panel.Text.Laws.{text_eq_refl}
use oneinstack_panel.SoftwareTask.{
  Status, Phase, SoftwareTask, TaskDb, OperationLock, is_terminal, find_task,
}
use oneinstack_panel.SoftwareTask.Reporter.{TaskUpdate, EventData, publish_task, publish}
use oneinstack_panel.SoftwareTask.Reports.{Report, report, ignored, set_phase, finish}
use oneinstack_panel.SoftwareTask.Phases.{phase_range}
use oneinstack_panel.SoftwareTask.Lawful.{report_cases}
use oneinstack_panel.SoftwareTask.World.{Stage, Worker}
use oneinstack_panel.SoftwareTask.Workers.{
  find_worker, set_stage, drop_worker, find_lock, acquire_component_lock, release_component_lock,
}

-- The reporter writes no lock.
pub publish-locks :
    (now id : ℕ) (u : TaskUpdate) (e : EventData) (db : TaskDb)
    → (ignored db (publish now id u e db)).locks ≡ db.locks
unfolding publish publish_task
publish-locks now id u e db = elim (Option-cases (find_task id db.tasks)) [
  | inl missing ↦ rw (missing, publish) refl
  | inr (t, here) ↦
      rw (here, publish, publish_task)
        (elim (Bool-cases (is_terminal t.status)) [
          | inl over ↦ rw over refl
          | inr live ↦ rw live refl
        ])
]

pub finish-locks :
    (now id : ℕ) (s : Status) (code message : Text) (db : TaskDb)
    → (ignored db (finish now id s code message db)).locks ≡ db.locks
unfolding finish
finish-locks now id s code message db = publish-locks now id _ _ db

pub set_phase-locks :
    (now id : ℕ) (ph : Phase) (p : Option ℕ) (message code : Text) (db : TaskDb)
    → (ignored db (set_phase now id ph p message code db)).locks ≡ db.locks
unfolding set_phase
set_phase-locks now id ph p message code db = elim (Option-cases (phase_range ph)) [
  | inl missing ↦ rw (missing, set_phase) refl
  | inr (spec, found) ↦ rw (found, set_phase) (publish-locks now id _ _ db)
]

publish_task-locks :
    (now : ℕ) (u : TaskUpdate) (e : EventData) (t : SoftwareTask) (db : TaskDb)
    → (publish_task now u e t db).locks ≡ db.locks
unfolding publish_task
publish_task-locks now u e t db = elim (Bool-cases (is_terminal t.status)) [
  | inl over ↦ rw (over, publish_task) refl
  | inr live ↦ rw (live, publish_task) refl
]

pub report-locks : (now id : ℕ) (r : Report) (db : TaskDb) → (report now id r db).locks ≡ db.locks
report-locks now id r db =
    report_cases (λ d. d.locks ≡ db.locks) now id db refl
      (λ u e t l found. publish_task-locks now u e t db) r

-- The list of workers after a change.
pub find_worker-set_stage :
    (id j : ℕ) (s : Stage) (ws : List Worker) (w' : Worker)
    → find_worker j (set_stage id s ws) ≡ some w'
    → (w : Worker) × (find_worker j ws ≡ some w)
      × (w' ≡ (if w.task.id == id then record w { stage = s } else w))
unfolding set_stage
find_worker-set_stage id j s [] w' e = absurd (cc e)
find_worker-set_stage id j s (v ∷ ws) w' e = elim (Bool-cases (v.task.id == j)) [
  | inl here ↦ elim (Bool-cases (v.task.id == id)) [
    | inl own ↦ (v, ground arith, ground arith)
    | inr other ↦ (v, ground arith, ground arith)
  ]
  | inr past ↦
      let rest : find_worker j (set_stage id s ws) ≡ some w' = ground arith in
      let (w, found, is) = find_worker-set_stage id j s ws w' rest in (w, ground arith, is)
]

pub find_worker-set_stage_self :
    (id : ℕ) (s : Stage) (ws : List Worker) (w : Worker)
    → find_worker id ws ≡ some w
    → find_worker id (set_stage id s ws) ≡ some (record w { stage = s })
unfolding set_stage
find_worker-set_stage_self id s [] w e = absurd (cc e)
find_worker-set_stage_self id s (v ∷ ws) w e = elim (Bool-cases (v.task.id == id)) [
  | inl own ↦ ground arith
  | inr other ↦ ground (arith, find_worker-set_stage_self id s ws w)
]

pub find_worker-drop_worker :
    (id j : ℕ) (ws : List Worker) (w : Worker)
    → find_worker j (drop_worker id ws) ≡ some w
    → (find_worker j ws ≡ some w) × (j ≢ id)
find_worker-drop_worker id j [] w e = absurd (cc e)
find_worker-drop_worker id j (v ∷ ws) w e = ground (arith, find_worker-drop_worker id j ws w)

pub find_worker-id :
    (j : ℕ) (ws : List Worker) (w : Worker) → find_worker j ws ≡ some w → w.task.id ≡ j
find_worker-id j [] w e = absurd (cc e)
find_worker-id j (v ∷ ws) w e = ground (arith, find_worker-id j ws w)

-- The table of locks after a change.
pub find_lock-append :
    (k : Text) (locks : List OperationLock) (new l : OperationLock)
    → find_lock k locks ≡ some l
    → find_lock k (locks ++ new ∷ []) ≡ some l
find_lock-append k [] new l e = absurd (cc e)
find_lock-append k (m ∷ locks) new l e = ground (arith, find_lock-append k locks new l)

pub find_lock-append_new :
    (locks : List OperationLock) (new : OperationLock)
    → find_lock new.component locks ≡ none
    → find_lock new.component (locks ++ new ∷ []) ≡ some new
find_lock-append_new [] new e = ground (arith, text_eq_refl new.component)
find_lock-append_new (m ∷ locks) new e = ground (arith, find_lock-append_new locks new)

pub find_lock-release :
    (k component : Text) (id : ℕ) (locks : List OperationLock) (l : OperationLock)
    → find_lock k locks ≡ some l
    → l.task_id ≢ id
    → find_lock k (release_component_lock component id locks) ≡ some l
find_lock-release k component id [] l e h = absurd (cc e)
find_lock-release k component id (m ∷ locks) l e h =
    ground (arith, find_lock-release k component id locks l)

pub acquire_component_lock-got :
    (now : ℕ) (t : SoftwareTask) (locks locks' : List OperationLock)
    → acquire_component_lock now t locks ≡ some locks'
    → (find_lock t.component locks ≡ none)
      × (locks'
          ≡ locks ++ record { component = t.component; task_id = t.id; acquired_at = now } ∷ [])
unfolding acquire_component_lock
acquire_component_lock-got now t locks locks' e = ground arith
