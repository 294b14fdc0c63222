-- ===== src/SoftwareTask/Later.antt =====
-- What any run of reporter calls keeps: the rows stay sound and numbered, no task goes back, and a
-- task that has ended stays as it is.
use mathlib.Core.Path.{subst}
use oneinstack_panel.Common.{
  some_inj, ℕ, ◌≤◌, ◌≡◌, ◌≢◌, refl, sym, ◌∙◌, true, false, Option, none, some, List, [], ◌∷◌, ◌++◌,
  arith, All, Bool-cases, inl, inr, ◌==◌,
}
use oneinstack_panel.SoftwareTask.{
  SoftwareTask, TaskEvent, TaskDb, is_terminal, find_task, save_task,
}
use oneinstack_panel.SoftwareTask.Reporter.{
  TaskUpdate, EventData, apply_update, event_of, publish_task, new_progress,
}
use oneinstack_panel.SoftwareTask.Reports.{Report, report, run_reports}
use oneinstack_panel.SoftwareTask.Lawful.{IsLawful, report_cases}
use oneinstack_panel.SoftwareTask.Rows.{
  find_task-id, find_task-All, find_task-save_task_self, find_task-save_task_other, All-save_task,
}
use oneinstack_panel.SoftwareTask.Sound.{IsSound, apply_update-IsSound}
use oneinstack_panel.SoftwareTask.Numbered.{IsNumbered, IsNumbered-other, IsNumbered-next}

pub record IsConsistent (db : TaskDb) : Type 0 where
  pub sound : All IsSound db.tasks
  pub numbered : All (λ t. IsNumbered t db.events) db.tasks

apply_update-next :
    (now : ℕ) (u : TaskUpdate) (e : EventData) (t : SoftwareTask) (es : List TaskEvent)
    → IsNumbered t es
    → IsNumbered (apply_update now u t) (es ++ event_of now e (apply_update now u t) ∷ [])
unfolding apply_update event_of
apply_update-next now u e t es k = IsNumbered-next t _ es _ refl refl refl refl k

publish_task-IsConsistent :
    (now id : ℕ) (u : TaskUpdate) (e : EventData) (t : SoftwareTask) (db : TaskDb)
    → IsLawful u
    → find_task id db.tasks ≡ some t
    → IsConsistent db
    → IsConsistent (publish_task now u e t db)
unfolding publish_task
publish_task-IsConsistent now id u e t db l found k = elim (Bool-cases (is_terminal t.status)) [
  | inl over ↦ rw (over, publish_task) k
  | inr live ↦
      rw (live, publish_task)
        (record {
          sound =
              All-save_task IsSound IsSound (apply_update now u t) db.tasks
                (apply_update-IsSound now u t l live
                  (find_task-All IsSound id db.tasks t found k.sound))
                (λ v h s. s) k.sound;
          numbered =
              All-save_task (λ v. IsNumbered v db.events)
                (λ v. IsNumbered v (db.events ++ event_of now e (apply_update now u t) ∷ []))
                (apply_update now u t) db.tasks
                (apply_update-next now u e t db.events
                  (find_task-All (λ v. IsNumbered v db.events) id db.tasks t found k.numbered))
                (λ v h n. IsNumbered-other v db.events _ (λ q. h (sym q)) n) k.numbered;
        })
]

report-IsConsistent :
    (now id : ℕ) (r : Report) (db : TaskDb) → IsConsistent db → IsConsistent (report now id r db)
report-IsConsistent now id r db k =
    report_cases IsConsistent now id db k
      (λ u e t l found. publish_task-IsConsistent now id u e t db l found k) r

-- After any calls of the reporters, if the table was consistent: each task's progress is at most 100, a task that succeeded is
-- at 100, a task that ended has the time of its end, and each task's events are numbered without a
-- gap from 1 to its `event_seq`.
pub run_reports-IsConsistent :
    (rs : List (ℕ × ℕ × Report)) (db : TaskDb) → IsConsistent db → IsConsistent (run_reports rs db)
unfolding run_reports
run_reports-IsConsistent [] db k = k
run_reports-IsConsistent ((now, id, r) ∷ rs) db k =
    run_reports-IsConsistent rs (report now id r db) (report-IsConsistent now id r db k)

-- What a task becomes.
pub record IsLater (t t' : SoftwareTask) : Type 0 where
  pub id : t'.id ≡ t.id
  pub operation : t'.operation ≡ t.operation
  pub component : t'.component ≡ t.component
  pub forward : t.progress ≤ t'.progress
  pub counted : t.event_seq ≤ t'.event_seq
  pub started : (at : ℕ) → t.started_at ≡ some at → t'.started_at ≡ some at
  pub frozen : is_terminal t.status ≡ true → t' ≡ t

pub IsLater-refl : (t : SoftwareTask) → IsLater t t
IsLater-refl t = record {
  id = refl;
  operation = refl;
  component = refl;
  forward = omega arith;
  counted = omega arith;
  started = λ at e. e;
  frozen = λ h. refl;
}

pub IsLater-trans : (t u v : SoftwareTask) → IsLater t u → IsLater u v → IsLater t v
IsLater-trans t u v k l = record {
  id = l.id ∙ k.id;
  operation = l.operation ∙ k.operation;
  component = l.component ∙ k.component;
  forward = omega (arith, k.forward, l.forward);
  counted = omega (arith, k.counted, l.counted);
  started = λ at e. l.started at (k.started at e);
  frozen = λ h. l.frozen (rw (k.frozen h) h) ∙ k.frozen h;
}

new_progress-ge : (p : Option ℕ) (old : ℕ) → old ≤ new_progress p old
new_progress-ge none old = omega arith
new_progress-ge (some q) old = ground arith

apply_update-IsLater :
    (now : ℕ) (u : TaskUpdate) (t : SoftwareTask)
    → is_terminal t.status ≡ false
    → IsLater t (apply_update now u t)
unfolding apply_update
apply_update-IsLater now u t live = record {
  id = refl;
  operation = refl;
  component = refl;
  forward = new_progress-ge u.progress t.progress;
  counted = omega arith;
  started = λ at e. ground arith;
  frozen = λ h. cc;
}

-- The row of `id` after a change, later than `t`.
abbrev pub HasLater : ℕ → SoftwareTask → TaskDb → Type 0
HasLater id t db = (t' : SoftwareTask) × (find_task id db.tasks ≡ some t') × IsLater t t'

-- The change of the task's own row, and of the row of another task.
module _ (now own : ℕ) (u : TaskUpdate) (s : SoftwareTask) (ts : List SoftwareTask)
    (mine : find_task own ts ≡ some s) where
  own_row : find_task s.id ts ≡ some s
  own_row = subst (λ n. find_task n ts ≡ some s) (sym (find_task-id own ts s mine)) mine

  save_self :
      (id : ℕ) (t : SoftwareTask)
      → id ≡ s.id
      → is_terminal s.status ≡ false
      → find_task id ts ≡ some t
      → (t' : SoftwareTask) × (find_task id (save_task (apply_update now u s) ts) ≡ some t')
        × IsLater t t'
  unfolding apply_update
  save_self id t same live found =
      let here = own_row in
      let is : s ≡ t = some_inj (sym here ∙ subst (λ n. find_task n ts ≡ some t) same found) in
      (
        apply_update now u s,
        subst (λ n. find_task n (save_task (apply_update now u s) ts) ≡ some (apply_update now u s))
            (sym same) (find_task-save_task_self ts s (apply_update now u s) here),
        subst (λ x. IsLater x (apply_update now u s)) is (apply_update-IsLater now u s live),
      )

  save_other :
      (id : ℕ) → id ≢ s.id → find_task id (save_task (apply_update now u s) ts) ≡ find_task id ts
  unfolding apply_update
  save_other id h = find_task-save_task_other id ts (apply_update now u s) h

pub publish_task-HasLater :
    (now own id : ℕ) (u : TaskUpdate) (e : EventData) (t s : SoftwareTask) (db : TaskDb)
    → find_task own db.tasks ≡ some s
    → find_task id db.tasks ≡ some t
    → HasLater id t (publish_task now u e s db)
unfolding publish_task
publish_task-HasLater now own id u e t s db mine found = elim (Bool-cases (is_terminal s.status)) [
  | inl over ↦ rw (over, publish_task) (t, found, IsLater-refl t)
  | inr live ↦
      rw (live, publish_task)
        (elim (Bool-cases (id == s.id)) [
          | inl same ↦ save_self now own u s db.tasks mine id t (ground arith) live found
          | inr other ↦
              (t, save_other now own u s db.tasks mine id (ground arith) ∙ found, IsLater-refl t)
        ])
]

report-HasLater :
    (now own id : ℕ) (r : Report) (t : SoftwareTask) (db : TaskDb)
    → find_task id db.tasks ≡ some t
    → HasLater id t (report now own r db)
report-HasLater now own id r t db found =
    report_cases (HasLater id t) now own db (t, found, IsLater-refl t)
      (λ u e s l mine. publish_task-HasLater now own id u e t s db mine found) r

-- Through any calls of the reporters a task that the table holds stays in it. Its operation and component stay,
-- its progress and its event number never go back, its start stays once it is set, and a task that
-- has ended does not change at all.
pub run_reports-IsLater :
    (rs : List (ℕ × ℕ × Report)) (db : TaskDb) (id : ℕ) (t : SoftwareTask)
    → find_task id db.tasks ≡ some t
    → (t' : SoftwareTask) × (find_task id (run_reports rs db).tasks ≡ some t') × IsLater t t'
unfolding run_reports
run_reports-IsLater [] db id t found = (t, found, IsLater-refl t)
run_reports-IsLater ((now, own, r) ∷ rs) db id t found =
    let (u, next, k) = report-HasLater now own id r t db found in
    let (v, last, l) = run_reports-IsLater rs (report now own r db) id u next in
    (v, last, IsLater-trans t u v k l)
