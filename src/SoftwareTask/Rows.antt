-- ===== src/SoftwareTask/Rows.antt =====
-- Reading and writing rows of the task table.
use mathlib.Core.Path.{subst}
use oneinstack_panel.Common.{
  ℕ, ◌≡◌, ◌≢◌, refl, some, List, [], ◌∷◌, arith, All, Bool-cases, inl, inr, ◌==◌,
}
use oneinstack_panel.SoftwareTask.{SoftwareTask, find_task, save_task}

pub find_task-id :
    (id : ℕ) (ts : List SoftwareTask) (t : SoftwareTask) → find_task id ts ≡ some t → t.id ≡ id
find_task-id id [] t e = cc
find_task-id id (u ∷ ts) t e = ground (arith, find_task-id id ts t)

-- A row that is found has what all rows have.
pub find_task-All :
    (P : SoftwareTask → Type 0) (id : ℕ) (ts : List SoftwareTask) (t : SoftwareTask)
    → find_task id ts ≡ some t
    → All P ts
    → P t
find_task-All P id [] t e h = cc
find_task-All P id (u ∷ ts) t e (p, h) = elim (Bool-cases (u.id == id)) [
  | inl same ↦ let found : u ≡ t = ground arith in subst P found p
  | inr other ↦
      let found : find_task id ts ≡ some t = ground arith in find_task-All P id ts t found h
]

-- A saved row is found under its id.
pub find_task-save_task_self :
    (ts : List SoftwareTask) (old new : SoftwareTask)
    → find_task new.id ts ≡ some old
    → find_task new.id (save_task new ts) ≡ some new
unfolding save_task
find_task-save_task_self [] old new e = cc
find_task-save_task_self (u ∷ ts) old new e = ground (arith, find_task-save_task_self ts old new)

-- The other rows are found as before.
pub find_task-save_task_other :
    (id : ℕ) (ts : List SoftwareTask) (new : SoftwareTask)
    → id ≢ new.id
    → find_task id (save_task new ts) ≡ find_task id ts
unfolding save_task
find_task-save_task_other id [] new h = refl
find_task-save_task_other id (u ∷ ts) new h = ground (arith, find_task-save_task_other id ts new)

-- What holds of all rows after a row is saved.
pub All-save_task :
    (P Q : SoftwareTask → Type 0) (new : SoftwareTask) (ts : List SoftwareTask)
    → Q new
    → ((t : SoftwareTask) → t.id ≢ new.id → P t → Q t)
    → All P ts
    → All Q (save_task new ts)
unfolding save_task
All-save_task P Q new [] q keep h = tt
All-save_task P Q new (u ∷ ts) q keep (p, h) = elim (Bool-cases (u.id == new.id)) [
  | inl same ↦ (rw same q, All-save_task P Q new ts q keep h)
  | inr other ↦ (rw other (keep u (ground arith) p), All-save_task P Q new ts q keep h)
]
