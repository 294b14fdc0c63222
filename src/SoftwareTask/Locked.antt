-- ===== src/SoftwareTask/Locked.antt =====
-- The lock of a component in internal/services/softwaretask: which worker holds it.
use mathlib.Core.Path.{subst}
use oneinstack_panel.Common.{
  ℕ, ◌≡◌, refl, sym, ap, ◌∙◌, Bool, true, false, some, List, ◌∷◌, arith, some_inj, Bool-cases, inl,
  inr, ◌==◌, ==_iff,
}
use oneinstack_panel.Text.{Text}
use oneinstack_panel.SoftwareTask.{SoftwareTask, OperationLock}
use oneinstack_panel.SoftwareTask.World.{Stage, Worker}
use oneinstack_panel.SoftwareTask.Workers.{
  find_worker, set_stage, drop_worker, find_lock, acquire_component_lock, release_component_lock,
}
use oneinstack_panel.SoftwareTask.Holders.{
  find_worker-set_stage, find_worker-drop_worker, find_worker-id, find_lock-append,
  find_lock-append_new, find_lock-release, acquire_component_lock-got,
}

-- The stages at which a worker may do its work: between its lock and its release.
abbrev pub holds : Stage → Bool
holds Stage.locked = true
holds Stage.executing = true
holds Stage.concluded = true
holds (Stage.reporting rs) = true
holds _ = false

-- The lock of a component stands for a task.
abbrev pub IsLockOf : ℕ → Text → List OperationLock → Type 0
IsLockOf id component ls =
    (l : OperationLock) × (find_lock component ls ≡ some l) × (l.task_id ≡ id)

-- Each worker at such a stage has the lock of its component.
abbrev pub HoldLocks : List Worker → List OperationLock → Type 0
HoldLocks ws ls =
    (id : ℕ) (w : Worker)
    → find_worker id ws ≡ some w
    → holds w.stage ≡ true
    → IsLockOf id w.task.component ls

abbrev new : ℕ → Worker → OperationLock
new now v = record { component = v.task.component; task_id = v.task.id; acquired_at = now }

module _ (ws : List Worker) (ls : List OperationLock) where
  pub drop_worker-HoldLocks : (id : ℕ) → HoldLocks ws ls → HoldLocks (drop_worker id ws) ls
  drop_worker-HoldLocks id h j w e o =
      let (found, other) = find_worker-drop_worker id j ws w e in h j w found o

  pub enter-HoldLocks :
      (t : SoftwareTask)
      → HoldLocks ws ls
      → HoldLocks (record { task = t; stage = Stage.entered } ∷ ws) ls
  enter-HoldLocks t h j w e o = elim (Bool-cases (t.id == j)) [
    | inl own ↦ absurd (ground arith)
    | inr other ↦ h j w (ground arith) o
  ]

  pub set_stage-HoldLocks :
      (id : ℕ) (s : Stage)
      → ((w : Worker) → find_worker id ws ≡ some w → holds s ≡ true → holds w.stage ≡ true)
      → HoldLocks ws ls
      → HoldLocks (set_stage id s ws) ls
  set_stage-HoldLocks id s k h j w' e o =
      let (w, found, is) = find_worker-set_stage id j s ws w' e in
      elim (Bool-cases (w.task.id == id)) [
        | inr other ↦
            let same : w' ≡ w = is ∙ rw other refl in
            subst (λ v. IsLockOf j v.task.component ls) (sym same)
              (h j w found (ap (λ v. holds v.stage) (sym same) ∙ o))
        | inl own ↦
            let moved : w' ≡ record w { stage = s } = is ∙ rw own refl in
            let here : j ≡ id = sym (find_worker-id j ws w found) ∙ (==_iff w.task.id id).0 own in
            subst (λ v. IsLockOf j v.task.component ls) (sym moved)
              (h j w found (
                k w (subst (λ i. find_worker i ws ≡ some w) here found)
                  (ap (λ v. holds v.stage) (sym moved) ∙ o)))
      ]

  pub lock-HoldLocks :
      (now id : ℕ) (v : Worker) (ls' : List OperationLock)
      → find_worker id ws ≡ some v
      → acquire_component_lock now v.task ls ≡ some ls'
      → HoldLocks ws ls
      → HoldLocks (set_stage id Stage.locked ws) ls'
  lock-HoldLocks now id v ls' e got h j w' e' o =
      let (w, found, is) = find_worker-set_stage id j Stage.locked ws w' e' in
      let (free, is') = acquire_component_lock-got now v.task ls ls' got in
      elim (Bool-cases (w.task.id == id)) [
        | inr other ↦
            let same : w' ≡ w = is ∙ rw other refl in
            let (l, has, of) = h j w found (ap (λ x. holds x.stage) (sym same) ∙ o) in
            subst (λ x. IsLockOf j x.task.component ls') (sym same)
              (subst (IsLockOf j w.task.component) (sym is')
                (l, find_lock-append w.task.component ls (new now v) l has, of))
        | inl own ↦
            let moved : w' ≡ record w { stage = Stage.locked } = is ∙ rw own refl in
            let here : j ≡ id = sym (find_worker-id j ws w found) ∙ (==_iff w.task.id id).0 own in
            let one : w ≡ v = some_inj (sym found ∙ ap (λ i. find_worker i ws) here ∙ e) in
            subst (λ x. IsLockOf j x.task.component ls') (sym moved)
              (subst (λ x. IsLockOf j x.task.component ls') (sym one)
                (subst (IsLockOf j v.task.component) (sym is') (
                  new now v,
                  find_lock-append_new ls (new now v) free,
                  find_worker-id id ws v e ∙ sym here,
                )))
      ]

  pub release-HoldLocks :
      (id : ℕ) (component : Text)
      → HoldLocks ws ls
      → HoldLocks (drop_worker id ws) (release_component_lock component id ls)
  release-HoldLocks id component h j w e o =
      let (found, other) = find_worker-drop_worker id j ws w e in
      let (l, has, of) = h j w found o in
      (
        l,
        find_lock-release w.task.component component id ls l has (λ same. other (sym of ∙ same)),
        of,
      )

-- Two workers at such stages on one component are one.
pub HoldLocks-one :
    (ws : List Worker) (ls : List OperationLock)
    → HoldLocks ws ls
    → (i j : ℕ) (w v : Worker) → find_worker i ws ≡ some w
    → find_worker j ws ≡ some v
    → holds w.stage ≡ true
    → holds v.stage ≡ true
    → w.task.component ≡ v.task.component
    → i ≡ j
HoldLocks-one ws ls h i j w v e e' o o' same =
    let (l, has, of) = h i w e o in
    let (l', has', of') = h j v e' o' in
    let one : l ≡ l' = some_inj (sym has ∙ ap (λ c. find_lock c ls) same ∙ has') in
    sym of ∙ ap (λ x. x.task_id) one ∙ of'
