-- ===== src/SoftwareTask/Exclusive.antt =====
-- internal/services/softwaretask: the active tasks of a component, and what `submit` adds to them.
use mathlib.Core.Path.{subst}
use oneinstack_panel.Common.{
  ℕ, ◌≡◌, ◌⊎◌, refl, sym, ap, ◌∙◌, Bool, false, not, ◌&&◌, some, List, [], ◌∷◌, ◌++◌, arith,
  some_inj, Bool-cases, Option-cases, inl, inr, ◌==◌, ltb, length,
}
use oneinstack_panel.Text.{Text, text_eq}
use oneinstack_panel.Text.Laws.{text_eq_iff}
use oneinstack_panel.SoftwareTask.{Status, SoftwareTask, TaskDb, is_terminal, find_task}
use oneinstack_panel.SoftwareTask.Submit.{InstallRequest, Plan, plan, has_active}
use oneinstack_panel.SoftwareTask.World.{
  Manager, queue_size, task_of, insert_task, enqueue, submit, after,
}
use oneinstack_panel.SoftwareTask.Planned.{plan-IsPlanned, Checked-cases}
use oneinstack_panel.SoftwareTask.Progress.{IsProgress, IsProgress-same, finish-IsProgress}

-- Two active tasks of one component are one task.
abbrev pub OneActive : TaskDb → Type 0
OneActive db =
    (i j : ℕ) (t u : SoftwareTask)
    → find_task i db.tasks ≡ some t
    → find_task j db.tasks ≡ some u
    → is_terminal t.status ≡ false
    → is_terminal u.status ≡ false
    → t.component ≡ u.component
    → i ≡ j

-- An active row was there, active, of the same component.
earlier :
    (db db' : TaskDb) (k : IsProgress db db') (i : ℕ) (t' : SoftwareTask)
    → find_task i db'.tasks ≡ some t'
    → is_terminal t'.status ≡ false
    → (t : SoftwareTask) × (find_task i db.tasks ≡ some t)
      × (is_terminal t.status ≡ false)
      × (t'.component ≡ t.component)
earlier db db' k i t' h live = elim (Option-cases (find_task i db.tasks)) [
  | inl missing ↦ let gone = k.absent i missing in absurd (cc (gone, h))
  | inr (t, here) ↦
      let (u, next, l) = k.later i t here in
      let same : u ≡ t' = some_inj (sym next ∙ h) in
      (
        t,
        here,
        elim (Bool-cases (is_terminal t.status)) [
          | inr still ↦ still
          | inl over ↦ let kept = l.frozen over in absurd (cc (kept, same, over, live))
        ],
        ap (λ x. x.component) (sym same) ∙ l.component,
      )
]

pub IsProgress-OneActive : (db db' : TaskDb) → IsProgress db db' → OneActive db → OneActive db'
IsProgress-OneActive db db' k one i j t u a b live live' same =
    let (s, here, active, c) = earlier db db' k i t a live in
    let (v, there, active', d) = earlier db db' k j u b live' in
    one i j s v here there active active' (sym c ∙ same ∙ d)

has_active-find_task :
    (component : Text) (ts : List SoftwareTask) (i : ℕ) (t : SoftwareTask)
    → has_active component ts ≡ false
    → find_task i ts ≡ some t
    → is_terminal t.status ≡ false
    → text_eq t.component component ≡ false
has_active-find_task component [] i t h e live = absurd (cc e)
has_active-find_task component (s ∷ ts) i t h e live = elim (Bool-cases (s.id == i)) [
  | inl here ↦
      let is : s ≡ t = ground arith in
      let first : (text_eq s.component component && not (is_terminal s.status)) ≡ false =
        ground arith in
      let active : is_terminal s.status ≡ false = ap (λ x. is_terminal x.status) is ∙ live in
      let apart : text_eq s.component component ≡ false = ground arith in
      ap (λ x. text_eq x.component component) (sym is) ∙ apart
  | inr other ↦
      let rest : has_active component ts ≡ false = ground arith in
      let found : find_task i ts ≡ some t = ground arith in
      has_active-find_task component ts i t rest found live
]

-- A row of the longer table is one of the shorter, or the new one.
find_task-append :
    (i : ℕ) (ts : List SoftwareTask) (new t : SoftwareTask)
    → find_task i (ts ++ new ∷ []) ≡ some t
    → (find_task i ts ≡ some t) ⊎ ((t ≡ new) × (i ≡ new.id))
find_task-append i [] new t e = elim (Bool-cases (new.id == i)) [
  | inl same ↦ inr (ground arith, ground arith)
  | inr other ↦ absurd (ground arith)
]
find_task-append i (s ∷ ts) new t e = elim (Bool-cases (s.id == i)) [
  | inl same ↦ inl (ground arith)
  | inr other ↦
      let rest : find_task i (ts ++ new ∷ []) ≡ some t = ground arith in
      elim (find_task-append i ts new t rest) [ inl old ↦ inl (ground arith) | inr p ↦ inr p ]
]

-- A new task of a component that has no active one.
insert-OneActive :
    (db db1 : TaskDb) (new : SoftwareTask)
    → db1.tasks ≡ db.tasks ++ new ∷ []
    → has_active new.component db.tasks ≡ false
    → OneActive db
    → OneActive db1
insert-OneActive db db1 new e free one i j t u a b live live' same =
    elim (find_task-append i db.tasks new t (subst (λ ts. find_task i ts ≡ some t) e a)) [
      | inl old ↦
          elim (find_task-append j db.tasks new u (subst (λ ts. find_task j ts ≡ some u) e b)) [
            | inl old' ↦ one i j t u old old' live live' same
            | inr (is, at) ↦
                let apart = has_active-find_task new.component db.tasks i t free old live in
                let same' : t.component ≡ new.component = same ∙ ap (λ x. x.component) is in
                let eq = (text_eq_iff t.component new.component).1 same' in absurd (cc (apart, eq))
          ]
      | inr (is, at) ↦
          elim (find_task-append j db.tasks new u (subst (λ ts. find_task j ts ≡ some u) e b)) [
            | inl old' ↦
                let apart = has_active-find_task new.component db.tasks j u free old' live' in
                let same' : u.component ≡ new.component = sym same ∙ ap (λ x. x.component) is in
                let eq = (text_eq_iff u.component new.component).1 same' in absurd (cc (apart, eq))
            | inr (is', at') ↦ at ∙ sym at'
          ]
    ]

pub enqueue-IsProgress :
    (now : ℕ) (t : SoftwareTask) (m : Manager) → IsProgress m.db (after (enqueue now t m)).db
unfolding enqueue
enqueue-IsProgress now t m = elim (Bool-cases (ltb (length m.queue) queue_size)) [
  | inl room ↦ rw (room, enqueue) (IsProgress-same m.db m.db refl)
  | inr full ↦ rw (full, enqueue) (finish-IsProgress now t.id Status.failed _ _ m.db)
]

of_plan :
    (id now by : ℕ) (p : Plan) (ts : List SoftwareTask)
    → has_active p.component ts ≡ false
    → has_active (task_of id now by p).component ts ≡ false
unfolding task_of
of_plan id now by p ts h = h

pub insert_task-tasks :
    (now : ℕ) (t : SoftwareTask) (db db1 : TaskDb)
    → insert_task now t db ≡ some db1
    → (db1.tasks ≡ db.tasks ++ t ∷ []) × (db1.locks ≡ db.locks)
unfolding insert_task
insert_task-tasks now t db db1 = elim (Option-cases (find_task t.id db.tasks)) [
  | inr (u, taken) ↦ rw (taken, insert_task) (λ e. absurd (cc e))
  | inl free ↦
      rw (free, insert_task)
        (λ e. (ap (λ d. d.tasks) (sym (some_inj e)), ap (λ d. d.locks) (sym (some_inj e))))
]

pub submit-OneActive :
    (is_uuid : Text → Bool) (id now by : ℕ) (r : InstallRequest) (m : Manager)
    → OneActive m.db
    → OneActive (after (submit is_uuid id now by r m)).db
unfolding submit
submit-OneActive is_uuid id now by r m one =
    elim (Checked-cases (plan is_uuid m.stopping m.catalog_revision m.software m.db.tasks by r)) [
      | inl (e, no_plan) ↦ rw (no_plan, submit) one
      | inr (p, made) ↦ elim (Option-cases (insert_task now (task_of id now by p) m.db)) [
        | inl taken ↦ rw (made, taken, submit) one
        | inr (db1, written) ↦
            let k =
              plan-IsPlanned is_uuid m.stopping m.catalog_revision m.software m.db.tasks by r p
                made in
            let rows = (insert_task-tasks now (task_of id now by p) m.db db1 written).0 in
            rw (made, written, submit)
              (IsProgress-OneActive db1 _
                (enqueue-IsProgress now (task_of id now by p) (record m { db = db1 }))
                (insert-OneActive m.db db1 (task_of id now by p) rows
                  (of_plan id now by p m.db.tasks k.free) one))
      ]
    ]
