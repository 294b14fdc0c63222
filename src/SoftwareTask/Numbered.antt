-- ===== src/SoftwareTask/Numbered.antt =====
-- The events of a task carry the numbers 1, 2, … up to the task's `event_seq`.
use oneinstack_panel.Common.{
  ℕ, ◌+◌, ◌≡◌, ◌≢◌, ap, List, [], ◌∷◌, ◌++◌, arith, length, length-append, select, ◌==◌, Bool-cases,
  inl, inr,
}
use oneinstack_panel.SoftwareTask.{SoftwareTask, TaskEvent}

abbrev pub own_events : ℕ → List TaskEvent → List TaskEvent
own_events id es = select (λ e. e.task_id == id) es

abbrev pub Counts : ℕ → List TaskEvent → Type 0
Counts n [] = Unit
Counts n (e ∷ es) = (e.seq ≡ n) × Counts (n + 1) es

pub record IsNumbered (t : SoftwareTask) (events : List TaskEvent) : Type 0 where
  pub counts : Counts 1 (own_events t.id events)
  pub latest : t.event_seq ≡ length (own_events t.id events)

own_events-append_other :
    (id : ℕ) (es : List TaskEvent) (e : TaskEvent)
    → e.task_id ≢ id
    → own_events id (es ++ e ∷ []) ≡ own_events id es
own_events-append_other id [] e h = ground arith
own_events-append_other id (x ∷ es) e h = ground (arith, own_events-append_other id es e h)

own_events-append_self :
    (id : ℕ) (es : List TaskEvent) (e : TaskEvent)
    → e.task_id ≡ id
    → own_events id (es ++ e ∷ []) ≡ own_events id es ++ e ∷ []
own_events-append_self id [] e h = ground arith
own_events-append_self id (x ∷ es) e h = elim (Bool-cases (x.task_id == id)) [
  | inl same ↦ rw (same, own_events, select) (ap (λ r. x ∷ r) (own_events-append_self id es e h))
  | inr other ↦ rw (other, own_events, select) (own_events-append_self id es e h)
]

Counts-append :
    (n : ℕ) (es : List TaskEvent) (e : TaskEvent)
    → Counts n es
    → e.seq ≡ n + length es
    → Counts n (es ++ e ∷ [])
Counts-append n [] e h s = (omega arith, tt)
Counts-append n (x ∷ es) e (k, h) s = (k, Counts-append (n + 1) es e h (omega arith))

-- An event of another task.
pub IsNumbered-other :
    (t : SoftwareTask) (es : List TaskEvent) (e : TaskEvent)
    → e.task_id ≢ t.id
    → IsNumbered t es
    → IsNumbered t (es ++ e ∷ [])
IsNumbered-other t es e h k =
    let same = own_events-append_other t.id es e h in
    record { counts = rw same k.counts; latest = rw same k.latest }

-- The next event of a task.
pub IsNumbered-next :
    (t new : SoftwareTask) (es : List TaskEvent) (e : TaskEvent)
    → new.id ≡ t.id
    → e.task_id ≡ t.id
    → e.seq ≡ new.event_seq
    → new.event_seq ≡ t.event_seq + 1
    → IsNumbered t es
    → IsNumbered new (es ++ e ∷ [])
IsNumbered-next t new es e i j s n k =
    let same = own_events-append_self t.id es e j in
    let next : e.seq ≡ 1 + length (own_events t.id es) = omega (arith, k.latest) in
    record {
      counts = rw (i, same) (Counts-append 1 (own_events t.id es) e k.counts next);
      latest = rw (i, same) (omega (arith, length-append (own_events t.id es) (e ∷ []), k.latest));
    }
