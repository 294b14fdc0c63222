-- ===== src/SoftwareTask/Sound.antt =====
-- What holds of every stored task.
use oneinstack_panel.Common.{ℕ, ◌≤◌, ◌≡◌, ◌≢◌, refl, true, false, Option, none, some, arith}
use oneinstack_panel.SoftwareTask.{Status, SoftwareTask, is_terminal}
use oneinstack_panel.SoftwareTask.Reporter.{TaskUpdate, apply_update, new_progress}
use oneinstack_panel.SoftwareTask.Lawful.{IsLawful}

pub record IsSound (t : SoftwareTask) : Type 0 where
  pub bounded : t.progress ≤ 100
  pub complete : t.status ≡ Status.succeeded → t.progress ≡ 100
  pub ended : is_terminal t.status ≡ true → t.finished_at ≢ none

new_progress-le :
    (p : Option ℕ) (old : ℕ)
    → ((q : ℕ) → p ≡ some q → q ≤ 100)
    → old ≤ 100
    → new_progress p old ≤ 100
new_progress-le none old b h = h
new_progress-le (some q) old b h = ground (arith, b q refl)

new_progress-eq_100 : (p : Option ℕ) (old : ℕ) → p ≡ some 100 → old ≤ 100 → new_progress p old ≡ 100
new_progress-eq_100 p old e h = ground arith

-- A lawful update of a task that has not ended.
pub apply_update-IsSound :
    (now : ℕ) (u : TaskUpdate) (t : SoftwareTask)
    → IsLawful u
    → is_terminal t.status ≡ false
    → IsSound t
    → IsSound (apply_update now u t)
unfolding apply_update
apply_update-IsSound now u t l live s = record {
  bounded = new_progress-le u.progress t.progress l.bounded s.bounded;
  complete = λ e. ground (arith, l.completes, new_progress-eq_100 u.progress t.progress);
  ended = λ e. ground (arith, l.ends (apply_update now u t).status);
}
