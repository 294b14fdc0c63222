-- ===== src/SoftwareTask/Lawful.antt =====
-- Each call of a reporter is one publication of a lawful update, or does nothing.
use oneinstack_panel.Common.{
  ℕ, ◌-◌, ◌*◌, ◌≤◌, ◌≡◌, ◌≢◌, refl, true, false, Option, none, some, arith, Bool-cases,
  Option-cases, inl, inr, ◌&&◌,
}
use oneinstack_panel.Common.Int.{ℤ}
use oneinstack_panel.Text.{Text, is_empty, trim_space}
use oneinstack_panel.SoftwareTask.{Status, Phase, SoftwareTask, TaskDb, is_terminal, find_task}
use oneinstack_panel.SoftwareTask.Phases.{PhaseRange, phase_range, progress_at}
use oneinstack_panel.SoftwareTask.Reporter.{TaskUpdate, EventData, publish, publish_task}
use oneinstack_panel.SoftwareTask.Reports.{
  set_phase, phase_update, finish_update, clamp_percent, rollback_start_update, rollback_update,
  Report, report, ignored, on_action_start, on_action_progress, on_action_complete,
  on_package_resolved, action_start, package_resolved, action_progress, action_complete,
  rollback_start, rollback_complete, resolving_set, finalizing_set, finished,
}

-- An update that keeps the progress within 100, ends a task only with the time of the end, and
-- lets it succeed only at 100.
pub record IsLawful (u : TaskUpdate) : Type 0 where
  pub bounded : (p : ℕ) → u.progress ≡ some p → p ≤ 100
  pub ends : (s : Status) → u.status ≡ some s → is_terminal s ≡ true → u.finished_at ≢ none
  pub completes : u.status ≡ some Status.succeeded → u.progress ≡ some 100

-- Every range lies within 0 and 100, and no phase has a terminal status.
phase_range_bounds :
    (ph : Phase) (spec : PhaseRange)
    → phase_range ph ≡ some spec
    → (spec.start ≤ spec.end) × (spec.end ≤ 100) × (is_terminal spec.status ≡ false)
unfolding phase_range
phase_range_bounds ph spec e = ground arith

le-some : {a b n : ℕ} → Path (Option ℕ) (some a) (some b) → a ≤ n → b ≤ n
le-some e h = ground arith

scaled : (d q : ℕ) → q ≤ 100 → d * q ≤ d * 100
scaled d q h = grind arith

progress_at_bounds :
    (spec : PhaseRange) (p : Option ℕ)
    → (spec.start ≤ spec.end) × (spec.end ≤ 100) × (is_terminal spec.status ≡ false)
    → ((q : ℕ) → p ≡ some q → q ≤ 100)
    → progress_at spec p ≤ 100
progress_at_bounds spec none (l, h, _) b = omega arith
progress_at_bounds spec (some q) (l, h, _) b =
    omega (arith, scaled (spec.end - spec.start) q (b q refl))

phase_update-IsLawful :
    (ph : Phase) (spec : PhaseRange) (p : Option ℕ) (message : Text)
    → phase_range ph ≡ some spec
    → ((q : ℕ) → p ≡ some q → q ≤ 100)
    → IsLawful (phase_update spec ph p message)
unfolding phase_update
phase_update-IsLawful ph spec p message e b =
    let k = phase_range_bounds ph spec e in
    record {
      bounded = λ q same. le-some same (progress_at_bounds spec p k b);
      ends = λ s same over. ground arith;
      completes = λ same. ground arith;
    }

finish_update-IsLawful :
    (now : ℕ) (s : Status) (code message : Text) → IsLawful (finish_update now s code message)
unfolding finish_update
finish_update-IsLawful now s code message = record {
  bounded = λ p e. ground arith;
  ends = λ t e h. ground arith;
  completes = λ e. ground arith;
}

-- An update that leaves the status and the progress alone.
quiet-IsLawful : (u : TaskUpdate) → u.progress ≡ none → u.status ≡ none → IsLawful u
quiet-IsLawful u p q = record { bounded = λ n e. cc; ends = λ s e h. cc; completes = λ e. cc }

rollback_update-IsLawful : (error : Option Text) → IsLawful (rollback_update error)
unfolding rollback_update
rollback_update-IsLawful none = quiet-IsLawful _ refl refl
rollback_update-IsLawful (some error) = quiet-IsLawful _ refl refl

rollback_start_update-IsLawful : IsLawful rollback_start_update
rollback_start_update-IsLawful = record {
  bounded = λ n e. cc;
  ends = λ s e h. ground arith;
  completes = λ e. ground arith;
}

clamp_percent-le : (z : ℤ) → clamp_percent z ≤ 100
unfolding clamp_percent
clamp_percent-le z = ground arith

-- What holds after doing nothing and after each lawful publication holds after any call.
module _ {ℓ} (P : TaskDb → Type ℓ) (now id : ℕ) (db : TaskDb) (idle : P db)
    (published : (u : TaskUpdate) (e : EventData) (t : SoftwareTask)
      → IsLawful u
      → find_task id db.tasks ≡ some t
      → P (publish_task now u e t db)) where
  publish_cases :
      (u : TaskUpdate) (e : EventData) → IsLawful u → P (ignored db (publish now id u e db))
  unfolding publish
  publish_cases u e l = elim (Option-cases (find_task id db.tasks)) [
    | inl missing ↦ rw (missing, publish) idle
    | inr (t, found) ↦ rw (found, publish) (published u e t l found)
  ]

  set_phase_cases :
      (ph : Phase) (p : Option ℕ) (message code : Text)
      → ((q : ℕ) → p ≡ some q → q ≤ 100)
      → P (ignored db (set_phase now id ph p message code db))
  unfolding set_phase
  set_phase_cases ph p message code b = elim (Option-cases (phase_range ph)) [
    | inl missing ↦ rw (missing, set_phase) idle
    | inr (spec, found) ↦
        rw (found, set_phase) (publish_cases _ _ (phase_update-IsLawful ph spec p message found b))
  ]

  on_action_start_cases :
      (action : Text) (ph : Option Phase) → P (on_action_start now id action ph db)
  unfolding on_action_start
  on_action_start_cases action none = idle
  on_action_start_cases action (some ph) = set_phase_cases ph none _ _ (λ q e. cc)

  on_action_progress_cases :
      (ph : Option Phase) (percent : ℤ) (code message : Text)
      → P (on_action_progress now id ph percent code message db)
  unfolding on_action_progress
  on_action_progress_cases none percent code message = idle
  on_action_progress_cases (some ph) percent code message =
      set_phase_cases ph (some (clamp_percent percent)) _ code
        (λ q e. le-some e (clamp_percent-le percent))

  on_action_complete_cases :
      (action : Text) (ph : Option Phase) → P (on_action_complete now id action ph db)
  unfolding on_action_complete
  on_action_complete_cases action none = idle
  on_action_complete_cases action (some ph) =
      set_phase_cases ph (some 100) _ _ (λ q e. le-some e (omega arith))

  on_package_resolved_cases : (v w : Text) → P (on_package_resolved now id v w db)
  unfolding on_package_resolved
  on_package_resolved_cases v w =
      elim (Bool-cases (is_empty (trim_space v) && is_empty (trim_space w))) [
        | inl e ↦ rw (e, on_package_resolved) idle
        | inr e ↦ rw (e, on_package_resolved) (publish_cases _ _ (quiet-IsLawful _ refl refl))
      ]

  pub report_cases : (r : Report) → P (report now id r db)
  unfolding report
  report_cases (action_start action) = on_action_start_cases action _
  report_cases (package_resolved v w) = on_package_resolved_cases v w
  report_cases (action_progress action p code message) = on_action_progress_cases _ p code message
  report_cases (action_complete action) = on_action_complete_cases action _
  report_cases rollback_start = publish_cases _ _ rollback_start_update-IsLawful
  report_cases (rollback_complete error) = publish_cases _ _ (rollback_update-IsLawful error)
  report_cases (resolving_set message) = set_phase_cases Phase.resolving none message _ (λ q e. cc)
  report_cases finalizing_set =
      set_phase_cases Phase.finalizing (some 0) _ _ (λ q e. le-some e (omega arith))
  report_cases (finished s code message) =
      publish_cases _ _ (finish_update-IsLawful now s code message)
