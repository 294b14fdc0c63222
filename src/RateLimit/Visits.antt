-- ===== src/RateLimit/Visits.antt =====
-- Calls of `Allow` and rounds of `cleanup` of router/middleware/ratelimit.go, in any order.
use oneinstack_panel.Common.{
  ℕ, ◌+◌, ◌≡◌, ◌≤◌, refl, true, false, List, [], ◌∷◌, ltb, ◌==◌, if◌then◌else◌, arith, Bool-cases,
  Option-cases, inl, inr,
}
use oneinstack_panel.Text.{Text}
use oneinstack_panel.RateLimit.{
  allowed, limited, admit, RateLimiter, new_rate_limiter, write, normal_key, find_visitor,
  visitor_of, sweep,
}
use oneinstack_panel.RateLimit.Window.{
  count_within, logged, IsWindow, IsWindow-later, admit-IsWindow, admit-retry,
}

-- The limiter, the clock, and the times at which each visitor was let through.
pub record Visits : Type 0 where
  pub limiter : RateLimiter
  pub log : ℕ → List ℕ
  pub clock : ℕ

-- A step: the two halves of `Allow`, and a round of `cleanup`; a number is the time that has passed before.
pub data Step : Type 0 where
  look_up : Text → Step
  ask : ℕ → ℕ → Step
  clean : ℕ → Step

abbrev pub first_visits : Visits
first_visits = record { limiter = new_rate_limiter; log = λ v. []; clock = 0 }

-- The second half of `Allow`, on a visitor that the first half has given.
unfoldable pub ask_at : ℕ → ℕ → ℕ → ℕ → Visits → Visits
unfolding admit
ask_at rate window v now s =
    let answer = admit rate window now (s.limiter.requests v) in
    record {
      limiter = record s.limiter { requests = write v answer.1 s.limiter.requests };
      log = write v (logged answer.0 now (s.log v)) s.log;
      clock = now;
    }

unfoldable pub step : ℕ → ℕ → Step → Visits → Visits
unfolding visitor_of sweep ask_at
step rate window (look_up key) s = record s { limiter = (visitor_of key s.limiter).1 }
step rate window (ask v elapsed) s =
    if ltb v s.limiter.next then ask_at rate window v (s.clock + elapsed) s else s
step rate window (clean elapsed) s = record s {
  limiter = sweep window (s.clock + elapsed) s.limiter;
  clock = s.clock + elapsed;
}

unfoldable pub run : ℕ → ℕ → List Step → Visits → Visits
run rate window [] s = s
run rate window (x ∷ xs) s = run rate window xs (step rate window x s)

-- Each visitor keeps what its log asks for, and one that is not made yet was never let through.
pub record IsKept (rate window : ℕ) (s : Visits) : Type 0 where
  pub each : (v : ℕ) → IsWindow rate window s.clock (s.limiter.requests v) (s.log v)
  pub unmade : (v : ℕ) → s.limiter.next ≤ v → s.log v ≡ []

module _ (rate window : ℕ) where
  empty-IsWindow : (now : ℕ) → IsWindow rate window now [] []
  empty-IsWindow now = record { recent = λ n h. refl; bounded = λ start. omega arith; past = tt }

  write-IsWindow :
      (v now : ℕ) (requests : ℕ → List ℕ) (new : List ℕ) (log : ℕ → List ℕ) (entry : List ℕ)
      → IsWindow rate window now new entry
      → ((u : ℕ) → IsWindow rate window now (requests u) (log u))
      → (u : ℕ) → IsWindow rate window now (write v new requests u) (write v entry log u)
  write-IsWindow v now requests new log entry k each u = elim (Bool-cases (u == v)) [
    | inl own ↦ rw own k
    | inr other ↦ rw other (each u)
  ]

  look_up-IsKept :
      (key : Text) (s : Visits)
      → IsKept rate window s
      → IsKept rate window (step rate window (look_up key) s)
  unfolding step visitor_of
  look_up-IsKept key s k = elim (Option-cases (find_visitor (normal_key key) s.limiter.visitors)) [
    | inr (p, here) ↦ rw (here, step, visitor_of) k
    | inl missing ↦
        rw (missing, step, visitor_of)
          (record {
            each = λ u. elim (Bool-cases (u == s.limiter.next)) [
              | inl own ↦
                  let none_yet : s.log u ≡ [] = k.unmade u (ground (arith, own)) in
                  rw (own, none_yet) (empty-IsWindow s.clock)
              | inr other ↦ rw other (k.each u)
            ];
            unmade = λ u h. k.unmade u (omega (arith, h));
          })
  ]

  ask-IsKept :
      (v elapsed : ℕ) (s : Visits)
      → ltb v s.limiter.next ≡ true
      → IsKept rate window s
      → IsKept rate window (ask_at rate window v (s.clock + elapsed) s)
  unfolding ask_at
  ask-IsKept v elapsed s made k = record {
    each =
        write-IsWindow v (s.clock + elapsed) s.limiter.requests _ s.log _
          (admit-IsWindow rate window (s.clock + elapsed) (s.limiter.requests v) (s.log v)
            (IsWindow-later rate window s.clock (s.clock + elapsed) _ _ (omega arith) (k.each v)))
          (λ u.
            IsWindow-later rate window s.clock (s.clock + elapsed) _ _ (omega arith) (k.each u));
    unmade =
        λ u h. let other : (u == v) ≡ false = ground (arith, made, h) in rw other (k.unmade u h);
  }

  step-IsKept :
      (x : Step) (s : Visits) → IsKept rate window s → IsKept rate window (step rate window x s)
  unfolding step sweep
  step-IsKept (look_up key) s k = look_up-IsKept key s k
  step-IsKept (ask v elapsed) s k = elim (Bool-cases (ltb v s.limiter.next)) [
    | inl made ↦ rw (made, step) (ask-IsKept v elapsed s made k)
    | inr unknown ↦ rw (unknown, step) k
  ]
  step-IsKept (clean elapsed) s k = record {
    each = λ u. IsWindow-later rate window s.clock (s.clock + elapsed) _ _ (omega arith) (k.each u);
    unmade = k.unmade;
  }

  run-IsKept :
      (xs : List Step) (s : Visits)
      → IsKept rate window s
      → IsKept rate window (run rate window xs s)
  unfolding run
  run-IsKept [] s k = k
  run-IsKept (x ∷ xs) s k = run-IsKept xs (step rate window x s) (step-IsKept x s k)

  -- Whatever calls and rounds of the cleanup come, in whatever order, a visitor of the limiter is let through at
  -- most `rate` times in any window of time.
  pub run-within_rate :
      (xs : List Step) (v start : ℕ)
      → count_within window start ((run rate window xs first_visits).log v) ≤ rate
  run-within_rate xs v start =
      let first : IsKept rate window first_visits = record {
        each = λ u. empty-IsWindow 0;
        unmade = λ u h. refl;
      } in
      ((run-IsKept xs first_visits first).each v).bounded start

  -- Where the limiter makes a visitor that it has made wait, the visitor is let through after that time, if it asks
  -- for nothing in between, whatever calls and rounds of the cleanup came before.
  pub run-retry :
      (xs : List Step) (v elapsed r : ℕ)
      → (admit rate window
          ((run rate window xs first_visits).clock + elapsed)
          ((run rate window xs first_visits).limiter.requests v)).0
        ≡ limited r
      → (admit rate window
          ((run rate window xs first_visits).clock + elapsed + r)
          (admit rate window
            ((run rate window xs first_visits).clock + elapsed)
            ((run rate window xs first_visits).limiter.requests v)).1).0
        ≡ allowed
  run-retry xs v elapsed r =
      let s = run rate window xs first_visits in
      let first : IsKept rate window first_visits = record {
        each = λ u. empty-IsWindow 0;
        unmade = λ u h. refl;
      } in
      admit-retry rate window (s.clock + elapsed) r (s.limiter.requests v) (s.log v) (
        IsWindow-later rate window s.clock (s.clock + elapsed) _ _ (omega arith)
          ((run-IsKept xs first_visits first).each v))
