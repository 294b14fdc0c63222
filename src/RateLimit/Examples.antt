-- ===== src/RateLimit/Examples.antt =====
-- Runs of the limiter of router/middleware/ratelimit.go.
use oneinstack_panel.Common.{◌+◌, ◌≡◌, ◌≤◌, refl, List, [], ◌∷◌}
use oneinstack_panel.Text.{codes, trim_space}
use oneinstack_panel.RateLimit.{allowed, admit, retry_seconds, visitor_of}
use oneinstack_panel.RateLimit.Window.{count_within}
use oneinstack_panel.RateLimit.Visits.{
  Step, look_up, ask, clean, step, run, first_visits, run-within_rate, run-retry,
}

-- Two requests are let through in a window of 100, and a third and a fourth are not.
abbrev three_of_two : List Step
three_of_two =
    look_up (codes " 10.0.0.9 ")
    ∷ ask 0 5
    ∷ ask 0 40
    ∷ clean 1
    ∷ look_up (codes "10.0.0.9")
    ∷ ask 0 10
    ∷ []

logged_times : (run 2 100 three_of_two first_visits).log 0 ≡ 5 ∷ 45 ∷ []
unfolding run step admit visitor_of trim_space
logged_times = refl

run-within_rate_example : count_within 100 5 ((run 2 100 three_of_two first_visits).log 0) ≤ 2
run-within_rate_example = run-within_rate 2 100 three_of_two 0 5

run-retry_example :
    (admit 2 100
      ((run 2 100 three_of_two first_visits).clock + 4 + 45)
      (admit 2 100
        ((run 2 100 three_of_two first_visits).clock + 4)
        ((run 2 100 three_of_two first_visits).limiter.requests 0)).1).0
    ≡ allowed
unfolding run step admit visitor_of trim_space
run-retry_example = run-retry 2 100 three_of_two 0 4 45 refl

waits : retry_seconds 45 ≡ 1
unfolding retry_seconds
waits = refl
