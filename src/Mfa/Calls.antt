-- ===== src/Mfa/Calls.antt =====
-- internal/services/security/totp.go: the manager's calls, and the counters that they accept.
use oneinstack_panel.Common.{ℕ, ◌≡◌, true, Option, none, some, List, [], ◌∷◌, ◌==◌, if◌then◌else◌}
use oneinstack_panel.Common.Int.{ℤ}
use oneinstack_panel.Text.{Text}
use oneinstack_panel.Mfa.{MfaDb, Crypto}
use oneinstack_panel.Mfa.Manager.{
  ltz, after, Factor, totp, recovery, Outcome, refused, done, verify_login_code, setup, confirm,
  disable, regenerate_recovery_codes,
}

-- The calls of the manager, with their time, their user and their arguments.
pub data Call : Type 0 where
  login_call : ℕ → ℕ → Text → Call
  setup_call : ℕ → Text → Call
  confirm_call : ℕ → ℕ → Text → Text → List Text → Call
  disable_call : ℕ → ℕ → Text → Text → Call
  regenerate_call : ℕ → ℕ → Text → Text → List Text → Call

unfoldable pub step : Crypto → Call → MfaDb → MfaDb
step c (login_call now id code) db = after db (verify_login_code c now id code db)
step c (setup_call id secret) db = after db (setup c id secret db)
step c (confirm_call now id password code drawn) db =
    after db (confirm c now id password code drawn db)
step c (disable_call now id password code) db = after db (disable c now id password code db)
step c (regenerate_call now id password code drawn) db =
    after db (regenerate_recovery_codes c now id password code drawn db)

-- The counter of a login that a one-time code opened.
abbrev pub counter_of : Outcome Factor → Option ℤ
counter_of (done (totp n) db) = some n
counter_of (done (recovery h) db) = none
counter_of (refused e) = none

-- The counter that a call accepts from the user `id`.
abbrev pub accepted_by : Crypto → ℕ → Call → MfaDb → Option ℤ
accepted_by c id (login_call now own code) db =
    if own == id then counter_of (verify_login_code c now own code db) else none
accepted_by c id _ db = none

abbrev pub or_append : Option ℤ → List ℤ → List ℤ
or_append none ns = ns
or_append (some n) ns = n ∷ ns

-- Each number is above the one before it, and the first above `n`.
abbrev pub IsRising : ℤ → List ℤ → Type 0
IsRising n [] = Unit
IsRising n (m ∷ ms) = (ltz n m ≡ true) × IsRising m ms
