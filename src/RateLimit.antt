-- ===== src/RateLimit.antt =====
-- router/middleware/ratelimit.go: the limiter of requests by a sliding window. Times are in nanoseconds.
pub mod Window
pub mod Visits
mod Examples
use oneinstack_panel.Common.{
  ℕ, zero, suc, ◌+◌, ◌-◌, ◌*◌, ◌/◌, Bool, true, false, ◌&&◌, not, Option, none, some, List, [], ◌∷◌,
  ◌++◌, select, find?, length, ltb, leb, ◌==◌, if◌then◌else◌,
}
use oneinstack_panel.Text.{Text, codes, text_eq, is_empty, trim_space}

-- The answer of `Allow`; `limited` has the time to wait, and `panicked` is the index into an empty slice
-- at a rate of 0.
pub data Verdict : Type 0 where
  allowed panicked : Verdict
  limited : ℕ → Verdict

-- `reqTime.After(now.Add(-rl.window))`
abbrev pub is_recent : ℕ → ℕ → ℕ → Bool
is_recent window now t = ltb now (t + window)

abbrev pub retry_after : ℕ → ℕ → List ℕ → Verdict
retry_after window now [] = panicked
retry_after window now (first ∷ rest) = limited (first + window - now)

-- The half of `Allow` under the visitor's lock: the answer and the requests that the visitor keeps.
unfoldable pub admit : ℕ → ℕ → ℕ → List ℕ → Verdict × List ℕ
admit rate window now requests =
    let recent = select (is_recent window now) requests in
    if leb rate (length recent)
    then (retry_after window now recent, recent)
    else (allowed, recent ++ now ∷ [])

-- The map of visitors, whose values are pointers into `requests`; `next` is the next one to be made.
pub record RateLimiter : Type 0 where
  pub visitors : List (Text × ℕ)
  pub requests : ℕ → List ℕ
  pub next : ℕ

-- `NewRateLimiter`
abbrev pub new_rate_limiter : RateLimiter
new_rate_limiter = record { visitors = []; requests = λ v. []; next = 0 }

abbrev pub write : ℕ → List ℕ → (ℕ → List ℕ) → ℕ → List ℕ
write v new requests u = if u == v then new else requests u

abbrev pub normal_key : Text → Text
normal_key key = if is_empty (trim_space key) then codes "unknown" else trim_space key

abbrev pub find_visitor : Text → List (Text × ℕ) → Option (Text × ℕ)
find_visitor key visitors = find? (λ p. text_eq p.0 key) visitors

-- The half of `Allow` under the map's lock: the visitor of the key, made where it is missing.
unfoldable pub visitor_of : Text → RateLimiter → ℕ × RateLimiter
unfolding trim_space
visitor_of key l = elim (find_visitor (normal_key key) l.visitors) [
  | some p ↦ (p.1, l)
  | none ↦ (
    l.next,
    record {
      visitors = (normal_key key, l.next) ∷ l.visitors;
      requests = write l.next [] l.requests;
      next = l.next + 1;
    },
  )
]

abbrev last_before : ℕ → List ℕ → Bool
last_before cutoff [] = true
last_before cutoff (t ∷ []) = ltb t cutoff
last_before cutoff (t ∷ u ∷ ts) = last_before cutoff (u ∷ ts)

-- A round of `cleanup`: visitors without requests, or whose last one is two windows old, leave the map.
unfoldable pub sweep : ℕ → ℕ → RateLimiter → RateLimiter
sweep window now l = record l {
  visitors = select (λ p. not (last_before (now - window * 2) (l.requests p.1))) l.visitors;
}

-- `max(1, int(math.Ceil(retryAfter.Seconds())))`
unfoldable pub retry_seconds : ℕ → ℕ
retry_seconds ns =
    let seconds = (ns + 999999999) / 1000000000 in if leb 1 seconds then seconds else 1
