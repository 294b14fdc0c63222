-- ===== src/RateLimit/Window.antt =====
-- One visitor of the limiter of router/middleware/ratelimit.go: how many requests it lets through.
use oneinstack_panel.Common.{
  ℕ, ◌+◌, ◌-◌, ◌≡◌, ◌≤◌, ◌<◌, refl, sym, ap, ◌∙◌, Bool, true, false, ◌&&◌, List, [], ◌∷◌, ◌++◌,
  select, length, ltb, leb, if◌then◌else◌, arith, All, All-append, Bool-cases, inl, inr,
}
use oneinstack_panel.RateLimit.{Verdict, allowed, limited, panicked, is_recent, retry_after, admit}

-- A time of the window that starts at `start`.
abbrev pub is_within : ℕ → ℕ → ℕ → Bool
is_within window start t = leb start t && ltb t (start + window)

-- How many of the times are in the window.
abbrev pub count_within : ℕ → ℕ → List ℕ → ℕ
count_within window start ts = length (select (is_within window start) ts)

select-append :
    (test : ℕ → Bool) (xs ys : List ℕ) → select test (xs ++ ys) ≡ select test xs ++ select test ys
select-append test [] ys = refl
select-append test (x ∷ xs) ys = ground (arith, select-append test xs ys)

-- Where one test implies another, it keeps no more.
select-length :
    (p q : ℕ → Bool) (xs : List ℕ)
    → ((x : ℕ) → p x ≡ true → q x ≡ true)
    → length (select p xs) ≤ length (select q xs)
select-length p q [] k = omega arith
select-length p q (x ∷ xs) k = ground (arith, select-length p q xs k, k x)

-- A narrower selection of a wider one.
select-select :
    (p q : ℕ → Bool) (xs : List ℕ)
    → ((x : ℕ) → p x ≡ true → q x ≡ true)
    → select p (select q xs) ≡ select p xs
select-select p q [] k = refl
select-select p q (x ∷ xs) k = ground (arith, select-select p q xs k, k x)

-- What a visitor keeps, against the log of the requests that were let through, at a time.
pub record IsWindow (rate window now : ℕ) (requests log : List ℕ) : Type 0 where
  pub recent :
      (n : ℕ) → now ≤ n → select (is_recent window n) requests ≡ select (is_recent window n) log
  pub bounded : (start : ℕ) → count_within window start log ≤ rate
  pub past : All (λ t. t ≤ now) log

-- The log after an answer.
abbrev pub logged : Verdict → ℕ → List ℕ → List ℕ
logged allowed now log = log ++ now ∷ []
logged panicked now log = log
logged (limited r) now log = log

length-select_recent :
    (window now start : ℕ) (ts : List ℕ)
    → is_within window start now ≡ true
    → All (λ t. t ≤ now) ts
    → count_within window start ts ≤ length (select (is_recent window now) ts)
length-select_recent window now start [] h all = omega arith
length-select_recent window now start (t ∷ ts) h (le, all) =
    ground (arith, length-select_recent window now start ts h all)

All-later : (now at : ℕ) (ts : List ℕ) → now ≤ at → All (λ t. t ≤ now) ts → All (λ t. t ≤ at) ts
All-later now at [] h all = tt
All-later now at (t ∷ ts) h (le, all) = (omega (arith, le, h), All-later now at ts h all)

logged-retry_after :
    (window now : ℕ) (recent log : List ℕ) → logged (retry_after window now recent) now log ≡ log
logged-retry_after window now [] log = refl
logged-retry_after window now (t ∷ ts) log = refl

-- One more time of a window, or none.
count_within-logged :
    (window start now : ℕ) (log : List ℕ)
    → count_within window start (log ++ now ∷ [])
      ≡ count_within window start log + (if is_within window start now then 1 else 0)
count_within-logged window start now [] = ground arith
count_within-logged window start now (t ∷ log) =
    ground (arith, count_within-logged window start now log)

module _ (rate window : ℕ) where
  pub IsWindow-later :
      (now at : ℕ) (requests log : List ℕ)
      → now ≤ at
      → IsWindow rate window now requests log
      → IsWindow rate window at requests log
  IsWindow-later now at requests log le k = record {
    recent = λ n h. k.recent n (omega (arith, le, h));
    bounded = k.bounded;
    past = All-later now at log le k.past;
  }

  narrower :
      {now : ℕ} (n : ℕ)
      → now ≤ n
      → (t : ℕ) → is_recent window n t ≡ true
      → is_recent window now t ≡ true
  narrower n h t e = ground arith

  -- The answer to a request keeps the bound.
  pub admit-IsWindow :
      (now : ℕ) (requests log : List ℕ)
      → IsWindow rate window now requests log
      → IsWindow rate window now
          (admit rate window now requests).1
          (logged (admit rate window now requests).0 now log)
  unfolding admit
  admit-IsWindow now requests log k =
      elim (Bool-cases (leb rate (length (select (is_recent window now) requests)))) [
        | inl full ↦
            rw (full, logged-retry_after window now (select (is_recent window now) requests) log)
              (record {
                recent = λ n h.
                    select-select (is_recent window n) (is_recent window now) requests
                      (narrower n h)
                    ∙ k.recent n h;
                bounded = k.bounded;
                past = k.past;
              })
        | inr room ↦ rw room (record {
          recent = λ n h.
              select-append (is_recent window n) (select (is_recent window now) requests) (now ∷ [])
              ∙ ap (λ xs. xs ++ select (is_recent window n) (now ∷ []))
                  (select-select (is_recent window n) (is_recent window now) requests (narrower n h)
                    ∙ k.recent n h)
              ∙ sym (select-append (is_recent window n) log (now ∷ []));
          bounded = λ start. elim (Bool-cases (is_within window start now)) [
            | inl within ↦
                let most = length-select_recent window now start log within k.past in
                let same = ap length (k.recent now (omega arith)) in
                let one = count_within-logged window start now log in ground arith
            | inr out ↦
                let one = count_within-logged window start now log in
                let old = k.bounded start in ground arith
          ];
          past = All-append (λ t. t ≤ now) log (now ∷ []) k.past (omega arith, tt);
        })
      ]

waited : Verdict → ℕ → ℕ
waited allowed r = r
waited panicked r = r
waited (limited s) r = s

select-length_le : (test : ℕ → Bool) (xs : List ℕ) → length (select test xs) ≤ length xs
select-length_le test [] = omega arith
select-length_le test (x ∷ xs) = ground (arith, select-length_le test xs)

-- After the time that is left to the oldest request, one request less is kept.
after_wait :
    (rate window now r : ℕ) (recent : List ℕ)
    → retry_after window now recent ≡ limited r
    → length recent ≤ rate
    → length (select (is_recent window (now + r)) recent) < rate
unfolding waited
after_wait rate window now r [] e le = absurd (cc e)
after_wait rate window now r (t ∷ ts) e le =
    let is : t + window - now ≡ r = ap (λ v. waited v r) e in
    let least = select-length_le (is_recent window (now + r)) ts in
    let gone : is_recent window (now + r) t ≡ false = ground (arith, is) in
    ground (arith, gone, least, le)

-- What is recent now lies in the window that ends now.
length-recent_within :
    (window now : ℕ) (ts : List ℕ)
    → All (λ t. t ≤ now) ts
    → length (select (is_recent window now) ts) ≤ count_within window (now + 1 - window) ts
length-recent_within window now [] all = omega arith
length-recent_within window now (t ∷ ts) (le, all) =
    ground (arith, length-recent_within window now ts all)

-- A visitor that was not let through is let through after the time that it was told to wait, if it asks for
-- nothing in between, and if it keeps what its log asks for.
pub admit-retry :
    (rate window now r : ℕ) (requests log : List ℕ)
    → IsWindow rate window now requests log
    → (admit rate window now requests).0 ≡ limited r
    → (admit rate window (now + r) (admit rate window now requests).1).0 ≡ allowed
unfolding admit
admit-retry rate window now r requests log k =
    elim (Bool-cases (leb rate (length (select (is_recent window now) requests)))) [
      | inr room ↦ rw room (λ e. absurd (cc e))
      | inl full ↦ rw full (λ e.
          let most = length-recent_within window now log k.past in
          let same = ap length (k.recent now (omega arith)) in
          let in_window = k.bounded (now + 1 - window) in
          let less =
            after_wait rate window now r (select (is_recent window now) requests) e
              (omega (arith, most, same, in_window)) in
          let room : leb rate (
                length
                  (select (is_recent window (now + r)) (select (is_recent window now) requests)))
              ≡ false =
            ground (arith, less) in
          rw room refl)
    ]
