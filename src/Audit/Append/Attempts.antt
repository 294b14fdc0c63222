-- ===== src/Audit/Append/Attempts.antt =====
-- The four attempts of `Append`, and what a call of it does to the chain.
use oneinstack_panel.Common.{
  ℕ, zero, suc, ◌+◌, ◌≡◌, ◌<◌, ◌≢◌, ◌⊎◌, inl, inr, [], ◌∷◌, ◌++◌, refl, ap, length-append, length,
  arith, All, true,
}
use oneinstack_panel.Audit.{chain_version, EventInput, EventPayload, AuditDb, AuditEvent, Signer}
use oneinstack_panel.Audit.Normalize.{normalize}
use oneinstack_panel.Audit.Normalize.Bounds.{IsStorable, normalize-IsStorable}
use oneinstack_panel.Audit.Chain.{ok, verify}
use oneinstack_panel.Audit.Chain.Linked.{head_sequence, head_hash, base_sequence, IsLink, IsIntact}
use oneinstack_panel.Audit.Chain.Verified.{verify-valid_iff}
use oneinstack_panel.Audit.Append.{
  append_tx, append_from, append, Fate, committed, busy, settle, append_attempts, next_event,
  signed_event,
}
use oneinstack_panel.Audit.Append.Extends.{extended}
use oneinstack_panel.Audit.Append.Keeps.{
  appended, appended-IsLink, extended-IsIntact, append_tx_keeps, append_tx_total,
}

-- One of the attempts left commits, and the database is busy in those before it.
abbrev pub Commits : (ℕ → Fate) → ℕ → Type 0
Commits fates zero = ⊥
Commits fates (suc n) = (fates n ≡ committed) ⊎ ((fates n ≡ busy) × Commits fates n)

module _ (c : Signer) (now : ℕ) (db : AuditDb) (p : EventPayload) where
  append_from_total :
      (fates : ℕ → Fate) (n : ℕ) (r : AuditDb × AuditEvent)
      → append_tx c now db p ≡ ok r
      → Commits fates n
      → append_from c n fates now db p ≡ ok r
  unfolding append_from settle
  append_from_total fates zero r e k = absurd k
  append_from_total fates (suc n) r e (inl k) = rw (k, append_from, e)
  append_from_total fates (suc n) r e (inr (k, later)) =
      rw (k, append_from) (append_from_total fates n r e later)

  append_from_inv :
      (fates : ℕ → Fate) (n : ℕ) (r : AuditDb × AuditEvent)
      → append_from c n fates now db p ≡ ok r
      → append_tx c now db p ≡ ok r
  unfolding append_from settle
  append_from_inv fates zero r e = cc
  append_from_inv fates (suc n) r e = ground (arith, append_from_inv fates n r)

-- The event that an input becomes at the head of the chain.
abbrev pub recorded : Signer → ℕ → AuditDb → EventInput → AuditEvent
recorded c now db input = appended c db (normalize c now input)

normalize-version :
    (c : Signer) (now : ℕ) (input : EventInput) → (normalize c now input).version ≡ chain_version
unfolding normalize
normalize-version c now input = refl

-- Linking an event into the chain leaves the fields that were sanitized.
appended-IsStorable :
    (c : Signer) (db : AuditDb) (p : EventPayload)
    → IsStorable p
    → IsStorable (appended c db p).payload
unfolding next_event signed_event
appended-IsStorable c db p s = record {
  request_id = s.request_id;
  event_type = s.event_type;
  action = s.action;
  method = s.method;
  route = s.route;
  path = s.path;
  status = s.status;
  outcome = s.outcome;
  username = s.username;
  auth_mode = s.auth_mode;
  remote_ip = s.remote_ip;
  user_agent = s.user_agent;
  message = s.message;
}

module _ (c : Signer) (fates : ℕ → Fate) (now : ℕ) (db : AuditDb) (input : EventInput)
    (intact : IsIntact c db)
    (bound : base_sequence db.checkpoint + 1 + length db.events < 18446744073709551616) where
  -- A successful append adds one event behind the events of an intact chain below the limit of
  -- uint64, changes none of them and leaves the chain intact. The event is signed, continues the old head, and its fields
  -- are sanitized.
  pub append-IsIntact :
      (db' : AuditDb) (e : AuditEvent)
      → append c fates now db input ≡ ok (db', e)
      → IsIntact c db'
        × (db'.events ≡ db.events ++ e ∷ [])
        × (db'.checkpoint ≡ db.checkpoint)
        × IsLink c (head_sequence db + 1) (head_hash db) e
        × IsStorable e.payload
  unfolding append
  append-IsIntact db' e h =
      let version = normalize-version c now input in
      let done =
        append_from_inv c now db (normalize c now input) fates append_attempts (db', e) h in
      let (same, stored) =
        append_tx_keeps c now db (normalize c now input) intact bound version db' e done in
      rw (stored, same)
        (
          extended-IsIntact c now db (normalize c now input) intact bound version,
          refl,
          refl,
          appended-IsLink c now db (normalize c now input) intact bound version,
          appended-IsStorable c db (normalize c now input) (normalize-IsStorable c now input),
        )

  -- An append to an intact chain below the limit of uint64 succeeds within its four attempts, if the database commits one of
  -- them and is only busy before, and if no event has the new event's hash already.
  pub append_total :
      Commits fates append_attempts
      → All (λ f. f.entry_hash ≢ (recorded c now db input).entry_hash) db.events
      → append c fates now db input
        ≡ ok (extended c now db (recorded c now db input), recorded c now db input)
  unfolding append
  append_total commits fresh =
      append_from_total c now db (normalize c now input) fates append_attempts _
        (append_tx_total c now db (normalize c now input) intact bound
          (normalize-version c now input) fresh)
        commits

-- A database that `Verify` accepts is accepted again after a successful append, while the next
-- sequence numbers are below the limit of uint64.
pub append-verify :
    (c : Signer) (fates : ℕ → Fate) (now : ℕ) (db : AuditDb) (input : EventInput)
    → base_sequence db.checkpoint + 2 + length db.events < 18446744073709551616
    → (verify c db).valid ≡ true
    → (db' : AuditDb) (e : AuditEvent) → append c fates now db input ≡ ok (db', e)
    → (verify c db').valid ≡ true
append-verify c fates now db input b v db' e h =
    let intact = (verify-valid_iff c db (omega arith)).0 v in
    let (kept, rows, base, k, s) =
      append-IsIntact c fates now db input intact (omega arith) db' e h in
    (verify-valid_iff c db'
        (omega (arith, ap length rows, ap base_sequence base, length-append db.events (e ∷ [])))).1
      kept
