-- ===== src/Audit/Cleanup/Keeps.antt =====
-- `CleanupBefore` keeps the chain intact.
use oneinstack_panel.Common.{
  ℕ, ◌+◌, ◌≤◌, ◌≡◌, ◌<◌, ◌≢◌, inl, inr, none, some, List, [], ◌∷◌, ◌++◌, refl, sym, ◌∙◌, ap, length,
  arith, All, length-append, Option-cases,
}
use oneinstack_panel.Text.{Text}
use oneinstack_panel.Audit.{AuditDb, AuditEvent, Signer}
use oneinstack_panel.Audit.Chain.{sign_event, sign_checkpoint}
use oneinstack_panel.Audit.Chain.Linked.{
  IsHead-cast, head_sequence, base_hash, last_hash, Linked, IsBase, IsIntact,
}
use oneinstack_panel.Audit.Cleanup.{
  last_expired, delete_through, new_checkpoint, expire_through, CleanupResult,
}

-- The rows up to an event of the chain, and those after it.
pub record Cut (es : List AuditEvent) (e : AuditEvent) : Type 0 where
  pub before : List AuditEvent
  pub after : List AuditEvent
  pub joined : es ≡ before ++ e ∷ after

pub last_expired-none :
    (cutoff : ℕ) (es : List AuditEvent)
    → last_expired cutoff es ≡ none
    → All (λ f. cutoff ≤ f.created_at) es
unfolding last_expired
last_expired-none cutoff [] h = tt
last_expired-none cutoff (x ∷ es) h = ground (arith, last_expired-none cutoff es)

-- The row that the query finds stands in the table, is expired, and no later row is.
pub last_expired-Cut :
    (cutoff : ℕ) (es : List AuditEvent) (e : AuditEvent)
    → last_expired cutoff es ≡ some e
    → (k : Cut es e) × (e.created_at < cutoff) × All (λ f. cutoff ≤ f.created_at) k.after
unfolding last_expired
last_expired-Cut cutoff [] e h = cc
last_expired-Cut cutoff (x ∷ es) e h = elim (Option-cases (last_expired cutoff es)) [
  | inl q ↦ (
    record { before = []; after = es; joined = ground arith },
    ground arith,
    last_expired-none cutoff es q,
  )
  | inr (f, q) ↦
      let same : f ≡ e = ground arith in
      let (k, early, late) = last_expired-Cut cutoff es e (q ∙ ap some same) in
      (
        record { before = x ∷ k.before; after = k.after; joined = ap (λ r. x ∷ r) k.joined },
        early,
        late,
      )
]

module _ (c : Signer) where
  -- In a chain the rows to delete are those of the prefix.
  delete_through-after :
      (n m : ℕ) (h : Text) (es : List AuditEvent)
      → Linked c n h es
      → m < n
      → delete_through m es ≡ es
  unfolding delete_through
  delete_through-after n m h [] l b = refl
  delete_through-after n m h (e ∷ es) (k, l) b =
      ground (arith, k.sequence, delete_through-after (n + 1) m e.entry_hash es l (omega arith))

  delete_through-Cut :
      (n : ℕ) (h : Text) (before : List AuditEvent) (e : AuditEvent) (after : List AuditEvent)
      → Linked c n h (before ++ e ∷ after)
      → (delete_through e.sequence (before ++ e ∷ after) ≡ after)
        × Linked c (e.sequence + 1) e.entry_hash after
        × (e.sequence ≡ n + length before)
  unfolding delete_through
  delete_through-Cut n h [] e after (k, l) = (
    rw (k.sequence)
        (ground (arith, delete_through-after (n + 1) n e.entry_hash after l (omega arith))),
    rw (k.sequence) l,
    omega (arith, k.sequence),
  )
  delete_through-Cut n h (x ∷ before) e after (k, l) =
      let (kept, linked, place) = delete_through-Cut (n + 1) x.entry_hash before e after l in
      (ground (arith, k.sequence), linked, omega arith)

last_hash-cut :
    (h : Text) (before : List AuditEvent) (e : AuditEvent) (after : List AuditEvent)
    → last_hash h (before ++ e ∷ after) ≡ last_hash e.entry_hash after
last_hash-cut h [] e after = refl
last_hash-cut h (x ∷ before) e after = last_hash-cut x.entry_hash before e after

-- An event of a chain is signed, so its hash is not empty.
entry_hash-ne-nil :
    (c : Signer) (n : ℕ) (h : Text) (before : List AuditEvent) (e : AuditEvent)
    (after : List AuditEvent)
    → Linked c n h (before ++ e ∷ after)
    → e.entry_hash ≢ []
unfolding sign_event
entry_hash-ne-nil c n h [] e after (k, l) q = c.sign_nonempty _ (sym k.signature ∙ q)
entry_hash-ne-nil c n h (x ∷ before) e after (k, l) q =
    entry_hash-ne-nil c (n + 1) x.entry_hash before e after l q

new_checkpoint-IsBase :
    (c : Signer) (now : ℕ) (e : AuditEvent)
    → e.sequence ≢ 0
    → e.entry_hash ≢ []
    → IsBase c (some (new_checkpoint c now e))
unfolding new_checkpoint sign_checkpoint
new_checkpoint-IsBase c now e s h = (s, h, refl)

-- What a cleanup at the event `e`, with the rows `after` behind it, does to the tables.
pub record IsExpired (c : Signer) (db : AuditDb) (before : List AuditEvent) (e : AuditEvent)
    (after : List AuditEvent) (out : AuditDb × CleanupResult) : Type 0 where
  pub intact : IsIntact c out.0
  pub events : out.0.events ≡ after
  pub state : out.0.state ≡ db.state
  pub head : head_sequence out.0 ≡ head_sequence db
  pub deleted : out.1.deleted_entries ≡ length before + 1

pub expire_through-IsExpired :
    (c : Signer) (now cutoff : ℕ) (db : AuditDb) (before : List AuditEvent) (e : AuditEvent)
    (after : List AuditEvent)
    → db.events ≡ before ++ e ∷ after
    → IsIntact c db
    → IsExpired c db before e after (expire_through c now cutoff db e)
unfolding expire_through
expire_through-IsExpired c now cutoff db before e after j i =
    let linked = rw j at i.linked in
    let (kept, l, place) = delete_through-Cut c _ _ before e after linked in
    let rest : delete_through e.sequence db.events ≡ after = rw j kept in
    let remaining = ap length rest in
    let total : length db.events ≡ length before + 1 + length after =
      ap length j ∙ omega (arith, length-append before (e ∷ after)) in
    let same : e.sequence + length (delete_through e.sequence db.events) ≡ head_sequence db =
      omega (arith, place) in
    record {
      intact = record {
        base =
            new_checkpoint-IsBase c now e (omega (arith, place))
              (entry_hash-ne-nil c _ _ before e after linked);
        linked = rw rest l;
        head =
            IsHead-cast c db.state (sym same)
              (ap (last_hash (base_hash db.checkpoint)) j
                ∙ last_hash-cut (base_hash db.checkpoint) before e after
                ∙ ap (last_hash e.entry_hash) (sym rest))
              i.head;
      };
      events = rest;
      state = refl;
      head = same;
      deleted = omega arith;
    }
