-- ===== src/Audit/Append/Extends.antt =====
-- `Append` extends an intact chain by one event.
use oneinstack_panel.Common.{
  ℕ, ◌+◌, ◌≡◌, ◌<◌, ◌≢◌, Option, none, some, List, [], ◌∷◌, ◌++◌, refl, ◌∙◌, length, arith, inl,
  inr, Option-cases,
}
use oneinstack_panel.Text.{Text}
use oneinstack_panel.Audit.{
  chain_version, AuditEvent, EventPayload, AuditCheckpoint, AuditDb, Signer,
}
use oneinstack_panel.Audit.Chain.{sign_event, sign_state, ok}
use oneinstack_panel.Audit.Chain.Linked.{
  last_hash, base_sequence, base_hash, IsLink, Linked, IsHead,
}
use oneinstack_panel.Audit.Append.{
  get_last?, load_chain_head, checkpoint_head, create_event, signed_event, signed_state, next_event,
  store_state, append_tx,
}

-- The head of the rows `es` after a chain that ends at `n` and `h`.
abbrev head_of : ℕ → Text → Option AuditEvent → ℕ × Text
head_of n h none = (n, h)
head_of n h (some e) = (e.sequence, e.entry_hash)

pub head_path : {n m : ℕ} {h g : Text} → n ≡ m → h ≡ g → Path (ℕ × Text) (n, h) (m, g)
head_path e p = λ i. (e i, p i)

-- After a first row the default does not matter.
head_of-cons :
    (n m : ℕ) (h g : Text) (e : AuditEvent) (es : List AuditEvent)
    → head_of n h (get_last? (e ∷ es)) ≡ head_of m g (get_last? (e ∷ es))
head_of-cons n m h g e [] = refl
head_of-cons n m h g e (f ∷ es) = head_of-cons n m h g f es

module _ (c : Signer) where
  head_of-Linked :
      (n : ℕ) (h : Text) (es : List AuditEvent)
      → Linked c (n + 1) h es
      → head_of n h (get_last? es) ≡ (n + length es, last_hash h es)
  head_of-Linked n h [] l = head_path (omega arith) refl
  head_of-Linked n h (e ∷ []) (k, l) = head_path (omega (arith, k.sequence)) refl
  head_of-Linked n h (e ∷ f ∷ es) (k, l) =
      head_of-cons n (n + 1) h e.entry_hash f es
      ∙ head_of-Linked (n + 1) e.entry_hash (f ∷ es) l
      ∙ head_path (omega arith) refl

  pub IsLink-cast : {n m : ℕ} {h : Text} {e : AuditEvent} → n ≡ m → IsLink c n h e → IsLink c m h e
  IsLink-cast p k = rw p at k

  pub Linked-append :
      (n : ℕ) (h : Text) (es : List AuditEvent) (e : AuditEvent)
      → Linked c n h es
      → IsLink c (n + length es) (last_hash h es) e
      → Linked c n h (es ++ e ∷ [])
  Linked-append n h [] e l k = (IsLink-cast (omega arith) k, tt)
  Linked-append n h (x ∷ es) e (j, l) k =
      (j, Linked-append (n + 1) x.entry_hash es e l (IsLink-cast (omega arith) k))

pub last_hash-append :
    (h : Text) (es : List AuditEvent) (e : AuditEvent) → last_hash h (es ++ e ∷ []) ≡ e.entry_hash
last_hash-append h [] e = refl
last_hash-append h (x ∷ es) e = last_hash-append x.entry_hash es e

checkpoint_head-eq :
    (cp : Option AuditCheckpoint) → checkpoint_head cp ≡ (base_sequence cp, base_hash cp)
unfolding checkpoint_head
checkpoint_head-eq none = refl
checkpoint_head-eq (some cp) = refl

-- The head of an intact chain is where its rows end.
pub load_chain_head-eq :
    (c : Signer) (db : AuditDb)
    → Linked c (base_sequence db.checkpoint + 1) (base_hash db.checkpoint) db.events
    → load_chain_head db ≡ (
      base_sequence db.checkpoint + length db.events,
      last_hash (base_hash db.checkpoint) db.events,
    )
unfolding load_chain_head
load_chain_head-eq c db l = elim (Option-cases (get_last? db.events)) [
  | inl e ↦ rw (e, load_chain_head) (checkpoint_head-eq db.checkpoint ∙ (rw e at from_rows))
  | inr (x, e) ↦ rw (e, load_chain_head) (rw e at from_rows)
]
  where
    from_rows :
        head_of (base_sequence db.checkpoint) (base_hash db.checkpoint) (get_last? db.events) ≡ (
          base_sequence db.checkpoint + length db.events,
          last_hash (base_hash db.checkpoint) db.events,
        )
    from_rows = head_of-Linked c _ _ db.events l

-- The tables after an append.
abbrev pub extended : Signer → ℕ → AuditDb → AuditEvent → AuditDb
extended c now db e = record db {
  events = db.events ++ e ∷ [];
  state = some (signed_state c now e);
  next_id = db.next_id + 1;
}

-- What a transaction that succeeds has done.
pub append_tx_inv :
    (c : Signer) (now : ℕ) (db : AuditDb) (p : EventPayload) (db' : AuditDb) (e : AuditEvent)
    → append_tx c now db p ≡ ok (db', e)
    → (e ≡ next_event c db.next_id (load_chain_head db) p) × (db' ≡ extended c now db e)
unfolding append_tx store_state create_event
append_tx_inv c now db p db' e h = ground arith

pub next_event-IsLink :
    (c : Signer) (id n : ℕ) (h : Text) (p : EventPayload)
    → n + 1 < 18446744073709551616
    → p.version ≡ chain_version
    → IsLink c (n + 1) h (next_event c id (n, h) p)
unfolding next_event signed_event sign_event
next_event-IsLink c id n h p b v = record {
  sequence = omega arith;
  previous = refl;
  version = v;
  signature = refl;
}

pub signed_state-IsHead :
    (c : Signer) (now n : ℕ) (e : AuditEvent)
    → e.sequence ≡ n + 1
    → e.entry_hash ≢ []
    → IsHead c (n + 1) e.entry_hash (some (signed_state c now e))
unfolding signed_state sign_state
signed_state-IsHead c now n e s h = (s, refl, omega arith, h, refl)
