-- ===== src/Audit/Append/Keeps.antt =====
-- `Append` keeps the chain intact, and when it succeeds.
use oneinstack_panel.Common.{
  ℕ, ◌+◌, ◌≡◌, ◌<◌, ◌≢◌, Option, none, some, List, [], ◌∷◌, ◌++◌, refl, ap, sym, ◌∙◌, length, arith,
  false, ◌||◌, ◌==◌, length-append, any, All, ◌≤◌,
}
use oneinstack_panel.Text.{Text, text_eq}
use oneinstack_panel.Text.Laws.{text_eq_iff}
use oneinstack_panel.Audit.{
  chain_version, AuditEvent, EventPayload, AuditChainState, AuditDb, Signer,
}
use oneinstack_panel.Audit.Chain.{sign_event, ok}
use oneinstack_panel.Audit.Chain.Linked.{
  IsHead-cast, head_sequence, head_hash, base_sequence, base_hash, IsLink, Linked, IsHead, IsIntact,
  verify_state_iff,
}
use oneinstack_panel.Audit.Append.{
  create_event, verify_stored_head, signed_state, next_event, store_state, append_tx, append_at,
}
use oneinstack_panel.Audit.Append.Extends.{
  extended, append_tx_inv, next_event-IsLink, signed_state-IsHead, load_chain_head-eq,
  last_hash-append, Linked-append, IsLink-cast,
}

-- The state row of an intact chain passes the check before an append.
verify_stored_head-IsHead :
    (c : Signer) (n : ℕ) (h : Text) (state : Option AuditChainState)
    → IsHead c n h state
    → verify_stored_head c n h state ≡ none
unfolding verify_stored_head
verify_stored_head-IsHead c n h none k = ground arith
verify_stored_head-IsHead c n h (some s) k =
    ground (arith, verify_state_iff c s, text_eq_iff s.last_entry_hash h)

-- The rows of a chain have smaller sequences than an event after them.
no_duplicate :
    (c : Signer) (n m : ℕ) (h g : Text) (es : List AuditEvent)
    → n + length es ≤ m
    → Linked c n h es
    → All (λ f. f.entry_hash ≢ g) es
    → any (λ f. f.sequence == m || text_eq f.entry_hash g) es ≡ false
no_duplicate c n m h g [] b l fresh = refl
no_duplicate c n m h g (e ∷ es) b (k, l) (new, fresh) = ground (
  arith,
  k.sequence,
  text_eq_iff e.entry_hash g,
  no_duplicate c (n + 1) m e.entry_hash g es (omega arith) l fresh,
)

-- The event that `p` becomes at the head of the chain.
abbrev pub appended : Signer → AuditDb → EventPayload → AuditEvent
appended c db p = next_event c db.next_id (head_sequence db, head_hash db) p

module _ (c : Signer) (now : ℕ) (db : AuditDb) (p : EventPayload) (intact : IsIntact c db)
    (bound : base_sequence db.checkpoint + 1 + length db.events < 18446744073709551616)
    (version : p.version ≡ chain_version) where
  pub appended-IsLink : IsLink c ((head_sequence db) + 1) (head_hash db) (appended c db p)
  appended-IsLink =
      next_event-IsLink c db.next_id (head_sequence db) (head_hash db) p (omega arith) version

  appended-ne-nil : (appended c db p).entry_hash ≢ []
  unfolding sign_event
  appended-ne-nil h = c.sign_nonempty _ (sym appended-IsLink.signature ∙ h)

  pub extended-IsIntact : IsIntact c (extended c now db (appended c db p))
  extended-IsIntact = record {
    base = intact.base;
    linked =
        Linked-append c (base_sequence db.checkpoint + 1) (base_hash db.checkpoint) db.events
          (appended c db p) intact.linked (IsLink-cast c (omega arith) appended-IsLink);
    head =
        IsHead-cast c {n = (head_sequence db) + 1}
          {m = base_sequence db.checkpoint + length (db.events ++ (appended c db p) ∷ [])}
          (some (signed_state c now (appended c db p)))
          (omega (arith, length-append db.events ((appended c db p) ∷ [])))
          (sym (last_hash-append (base_hash db.checkpoint) db.events (appended c db p)))
          (signed_state-IsHead c now (head_sequence db) (appended c db p) appended-IsLink.sequence
            appended-ne-nil);
  }

  pub append_tx_keeps :
      (db' : AuditDb) (e : AuditEvent)
      → append_tx c now db p ≡ ok (db', e)
      → (e ≡ (appended c db p)) × (db' ≡ extended c now db (appended c db p))
  append_tx_keeps db' e h =
      let (made, stored) = append_tx_inv c now db p db' e h in
      let same : e ≡ (appended c db p) = rw (load_chain_head-eq c db intact.linked) at made in
      (same, stored ∙ ap (extended c now db) same)

  -- An attempt succeeds unless the table already holds the hash of the new event.
  pub append_tx_total :
      All (λ f. f.entry_hash ≢ (appended c db p).entry_hash) db.events
      → append_tx c now db p ≡ ok (extended c now db (appended c db p), (appended c db p))
  unfolding append_tx append_at store_state create_event
  append_tx_total fresh =
      ap (append_at c now db p) (load_chain_head-eq c db intact.linked)
      ∙ rw
          (
            verify_stored_head-IsHead c (head_sequence db) (head_hash db) db.state intact.head,
            append_at,
          )
          (rw (
            no_duplicate c (base_sequence db.checkpoint + 1) ((appended c db p).sequence)
                (base_hash db.checkpoint) (appended c db p).entry_hash db.events
                (omega (arith, appended-IsLink.sequence)) intact.linked fresh,
            create_event,
          ))
