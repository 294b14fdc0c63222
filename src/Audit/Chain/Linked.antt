-- ===== src/Audit/Chain/Linked.antt =====
-- What an intact chain is, stated without the verification's loop.
use oneinstack_panel.Common.{
  ℕ, ◌+◌, ◌≡◌, ◌≢◌, Option, none, some, List, [], ◌∷◌, length, arith, ◌↔◌, true,
}
use oneinstack_panel.Text.{Text}
use oneinstack_panel.Text.Laws.{text_eq_iff}
use oneinstack_panel.Audit.{
  chain_version, genesis_hash, AuditEvent, AuditCheckpoint, AuditChainState, AuditDb, Signer,
}
use oneinstack_panel.Audit.Chain.{
  sign_event, sign_checkpoint, sign_state, verify_checkpoint, verify_state,
}

-- The hash that the next event after `es` continues from.
abbrev pub last_hash : Text → List AuditEvent → Text
last_hash h [] = h
last_hash h (e ∷ es) = last_hash e.entry_hash es

-- Where the chain starts: after the checkpoint, or from the genesis hash.
abbrev pub base_sequence : Option AuditCheckpoint → ℕ
base_sequence none = 0
base_sequence (some cp) = cp.through_sequence

abbrev pub base_hash : Option AuditCheckpoint → Text
base_hash none = genesis_hash
base_hash (some cp) = cp.through_entry_hash

-- Where the chain ends.
abbrev pub head_sequence : AuditDb → ℕ
head_sequence db = base_sequence db.checkpoint + length db.events

abbrev pub head_hash : AuditDb → Text
head_hash db = last_hash (base_hash db.checkpoint) db.events

module _ (c : Signer) where
  -- One event that continues a chain at the sequence `n` and the hash `h`.
  pub record IsLink (n : ℕ) (h : Text) (e : AuditEvent) : Type 0 where
    pub sequence : e.sequence ≡ n
    pub previous : e.previous_hash ≡ h
    pub version : e.version ≡ chain_version
    pub signature : e.entry_hash ≡ sign_event c e

  abbrev pub Linked : ℕ → Text → List AuditEvent → Type 0
  Linked n h [] = Unit
  Linked n h (e ∷ es) = IsLink n h e × Linked (n + 1) e.entry_hash es

  -- A checkpoint that the manager signed.
  abbrev pub IsBase : Option AuditCheckpoint → Type 0
  IsBase none = Unit
  IsBase (some cp) =
      (cp.through_sequence ≢ 0)
      × (cp.through_entry_hash ≢ [])
      × (cp.signature ≡ sign_checkpoint c cp)

  -- A state row that the manager signed for the head at `n` and `h`; no row for the empty chain.
  abbrev pub IsHead : ℕ → Text → Option AuditChainState → Type 0
  IsHead n h none = n ≡ 0
  IsHead n h (some s) =
      (s.last_sequence ≡ n)
      × (s.last_entry_hash ≡ h)
      × (n ≢ 0)
      × (h ≢ [])
      × (s.signature ≡ sign_state c s)

  pub record IsIntact (db : AuditDb) : Type 0 where
    pub base : IsBase db.checkpoint
    pub linked : Linked (base_sequence db.checkpoint + 1) (base_hash db.checkpoint) db.events
    pub head : IsHead (head_sequence db) (head_hash db) db.state

  pub verify_checkpoint_iff :
      (cp : AuditCheckpoint) → (verify_checkpoint c cp ≡ true) ↔ IsBase (some cp)
  unfolding verify_checkpoint
  verify_checkpoint_iff cp = (
    λ h. ground (arith, text_eq_iff (sign_checkpoint c cp) cp.signature),
    λ h. ground (
      arith,
      text_eq_iff (sign_checkpoint c cp) cp.signature,
      c.sign_nonempty (c.encode_checkpoint cp.through_sequence cp.through_entry_hash),
    ),
  )

  pub verify_state_iff :
      (s : AuditChainState)
      → (verify_state c s ≡ true)
        ↔ ((s.last_sequence ≢ 0) × (s.last_entry_hash ≢ []) × (s.signature ≡ sign_state c s))
  unfolding verify_state
  verify_state_iff s = (
    λ h. ground (arith, text_eq_iff (sign_state c s) s.signature),
    λ h. ground (
      arith,
      text_eq_iff (sign_state c s) s.signature,
      c.sign_nonempty (c.encode_state s.last_sequence s.last_entry_hash),
    ),
  )

pub IsHead-cast :
    (c : Signer) {n m : ℕ} {h g : Text} (s : Option AuditChainState)
    → n ≡ m
    → h ≡ g
    → IsHead c n h s
    → IsHead c m g s
IsHead-cast c s e p k = rw e at (rw p at k)
