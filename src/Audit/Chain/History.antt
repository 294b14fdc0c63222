-- ===== src/Audit/Chain/History.antt =====
-- The state row fixes the whole history: rows that were changed, added, removed or moved without
-- the key are found.
use oneinstack_panel.Common.{
  ℕ, ◌+◌, ◌≡◌, ◌<◌, some, List, [], ◌∷◌, refl, sym, ◌∙◌, ap, length, map, arith, true,
}
use oneinstack_panel.Text.{Text}
use oneinstack_panel.Audit.{AuditDb, AuditEvent, AuditChainState, EventPayload, Signer}
use oneinstack_panel.Audit.Chain.{sign_event, verify}
use oneinstack_panel.Audit.Chain.Linked.{last_hash, base_sequence, base_hash, Linked}
use oneinstack_panel.Audit.Chain.Verified.{verify-valid_iff}

-- The signature tells the events at the same place of two lists apart.
abbrev pub NoCollision : Signer → List AuditEvent → List AuditEvent → Type 0
NoCollision c [] fs = Unit
NoCollision c (e ∷ es) [] = Unit
NoCollision c (e ∷ es) (f ∷ fs) =
    (sign_event c e ≡ sign_event c f → e.payload ≡ f.payload) × NoCollision c es fs

abbrev pub payloads : List AuditEvent → List EventPayload
payloads es = map (λ e. e.payload) es

-- Chains that end in the same hash are the same.
Linked-determined :
    (c : Signer) (n : ℕ) (h g : Text) (es fs : List AuditEvent)
    → length es ≡ length fs
    → Linked c n h es
    → Linked c n g fs
    → NoCollision c es fs
    → last_hash h es ≡ last_hash g fs
    → (payloads es ≡ payloads fs) × (h ≡ g)
Linked-determined c n h g [] [] q l m apart e = (refl, e)
Linked-determined c n h g [] (f ∷ fs) q l m apart e = absurd (omega arith)
Linked-determined c n h g (x ∷ es) [] q l m apart e = absurd (omega arith)
Linked-determined c n h g (x ∷ es) (f ∷ fs) q (k, l) (j, m) (differ, apart) e =
    let (rest, hashes) =
      Linked-determined c (n + 1) x.entry_hash f.entry_hash es fs (omega arith) l m apart e in
    let same = differ (sym k.signature ∙ hashes ∙ j.signature) in
    (cc, sym k.previous ∙ ap (λ p. p.previous_hash) same ∙ j.previous)

-- Two databases that `Verify` accepts, with the same state row and checkpoints at the same
-- sequence, hold the same signed events, if no two events at the same place share a signature
-- and the sequence numbers are below the limit of uint64.
pub verify-determines_history :
    (c : Signer) (db db' : AuditDb) (s : AuditChainState)
    → base_sequence db.checkpoint + 1 + length db.events < 18446744073709551616
    → base_sequence db'.checkpoint + 1 + length db'.events < 18446744073709551616
    → (verify c db).valid ≡ true
    → (verify c db').valid ≡ true
    → db.state ≡ some s
    → db'.state ≡ some s
    → base_sequence db.checkpoint ≡ base_sequence db'.checkpoint
    → NoCollision c db.events db'.events
    → payloads db.events ≡ payloads db'.events
verify-determines_history c db db' s b b' v v' p p' q apart =
    let i = (verify-valid_iff c db b).0 v in
    let i' = (verify-valid_iff c db' b').0 v' in
    let (n, h, _, _, _) = rw p at i.head in
    let (n', h', _, _, _) = rw p' at i'.head in
    (Linked-determined c (base_sequence db.checkpoint + 1) (base_hash db.checkpoint)
      (base_hash db'.checkpoint) db.events db'.events (omega arith) i.linked (rw q i'.linked) apart
      (sym h ∙ h')).0
