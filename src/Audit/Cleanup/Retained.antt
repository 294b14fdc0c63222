-- ===== src/Audit/Cleanup/Retained.antt =====
-- What a successful cleanup deletes and what it keeps.
use oneinstack_panel.Common.{
  ℕ, ◌+◌, ◌≤◌, ◌≡◌, ◌<◌, List, [], ◌∷◌, ◌++◌, refl, sym, ◌∙◌, ap, length, arith, All, true, Bool,
  Option, none, some, Bool-cases, inl, inr, length-append, false,
}
use oneinstack_panel.Audit.{AuditDb, AuditEvent, Signer}
use oneinstack_panel.Audit.Chain.{ok, verify, VerificationResult}
use oneinstack_panel.Audit.Chain.Linked.{head_sequence, base_sequence, IsIntact}
use oneinstack_panel.Audit.Chain.Verified.{verify-valid_iff}
use oneinstack_panel.Audit.Cleanup.{
  last_expired, expire_through, cleanup_through, cleanup_before, CleanupResult,
}
use oneinstack_panel.Audit.Cleanup.Keeps.{
  last_expired-Cut, last_expired-none, expire_through-IsExpired,
}

-- The tables and the report after a cleanup of `db` at the time `cutoff`.
pub record IsRetained (c : Signer) (cutoff : ℕ) (db : AuditDb) (out : AuditDb × CleanupResult)
    : Type 0 where
  pub intact : IsIntact c out.0
  pub deleted : List AuditEvent
  pub prefix : db.events ≡ deleted ++ out.0.events
  pub counted : out.1.deleted_entries ≡ length deleted
  pub kept_young : All (λ e. cutoff ≤ e.created_at) out.0.events
  pub state : out.0.state ≡ db.state
  pub head : head_sequence out.0 ≡ head_sequence db

append_cons :
    (before : List AuditEvent) (e : AuditEvent) (after : List AuditEvent)
    → before ++ e ∷ after ≡ (before ++ e ∷ []) ++ after
append_cons [] e after = refl
append_cons (x ∷ before) e after = ap (λ r. x ∷ r) (append_cons before e after)

cleanup_through-IsRetained :
    (c : Signer) (commits : Bool) (now cutoff : ℕ) (db : AuditDb) (v : VerificationResult)
    (found : Option AuditEvent)
    → last_expired cutoff db.events ≡ found
    → IsIntact c db
    → (out : AuditDb × CleanupResult) → cleanup_through c commits now cutoff db v found ≡ ok out
    → IsRetained c cutoff db out
unfolding cleanup_through
cleanup_through-IsRetained c commits now cutoff db v none q i out h =
    let same : out.0 ≡ db = ground arith in
    let zero : out.1.deleted_entries ≡ 0 = ground arith in
    record {
      intact = rw same i;
      deleted = [];
      prefix = sym (ap (λ (d : AuditDb). d.events) same);
      counted = zero;
      kept_young = rw same (last_expired-none cutoff db.events q);
      state = ap (λ (d : AuditDb). d.state) same;
      head = ap head_sequence same;
    }
cleanup_through-IsRetained c true now cutoff db v (some e) q i out h =
    let (k, early, late) = last_expired-Cut cutoff db.events e q in
    let x = expire_through-IsExpired c now cutoff db k.before e k.after k.joined i in
    let same : out ≡ expire_through c now cutoff db e = ground arith in
    rw same (record {
      intact = x.intact;
      deleted = k.before ++ e ∷ [];
      prefix =
          k.joined
          ∙ append_cons k.before e k.after
          ∙ ap (λ r. (k.before ++ e ∷ []) ++ r) (sym x.events);
      counted = omega (arith, x.deleted, length-append k.before (e ∷ []));
      kept_young = rw x.events late;
      state = x.state;
      head = x.head;
    })
cleanup_through-IsRetained c false now cutoff db v (some e) q i out h = cc

-- A cleanup that succeeds, with the sequence numbers below the limit of uint64, has found the chain valid and leaves it valid. It deletes a prefix of the
-- events and reports its length, keeps no event older than the cutoff, and changes neither the
-- state row nor the sequence of the head.
pub cleanup_before-IsRetained :
    (c : Signer) (commits : Bool) (now cutoff : ℕ) (db : AuditDb)
    → base_sequence db.checkpoint + 1 + length db.events < 18446744073709551616
    → (out : AuditDb × CleanupResult) → cleanup_before c commits now cutoff db ≡ ok out
    → ((verify c db).valid ≡ true) × ((verify c out.0).valid ≡ true) × IsRetained c cutoff db out
unfolding cleanup_before
cleanup_before-IsRetained c commits now cutoff db b out h = elim (Bool-cases (verify c db).valid) [
  | inr bad ↦ ground arith
  | inl good ↦
      let i = (verify-valid_iff c db b).0 good in
      let r =
        cleanup_through-IsRetained c commits now cutoff db (verify c db) _ refl i out
          (rw (good, cleanup_before) at h) in
      (good, (verify-valid_iff c out.0 (omega (arith, r.head))).1 r.intact, r)
]
