-- ===== src/Audit/Chain/Verified.antt =====
-- `Verify` accepts exactly the intact chains.
use oneinstack_panel.Common.{
  ℕ, ◌+◌, ◌≡◌, ◌<◌, Option, none, some, List, [], ◌∷◌, refl, ap, sym, ◌∙◌, length, arith, inl, inr,
  ◌↔◌, true, false, ◌⊎◌, Bool-cases, if◌then◌else◌, ◌==◌,
}
use oneinstack_panel.Text.{Text, text_eq}
use oneinstack_panel.Text.Laws.{text_eq_iff}
use oneinstack_panel.Audit.{
  u64, chain_version, genesis_hash, AuditEvent, AuditCheckpoint, AuditChainState, AuditDb, Signer,
}
use oneinstack_panel.Audit.Chain.{
  sign_event, verify_checkpoint, VerificationResult, counted, scan, is_linked, ScanEnd, stopped,
  finished, verify_head, finish_scan, verify_rows, verify,
}
use oneinstack_panel.Audit.Chain.Linked.{
  last_hash, base_sequence, base_hash, Linked, IsBase, IsHead, IsIntact, verify_checkpoint_iff,
  verify_state_iff,
}

-- The counters after a loop that went through all rows.
abbrev pub tally : VerificationResult → List AuditEvent → VerificationResult
tally r [] = r
tally r (e ∷ es) = tally (counted r e) es

tally-valid : (r : VerificationResult) (es : List AuditEvent) → (tally r es).valid ≡ r.valid
tally-valid r [] = refl
tally-valid r (e ∷ es) = tally-valid (counted r e) es

-- A sequence number that does not wrap.
pub u64_of_lt : (n : ℕ) → n < 18446744073709551616 → u64 n ≡ n
u64_of_lt n h = omega arith

finished_path :
    (r : VerificationResult) (n m : ℕ) (h : Text) → n ≡ m → finished r n h ≡ finished r m h
finished_path r n m h e = rw e

module _ (c : Signer) where
  is_linked_iff :
      (n : ℕ) (h : Text) (e : AuditEvent)
      → (is_linked c n h e ≡ true)
        ↔ ((e.sequence ≡ n) × (e.previous_hash ≡ h) × (e.version ≡ chain_version))
  unfolding is_linked
  is_linked_iff n h e = (
    λ p. ground (arith, text_eq_iff e.previous_hash h),
    λ p. ground (arith, text_eq_iff e.previous_hash h),
  )

  -- Over a linked list of rows the loop ends after the last row, at the head.
  scan-Linked :
      (r : VerificationResult) (n : ℕ) (h : Text) (es : List AuditEvent)
      → n + length es < 18446744073709551616
      → Linked c n h es
      → scan c r n h es ≡ finished (tally r es) (n + length es) (last_hash h es)
  unfolding scan
  scan-Linked r n h [] b l = finished_path r n (n + 0) h (omega arith)
  scan-Linked r n h (e ∷ es) b (k, l) =
      rw ((is_linked_iff n h e).1 (k.sequence, k.previous, k.version)) (
        rw ((text_eq_iff (sign_event c e) e.entry_hash).1 (sym k.signature)) (
          rw (u64_of_lt (n + 1) (omega arith)) (
            scan-Linked (counted r e) (n + 1) e.entry_hash es (omega arith) l
            ∙ finished_path _ _ _ _ (omega arith))))

  -- A loop that ends after the last row has seen linked rows only.
  Linked-scan :
      (r q : VerificationResult) (n m : ℕ) (h g : Text) (es : List AuditEvent)
      → n + length es < 18446744073709551616
      → scan c r n h es ≡ finished q m g
      → Linked c n h es
  unfolding scan
  Linked-scan r q n m h g [] b e = tt
  Linked-scan r q n m h g (x ∷ es) b e = elim (Bool-cases (is_linked c n h x)) [
    | inr bad ↦ cc
    | inl linked ↦ elim (Bool-cases (text_eq (sign_event c x) x.entry_hash)) [
      | inr bad ↦ ground arith
      | inl signed ↦
          let (s, p, v) = (is_linked_iff n h x).0 linked in
          (
            record {
              sequence = s;
              previous = p;
              version = v;
              signature = sym ((text_eq_iff (sign_event c x) x.entry_hash).0 signed);
            },
            Linked-scan (counted r x) q (n + 1) m x.entry_hash g es (omega arith)
                (rw (linked, scan, signed, u64_of_lt (n + 1) (omega arith)) at e),
          )
    ]
  ]

  -- A loop that stops has found a fault.
  stopped_not_valid :
      (r q : VerificationResult) (n : ℕ) (h : Text) (es : List AuditEvent)
      → scan c r n h es ≡ stopped q
      → q.valid ≡ false
  unfolding scan
  stopped_not_valid r q n h [] e = cc
  stopped_not_valid r q n h (x ∷ es) e =
      ground (arith, stopped_not_valid (counted r x) q (u64 (n + 1)) x.entry_hash es)

  -- The check of the state row accepts exactly the row of the head.
  verify_head_iff :
      (r : VerificationResult) (n : ℕ) (h : Text) (state : Option AuditChainState)
      → r.valid ≡ true
      → ((verify_head c r n h state).valid ≡ true) ↔ IsHead c n h state
  unfolding verify_head
  verify_head_iff r n h none v = (λ p. ground arith, λ p. ground arith)
  verify_head_iff r n h (some s) v = (
    λ p. ground (
      arith,
      verify_state_iff c s,
      text_eq_iff s.last_entry_hash (if n == 0 then genesis_hash else h),
    ),
    λ p. ground (
      arith,
      verify_state_iff c s,
      text_eq_iff s.last_entry_hash (if n == 0 then genesis_hash else h),
    ),
  )

ScanEnd-cases :
    (s : ScanEnd)
    → ((q : VerificationResult) × (s ≡ stopped q))
      ⊎ ((q : VerificationResult) × (m : ℕ) × (g : Text) × (s ≡ finished q m g))
ScanEnd-cases (stopped q) = inl (q, refl)
ScanEnd-cases (finished q m g) = inr (q, m, g, refl)

module _ (c : Signer) (r : VerificationResult) (n : ℕ) (h : Text) (es : List AuditEvent)
    (state : Option AuditChainState) (valid : r.valid ≡ true)
    (bound : n + 1 + length es < 18446744073709551616) where
  finish_scan-Linked :
      Linked c (n + 1) h es
      → finish_scan c state (scan c r (u64 (n + 1)) h es)
        ≡ verify_head c (tally r es) (n + length es) (last_hash h es) state
  unfolding finish_scan
  finish_scan-Linked l = rw (u64_of_lt (n + 1) (omega arith)) (
      rw (scan-Linked c r (n + 1) h es bound l)
        (ap (λ m. verify_head c (tally r es) m (last_hash h es) state) (omega arith)))

  tally-IsHead_iff :
      ((verify_head c (tally r es) (n + length es) (last_hash h es) state).valid ≡ true)
      ↔ IsHead c (n + length es) (last_hash h es) state
  tally-IsHead_iff =
      verify_head_iff c (tally r es) (n + length es) (last_hash h es) state
        (tally-valid r es ∙ valid)

  -- The loop and the check of the head together.
  finish_scan_iff :
      ((finish_scan c state (scan c r (u64 (n + 1)) h es)).valid ≡ true)
      ↔ (Linked c (n + 1) h es × IsHead c (n + length es) (last_hash h es) state)
  unfolding finish_scan
  finish_scan_iff = (
    λ p. elim (ScanEnd-cases (scan c r (u64 (n + 1)) h es)) [
      | inl (q, e) ↦
          let found : q.valid ≡ true = rw e at p in
          let refuted = stopped_not_valid c r q (u64 (n + 1)) h es e in cc
      | inr (q, m, g, e) ↦
          let l =
            Linked-scan c r q (n + 1) m h g es bound (rw (u64_of_lt (n + 1) (omega arith)) at e) in
          (l, tally-IsHead_iff.0 (rw (finish_scan-Linked l) at p))
    ],
    λ (l, hd). rw (finish_scan-Linked l) (tally-IsHead_iff.1 hd),
  )

verify_rows_iff :
    (c : Signer) (db : AuditDb) (r : VerificationResult)
    → r.valid ≡ true
    → (cp : Option AuditCheckpoint) → base_sequence cp + 1 + length db.events < 18446744073709551616
    → ((verify_rows c db r cp).valid ≡ true) ↔ (
        IsBase c cp
        × Linked c (base_sequence cp + 1) (base_hash cp) db.events
        × IsHead c
            (base_sequence cp + length db.events)
            (last_hash (base_hash cp) db.events)
            db.state)
unfolding verify_rows
verify_rows_iff c db r v none b =
    let (to, from) = finish_scan_iff c r 0 genesis_hash db.events db.state v b in
    (λ p. let (l, hd) = to p in (tt, l, hd), λ (k, l, hd). from (l, hd))
verify_rows_iff c db r v (some cp) b =
    let start : VerificationResult = record r { checkpoint_sequence = cp.through_sequence } in
    let (to, from) =
      finish_scan_iff c start cp.through_sequence cp.through_entry_hash db.events db.state v b in
    (
      λ p. elim (Bool-cases (verify_checkpoint c cp)) [
        | inl e ↦ let (l, hd) = to (rw e at p) in ((verify_checkpoint_iff c cp).0 e, l, hd)
        | inr e ↦ ground arith
      ],
      λ (k, l, hd). rw ((verify_checkpoint_iff c cp).1 k) (from (l, hd)),
    )

-- `Verify` answers that the chain is valid exactly when it is intact: the checkpoint, each event
-- and the state row are signed, each event continues the one before it, and the state row is that
-- of the last event. The sequence numbers are below the limit of uint64.
pub verify-valid_iff :
    (c : Signer) (db : AuditDb)
    → base_sequence db.checkpoint + 1 + length db.events < 18446744073709551616
    → ((verify c db).valid ≡ true) ↔ IsIntact c db
unfolding verify
verify-valid_iff c db b =
    let (to, from) = verify_rows_iff c db _ refl db.checkpoint b in
    (
      λ p. let (k, l, hd) = to p in record { base = k; linked = l; head = hd },
      λ i. from (i.base, i.linked, i.head),
    )
