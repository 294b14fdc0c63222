-- ===== src/Approval/Overlap/Run.antt =====
-- Overlapping reviews of internal/services/approval/service.go, in any order.
use mathlib.Core.Path.{subst}
use oneinstack_panel.Common.{
  ℕ, zero, suc, ◌≡◌, ◌≢◌, refl, sym, ◌∙◌, true, false, Option, none, some, List, [], ◌∷◌, arith,
  All, some_inj,
}
use oneinstack_panel.Text.{Text, text_eq}
use oneinstack_panel.Text.Laws.{text_eq_iff}
use oneinstack_panel.Approval.{ApprovalRequest}
use oneinstack_panel.Approval.Service.{
  find_request, mark_expired, refuse, expire, proceed, Reading, no_request, checked, write_review,
}
use oneinstack_panel.Approval.Rows.{find_request-id}
use oneinstack_panel.Approval.Transitions.{step}
use oneinstack_panel.Approval.Overlap.{
  Verdict, approving, rejecting, Review, mark_by, Begun, Desk, nth_begun, drop_begun, Move, whole,
  read_half, write_half, move_reopens, write_begun, move, run_moves,
}
use oneinstack_panel.Approval.Overlap.Whole.{step-Steady, step-AllSeparate}
use oneinstack_panel.Approval.Overlap.Separate.{
  IsSeparate, AllSeparate, Steady, IsFair, IsFair-Steady, read_review-IsFair, update_where-Steady,
  update_where-AllSeparate,
}

mark_by-IsSeparate :
    (d : Verdict) (at : ℕ) (v : Review) (s : ApprovalRequest)
    → v.reviewer ≢ s.requested_by
    → IsSeparate s
    → IsSeparate (mark_by d at v s)
mark_by-IsSeparate approving at v s other k = record {
  approver = λ h. other;
  rejecter = k.rejecter;
}
mark_by-IsSeparate rejecting at v s other k = record {
  approver = k.approver;
  rejecter = λ h. other;
}

mark_by-id :
    (d : Verdict) (at : ℕ) (v : Review) (s : ApprovalRequest) → (mark_by d at v s).id ≡ s.id
mark_by-id approving at v s = refl
mark_by-id rejecting at v s = refl

mark_by-requested_by :
    (d : Verdict) (at : ℕ) (v : Review) (s : ApprovalRequest)
    → (mark_by d at v s).requested_by ≡ s.requested_by
mark_by-requested_by approving at v s = refl
mark_by-requested_by rejecting at v s = refl

Steady-refl : (rs : List ApprovalRequest) → Steady rs rs
Steady-refl rs id r e = (r, e, refl)

-- The table after the second half of a review.
abbrev written : ℕ → Review → Reading → List ApprovalRequest → List ApprovalRequest
written at v o rs = (write_review at (mark_by v.verdict at v) o rs).rows

write_review-Steady :
    (at : ℕ) (v : Review) (o : Reading) (rs : List ApprovalRequest) → Steady rs (written at v o rs)
unfolding write_review
write_review-Steady at v no_request rs = Steady-refl rs
write_review-Steady at v (checked r (refuse e)) rs = Steady-refl rs
write_review-Steady at v (checked r expire) rs =
    update_where-Steady _ (mark_expired at) (λ s. refl) (λ s. refl) rs
write_review-Steady at v (checked r proceed) rs =
    update_where-Steady _ (mark_by v.verdict at v) (mark_by-id v.verdict at v)
      (mark_by-requested_by v.verdict at v) rs

-- The row that is found under the id of a fair reading has the reading's requester.
other_reviewer :
    (reviewer : ℕ) (rs : List ApprovalRequest) (r : ApprovalRequest) (id : Text)
    (s : ApprovalRequest)
    → IsFair reviewer rs (checked r proceed)
    → find_request id rs ≡ some s
    → text_eq s.id r.id ≡ true
    → reviewer ≢ s.requested_by
other_reviewer reviewer rs r id s (other, t, here, same) found is =
    let one : id ≡ r.id =
      sym ((text_eq_iff s.id id).0 (find_request-id id rs s found))
      ∙ (text_eq_iff s.id r.id).0 is in
    let at_r : find_request r.id rs ≡ some s = subst (λ i. find_request i rs ≡ some s) one found in
    λ e. other (ground (arith, e, same, here, at_r))

write_review-AllSeparate :
    (at : ℕ) (v : Review) (o : Reading) (rs : List ApprovalRequest)
    → IsFair v.reviewer rs o
    → AllSeparate rs
    → AllSeparate (written at v o rs)
unfolding write_review
write_review-AllSeparate at v no_request rs f k = k
write_review-AllSeparate at v (checked r (refuse e)) rs f k = k
write_review-AllSeparate at v (checked r expire) rs f k =
    update_where-AllSeparate _ (mark_expired at) (λ s. refl) (λ s. refl) rs k
      (λ id s found is own. record { approver = own.approver; rejecter = own.rejecter })
write_review-AllSeparate at v (checked r proceed) rs f k =
    update_where-AllSeparate _ (mark_by v.verdict at v) (mark_by-id v.verdict at v)
      (mark_by-requested_by v.verdict at v) rs k
      (λ id s found is own.
        mark_by-IsSeparate v.verdict at v s (other_reviewer v.reviewer rs r id s f found is) own)

-- Every review that has begun is fair on the table.
abbrev AllFair : List ApprovalRequest → List Begun → Type 0
AllFair rs bs = All (λ b. IsFair b.review.reviewer rs b.reading) bs

AllFair-Steady :
    (rs rs' : List ApprovalRequest) (bs : List Begun)
    → Steady rs rs'
    → AllFair rs bs
    → AllFair rs' bs
AllFair-Steady rs rs' [] k f = tt
AllFair-Steady rs rs' (b ∷ bs) k (f, fs) =
    (IsFair-Steady b.review.reviewer rs rs' b.reading k f, AllFair-Steady rs rs' bs k fs)

AllFair-drop_begun :
    (rs : List ApprovalRequest) (n : ℕ) (bs : List Begun)
    → AllFair rs bs
    → AllFair rs (drop_begun n bs)
AllFair-drop_begun rs n [] f = tt
AllFair-drop_begun rs zero (b ∷ bs) (f, fs) = fs
AllFair-drop_begun rs (suc n) (b ∷ bs) (f, fs) = (f, AllFair-drop_begun rs n bs fs)

AllFair-nth_begun :
    (rs : List ApprovalRequest) (n : ℕ) (bs : List Begun) (b : Begun)
    → AllFair rs bs
    → nth_begun n bs ≡ some b
    → IsFair b.review.reviewer rs b.reading
AllFair-nth_begun rs n [] b f e = absurd (cc e)
AllFair-nth_begun rs zero (a ∷ bs) b (f, fs) e =
    subst (λ x. IsFair x.review.reviewer rs x.reading) (some_inj e) f
AllFair-nth_begun rs (suc n) (a ∷ bs) b (f, fs) e = AllFair-nth_begun rs n bs b fs e

abbrev IsFairDesk : Desk → Type 0
IsFairDesk d = AllSeparate d.rows × AllFair d.rows d.begun

write_begun-IsFairDesk :
    (at n : ℕ) (o : Option Begun) (d : Desk)
    → nth_begun n d.begun ≡ o
    → IsFairDesk d
    → IsFairDesk (write_begun at n o d)
unfolding write_begun
write_begun-IsFairDesk at n none d e k = k
write_begun-IsFairDesk at n (some b) d e (k, f) =
    let steady = write_review-Steady at b.review b.reading d.rows in
    (
      write_review-AllSeparate at b.review b.reading d.rows
          (AllFair-nth_begun d.rows n d.begun b f e) k,
      AllFair-Steady d.rows (written at b.review b.reading d.rows) (drop_begun n d.begun) steady
          (AllFair-drop_begun d.rows n d.begun f),
    )

move-IsFairDesk :
    (k : Move) (d : Desk) → move_reopens k ≡ false → IsFairDesk d → IsFairDesk (move k d)
unfolding move
move-IsFairDesk (whole c) d h (k, f) = (
  step-AllSeparate c d.rows h k,
  AllFair-Steady d.rows (step c d.rows) d.begun (step-Steady c d.rows h) f,
)
move-IsFairDesk (read_half now v) d h (k, f) =
    (k, (read_review-IsFair now v.reviewer v.id d.rows, f))
move-IsFairDesk (write_half at n) d h k = write_begun-IsFairDesk at n (nth_begun n d.begun) d refl k

run_moves-IsFairDesk :
    (ks : List Move) (d : Desk)
    → All (λ k. move_reopens k ≡ false) ks
    → IsFairDesk d
    → IsFairDesk (run_moves ks d)
unfolding run_moves
run_moves-IsFairDesk [] d h k = k
run_moves-IsFairDesk (m ∷ ms) d (h, hs) k =
    run_moves-IsFairDesk ms (move m d) hs (move-IsFairDesk m d h k)

-- However reviews overlap each other and the other calls, if no call sets a status back to pending
-- and no review has begun at the start: no request is approved or rejected by its requester, if
-- none was before.
pub run_moves-AllSeparate :
    (ks : List Move) (rs : List ApprovalRequest)
    → All (λ k. move_reopens k ≡ false) ks
    → AllSeparate rs
    → AllSeparate (run_moves ks (record { rows = rs; begun = [] })).rows
run_moves-AllSeparate ks rs h k =
    (run_moves-IsFairDesk ks (record { rows = rs; begun = [] }) h (k, tt)).0
