-- ===== src/Approval/Overlap/Whole.antt =====
-- The requester and the reviewers of a request of internal/services/approval through a whole call.
use mathlib.Core.Path.{subst}
use oneinstack_panel.Common.{◌≡◌, refl, false, none, some, List, arith, Option-cases, inl, inr}
use oneinstack_panel.Approval.{ApprovalRequest}
use oneinstack_panel.Approval.Service.{find_request}
use oneinstack_panel.Approval.Transitions.{
  Transition, stay, approve_pending, reject_pending, expire_due, execute, settle, Call, step,
  reopens,
}
use oneinstack_panel.Approval.Steps.{step-Transition}
use oneinstack_panel.Approval.Orderly.{absent-step}
use oneinstack_panel.Approval.Overlap.Separate.{IsSeparate, AllSeparate, Steady}

Transition-requested_by :
    (r r' : ApprovalRequest) → Transition r r' → r'.requested_by ≡ r.requested_by
Transition-requested_by _ _ (stay r) = refl
Transition-requested_by _ _ (approve_pending r now reviewer name comment p q) = refl
Transition-requested_by _ _ (reject_pending r now reviewer name comment p q) = refl
Transition-requested_by _ _ (expire_due r now p q) = refl
Transition-requested_by _ _ (execute r now status task_type task_id none c) = refl
Transition-requested_by _ _ (execute r now status task_type task_id (some x) c) = refl
Transition-requested_by _ _ (settle r now status none p c) = refl
Transition-requested_by _ _ (settle r now status (some x) p c) = refl

-- A change that touches no review.
unreviewed :
    (r r' : ApprovalRequest)
    → IsSeparate r
    → IsSeparate (record r {
      status = r'.status;
      updated_at = r'.updated_at;
      result_payload = r'.result_payload;
      bound_task_type = r'.bound_task_type;
      bound_task_id = r'.bound_task_id;
    })
unreviewed r r' k = record { approver = k.approver; rejecter = k.rejecter }

Transition-IsSeparate : (r r' : ApprovalRequest) → Transition r r' → IsSeparate r → IsSeparate r'
Transition-IsSeparate _ _ (stay r) k = k
Transition-IsSeparate _ _ (approve_pending r now reviewer name comment p q) k = record {
  approver = λ h. q;
  rejecter = k.rejecter;
}
Transition-IsSeparate _ _ (reject_pending r now reviewer name comment p q) k = record {
  approver = k.approver;
  rejecter = λ h. q;
}
Transition-IsSeparate _ r' (expire_due r now p q) k = unreviewed r r' k
Transition-IsSeparate _ r' (execute r now status task_type task_id none c) k = unreviewed r r' k
Transition-IsSeparate _ r' (execute r now status task_type task_id (some x) c) k = unreviewed r r' k
Transition-IsSeparate _ r' (settle r now status none p c) k = unreviewed r r' k
Transition-IsSeparate _ r' (settle r now status (some x) p c) k = unreviewed r r' k

pub step-Steady : (c : Call) (rs : List ApprovalRequest) → reopens c ≡ false → Steady rs (step c rs)
step-Steady c rs h id r e =
    let (r', next, t) = step-Transition c id rs r h e in (r', next, Transition-requested_by r r' t)

pub step-AllSeparate :
    (c : Call) (rs : List ApprovalRequest)
    → reopens c ≡ false
    → AllSeparate rs
    → AllSeparate (step c rs)
step-AllSeparate c rs h k id r e = elim (Option-cases (find_request id rs)) [
  | inl gone ↦
      let o = absent-step id rs r gone c e in
      record { approver = o.approver; rejecter = o.rejecter }
  | inr (s, found) ↦
      let (s', next, t) = step-Transition c id rs s h found in
      let is : s' ≡ r = ground (arith, next, e) in
      subst IsSeparate is (Transition-IsSeparate s s' t (k id s found))
]
