-- ===== src/Approval/Kept.antt =====
-- What stays of a request once it is made, and of a review once it is given.
use oneinstack_panel.Common.{ℕ, ◌≡◌, refl, ◌∙◌, false, none, some, List, [], ◌∷◌, All}
use oneinstack_panel.Text.{Text}
use oneinstack_panel.Approval.{ApprovalRequest}
use oneinstack_panel.Approval.Service.{find_request}
use oneinstack_panel.Approval.Transitions.{
  Transition, stay, approve_pending, reject_pending, expire_due, execute, settle, Call, step,
  run_calls, reopens,
}
use oneinstack_panel.Approval.Steps.{step-Transition}
use oneinstack_panel.Approval.Orderly.{IsOrderly, Transition-IsOrderly}

pub record IsKept (r r' : ApprovalRequest) : Type 0 where
  pub module_name : r'.module_name ≡ r.module_name
  pub action : r'.action ≡ r.action
  pub resource_id : r'.resource_id ≡ r.resource_id
  pub payload_snapshot : r'.payload_snapshot ≡ r.payload_snapshot
  pub requested_by : r'.requested_by ≡ r.requested_by
  pub expires_at : r'.expires_at ≡ r.expires_at
  pub approval :
      (at : ℕ)
      → r.approved_at ≡ some at
      → (r'.approved_at ≡ some at) × (r'.approved_by ≡ r.approved_by)
  pub rejection :
      (at : ℕ)
      → r.rejected_at ≡ some at
      → (r'.rejected_at ≡ some at) × (r'.rejected_by ≡ r.rejected_by)

IsKept-refl : (r : ApprovalRequest) → IsKept r r
IsKept-refl r = record {
  module_name = refl;
  action = refl;
  resource_id = refl;
  payload_snapshot = refl;
  requested_by = refl;
  expires_at = refl;
  approval = λ at e. (e, refl);
  rejection = λ at e. (e, refl);
}

IsKept-trans : (r s t : ApprovalRequest) → IsKept r s → IsKept s t → IsKept r t
IsKept-trans r s t k l = record {
  module_name = l.module_name ∙ k.module_name;
  action = l.action ∙ k.action;
  resource_id = l.resource_id ∙ k.resource_id;
  payload_snapshot = l.payload_snapshot ∙ k.payload_snapshot;
  requested_by = l.requested_by ∙ k.requested_by;
  expires_at = l.expires_at ∙ k.expires_at;
  approval = λ at e. let (a, b) = k.approval at e in let (c, d) = l.approval at a in (c, d ∙ b);
  rejection = λ at e. let (a, b) = k.rejection at e in let (c, d) = l.rejection at a in (c, d ∙ b);
}

-- The changes that touch no field of the request itself and no review.
unreviewed :
    (r r' : ApprovalRequest)
    → IsKept r (record r {
      status = r'.status;
      updated_at = r'.updated_at;
      result_payload = r'.result_payload;
      bound_task_type = r'.bound_task_type;
      bound_task_id = r'.bound_task_id;
    })
unreviewed r r' = record {
  module_name = refl;
  action = refl;
  resource_id = refl;
  payload_snapshot = refl;
  requested_by = refl;
  expires_at = refl;
  approval = λ at e. (e, refl);
  rejection = λ at e. (e, refl);
}

Transition-IsKept : (r r' : ApprovalRequest) → Transition r r' → IsOrderly r → IsKept r r'
Transition-IsKept _ _ (stay r) k = IsKept-refl r
Transition-IsKept _ _ (approve_pending r now reviewer name comment p q) k = record {
  module_name = refl;
  action = refl;
  resource_id = refl;
  payload_snapshot = refl;
  requested_by = refl;
  expires_at = refl;
  approval = λ at e. absurd (cc ((k.undecided p).0, e));
  rejection = λ at e. (e, refl);
}
Transition-IsKept _ _ (reject_pending r now reviewer name comment p q) k = record {
  module_name = refl;
  action = refl;
  resource_id = refl;
  payload_snapshot = refl;
  requested_by = refl;
  expires_at = refl;
  approval = λ at e. (e, refl);
  rejection = λ at e. absurd (cc ((k.undecided p).1, e));
}
Transition-IsKept _ r' (expire_due r now p q) k = unreviewed r r'
Transition-IsKept _ r' (execute r now status task_type task_id none c) k = unreviewed r r'
Transition-IsKept _ r' (execute r now status task_type task_id (some x) c) k = unreviewed r r'
Transition-IsKept _ r' (settle r now status none p c) k = unreviewed r r'
Transition-IsKept _ r' (settle r now status (some x) p c) k = unreviewed r r'

-- Through any calls, one after another and none overlapping another, that do not set the status back
-- to pending, an orderly request stays in the
-- table with its module, action, resource, payload, requester and expiry. An approval or rejection,
-- once it is given, stays with its time and its reviewer.
pub run_calls-IsKept :
    (cs : List Call) (rs : List ApprovalRequest) (id : Text) (r : ApprovalRequest)
    → All (λ c. reopens c ≡ false) cs
    → find_request id rs ≡ some r
    → IsOrderly r
    → (r' : ApprovalRequest) × (find_request id (run_calls cs rs) ≡ some r') × IsKept r r'
unfolding run_calls
run_calls-IsKept [] rs id r h e k = (r, e, IsKept-refl r)
run_calls-IsKept (c ∷ cs) rs id r (h, hs) e k =
    let (s, next, t) = step-Transition c id rs r h e in
    let (u, last, l) =
      run_calls-IsKept cs (step c rs) id s hs next (Transition-IsOrderly r s t k) in
    (u, last, IsKept-trans r s u (Transition-IsKept r s t k) l)
