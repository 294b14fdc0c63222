-- ===== src/Approval/Orderly.antt =====
-- What holds of every request: who reviewed it, and that it is reviewed once.
use mathlib.Core.Path.{subst}
use oneinstack_panel.Common.{
  ℕ, ◌≡◌, ◌≢◌, ◌⊎◌, refl, sym, Bool, false, none, some, List, [], ◌∷◌, arith, All, Option-cases,
  inl, inr, select,
}
use oneinstack_panel.Text.{Text, text_eq, trim_space}
use oneinstack_panel.Approval.{ApprovalRequest, CreateInput}
use oneinstack_panel.Approval.Service.{
  pending, find_request, update_where, request_of, mark_expired, mark_approved, mark_rejected,
  mark_execution, mark_bound, review, read_review, write_review, get, decide, first_of,
  is_same_intent, create, create_or_reuse_pending, approve, reject, update_execution_result,
  update_bound_task_result, expire_pending,
}
use oneinstack_panel.Approval.Rows.{find_request-append_none, find_request-update_where-none}
use oneinstack_panel.Approval.Transitions.{
  Transition, stay, approve_pending, reject_pending, expire_due, execute, settle, Call, submit_call,
  approve_call, reject_call, execution_call, bound_call, expire_call, step, run_calls, reopens,
}
use oneinstack_panel.Approval.Steps.{Decision-cases, step-Transition}

pub record IsOrderly (r : ApprovalRequest) : Type 0 where
  pub approver : r.approved_at ≢ none → r.approved_by ≢ r.requested_by
  pub rejecter : r.rejected_at ≢ none → r.rejected_by ≢ r.requested_by
  pub undecided : r.status ≡ pending → (r.approved_at ≡ none) × (r.rejected_at ≡ none)
  pub single : (r.approved_at ≡ none) ⊎ (r.rejected_at ≡ none)

pub request_of-IsOrderly :
    (id : Text) (now : ℕ) (input : CreateInput) → IsOrderly (request_of id now input)
unfolding request_of
request_of-IsOrderly id now input = record {
  approver = λ h. absurd (h refl);
  rejecter = λ h. absurd (h refl);
  undecided = λ h. (refl, refl);
  single = inl refl;
}

-- A transition keeps it.
pub Transition-IsOrderly : (r r' : ApprovalRequest) → Transition r r' → IsOrderly r → IsOrderly r'
Transition-IsOrderly _ _ (stay r) k = k
Transition-IsOrderly _ _ (approve_pending r now reviewer name comment p q) k = record {
  approver = λ h. q;
  rejecter = k.rejecter;
  undecided = λ h. ground arith;
  single = inr (k.undecided p).1;
}
Transition-IsOrderly _ _ (reject_pending r now reviewer name comment p q) k = record {
  approver = k.approver;
  rejecter = λ h. q;
  undecided = λ h. ground arith;
  single = inl (k.undecided p).0;
}
Transition-IsOrderly _ _ (expire_due r now p q) k = record {
  approver = k.approver;
  rejecter = k.rejecter;
  undecided = λ h. ground arith;
  single = k.single;
}
Transition-IsOrderly _ _ (execute r now status task_type task_id none c) k = record {
  approver = k.approver;
  rejecter = k.rejecter;
  undecided = λ h. absurd (c h);
  single = k.single;
}
Transition-IsOrderly _ _ (execute r now status task_type task_id (some result) c) k = record {
  approver = k.approver;
  rejecter = k.rejecter;
  undecided = λ h. absurd (c h);
  single = k.single;
}
Transition-IsOrderly _ _ (settle r now status none p c) k = record {
  approver = k.approver;
  rejecter = k.rejecter;
  undecided = λ h. absurd (c h);
  single = k.single;
}
Transition-IsOrderly _ _ (settle r now status (some result) p c) k = record {
  approver = k.approver;
  rejecter = k.rejecter;
  undecided = λ h. absurd (c h);
  single = k.single;
}

-- A row that a call adds.
module _ (k : Text) (rs : List ApprovalRequest) (r : ApprovalRequest)
    (n : find_request k rs ≡ none) where
  absent : find_request k rs ≡ some r → IsOrderly r
  absent e = absurd (cc (n, e))

  absent-update_where :
      (test : ApprovalRequest → Bool) (change : ApprovalRequest → ApprovalRequest)
      (same : (s : ApprovalRequest) → (change s).id ≡ s.id)
      → find_request k (update_where test change rs) ≡ some r
      → IsOrderly r
  absent-update_where test change same e =
      let gone = find_request-update_where-none test change same k rs n in absurd (cc (gone, e))

  absent-review :
      (now reviewer : ℕ) (id : Text) (mark : ApprovalRequest → ApprovalRequest)
      → ((s : ApprovalRequest) → (mark s).id ≡ s.id)
      → find_request k (review now reviewer id mark rs).rows ≡ some r
      → IsOrderly r
  unfolding review read_review write_review get
  absent-review now reviewer id mark same = elim (Option-cases (find_request (trim_space id) rs)) [
    | inl missing ↦ rw (missing, review, read_review, write_review) absent
    | inr (s, found) ↦ elim (Decision-cases (decide now reviewer s)) [
      | inl (error, h) ↦ rw (found, h, review, read_review, write_review) absent
      | inr (inl h) ↦
          rw (found, h, review, read_review, write_review)
            (absent-update_where (λ x. text_eq x.id s.id) (mark_expired now) (λ x. refl))
      | inr (inr h) ↦
          rw (found, h, review, read_review, write_review)
            (absent-update_where (λ x. text_eq x.id s.id) mark same)
    ]
  ]

  absent-submit :
      (id : Text) (now at : ℕ) (input : CreateInput)
      → find_request k (step (submit_call id now at input) rs) ≡ some r
      → IsOrderly r
  unfolding step create_or_reuse_pending create
  absent-submit id now at input =
      elim (Option-cases (first_of (select (is_same_intent now input) rs))) [
        | inr (s, same) ↦ rw (same, step, create_or_reuse_pending) absent
        | inl fresh ↦ elim (Option-cases (find_request id rs)) [
          | inr (s, taken) ↦ rw (fresh, taken, step, create_or_reuse_pending, create) absent
          | inl free ↦
              rw (fresh, free, step, create_or_reuse_pending, create)
                (λ e.
                  subst IsOrderly
                    (sym (find_request-append_none k rs (request_of id at input) r n e))
                    (request_of-IsOrderly id at input))
        ]
      ]

  pub absent-step : (c : Call) → find_request k (step c rs) ≡ some r → IsOrderly r
  unfolding step approve reject update_execution_result update_bound_task_result expire_pending
  absent-step (submit_call id now at input) e = absent-submit id now at input e
  absent-step (approve_call now id reviewer name comment) e =
      absent-review now reviewer id (mark_approved now reviewer name comment) (λ s. refl) e
  absent-step (reject_call now id reviewer name comment) e =
      absent-review now reviewer id (mark_rejected now reviewer name comment) (λ s. refl) e
  absent-step (execution_call now id status task_type task_id result) e =
      absent-update_where _ (mark_execution now status task_type task_id result) (λ s. ground arith)
        e
  absent-step (bound_call now task_type task_id status result) e =
      absent-update_where _ (mark_bound now status result) (λ s. ground arith) e
  absent-step (expire_call now) e = absent-update_where _ (mark_expired now) (λ s. refl) e

-- What holds of every request that the table finds.
abbrev pub AllOrderly : List ApprovalRequest → Type 0
AllOrderly rs = (id : Text) (r : ApprovalRequest) → find_request id rs ≡ some r → IsOrderly r

step-AllOrderly :
    (c : Call) (rs : List ApprovalRequest)
    → reopens c ≡ false
    → AllOrderly rs
    → AllOrderly (step c rs)
step-AllOrderly c rs h k id r e = elim (Option-cases (find_request id rs)) [
  | inl missing ↦ absent-step id rs r missing c e
  | inr (s, found) ↦
      let (s', next, t) = step-Transition c id rs s h found in
      let is : s' ≡ r = ground (arith, next, e) in
      subst IsOrderly is (Transition-IsOrderly s s' t (k id s found))
]

-- After any calls, one after another and none overlapping another, that do not set the status back to
-- pending, if the requests were orderly before:
-- no request is approved or rejected by its requester, none has both an approval and a rejection,
-- and a pending request has neither.
pub run_calls-AllOrderly :
    (cs : List Call) (rs : List ApprovalRequest)
    → All (λ c. reopens c ≡ false) cs
    → AllOrderly rs
    → AllOrderly (run_calls cs rs)
unfolding run_calls
run_calls-AllOrderly [] rs h k = k
run_calls-AllOrderly (c ∷ cs) rs (h, hs) k =
    run_calls-AllOrderly cs (step c rs) hs (step-AllOrderly c rs h k)
