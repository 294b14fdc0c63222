-- ===== src/Approval/Steps.antt =====
-- Each call changes a request by one transition.
use mathlib.Core.Path.{subst}
use oneinstack_panel.Common.{
  ℕ, ◌≤◌, ◌≡◌, ◌≢◌, ◌⊎◌, select, refl, sym, ap, ◌∙◌, Bool, true, false, some, List, arith,
  Bool-cases, Option-cases, inl, inr, if◌then◌else◌,
}
use oneinstack_panel.Text.{Text, text_eq, trim_space}
use oneinstack_panel.Text.Laws.{text_eq_iff}
use oneinstack_panel.Approval.{ApprovalRequest, CreateInput, ApprovalError}
use oneinstack_panel.Approval.Service.{
  pending, executing, mark_expired, mark_approved, mark_rejected, mark_execution, mark_bound,
  create_or_reuse_pending, create, request_of, first_of, is_same_intent, approve, reject, review,
  read_review, write_review, decide, Decision, refuse, expire, proceed, get, find_request,
  update_where, update_execution_result, update_bound_task_result, expire_pending,
}
use oneinstack_panel.Approval.Rows.{find_request-id, find_request-update_where, find_request-append}
use oneinstack_panel.Approval.Transitions.{
  Transition, stay, approve_pending, reject_pending, expire_due, execute, settle, Call, submit_call,
  approve_call, reject_call, execution_call, bound_call, expire_call, step, reopens,
}

pub decide-proceed :
    (now reviewer : ℕ) (r : ApprovalRequest)
    → decide now reviewer r ≡ proceed
    → (r.status ≡ pending) × (reviewer ≢ r.requested_by)
unfolding decide
decide-proceed now reviewer r e = ground (arith, text_eq_iff r.status pending)

pub decide-expire :
    (now reviewer : ℕ) (r : ApprovalRequest)
    → decide now reviewer r ≡ expire
    → (r.status ≡ pending) × (r.expires_at ≤ now)
unfolding decide
decide-expire now reviewer r e = ground (arith, text_eq_iff r.status pending)

find_request_same :
    (j k : Text) (rs : List ApprovalRequest) (s r : ApprovalRequest)
    → find_request j rs ≡ some s
    → find_request k rs ≡ some r
    → text_eq r.id s.id ≡ true
    → s ≡ r
find_request_same j k rs s r a b e =
    let here = (text_eq_iff s.id j).0 (find_request-id j rs s a) in
    let there = (text_eq_iff r.id k).0 (find_request-id k rs r b) in
    let same = (text_eq_iff r.id s.id).0 e in
    let found : find_request k rs ≡ some s =
      subst (λ i. find_request i rs ≡ some s) (sym here ∙ sym same ∙ there) a in
    ground (arith)

pub Decision-cases :
    (d : Decision) → ((e : ApprovalError) × (d ≡ refuse e)) ⊎ ((d ≡ expire) ⊎ (d ≡ proceed))
Decision-cases (refuse e) = inl (e, refl)
Decision-cases expire = inr (inl refl)
Decision-cases proceed = inr (inr refl)

abbrev pub Next : Text → ApprovalRequest → List ApprovalRequest → Type 0
Next id r rs = (r' : ApprovalRequest) × (find_request id rs ≡ some r') × Transition r r'

update_where-Next :
    (test : ApprovalRequest → Bool) (change : ApprovalRequest → ApprovalRequest)
    (same : (s : ApprovalRequest) → (change s).id ≡ s.id) (id : Text) (rs : List ApprovalRequest)
    (r : ApprovalRequest)
    → find_request id rs ≡ some r
    → (test r ≡ true → Transition r (change r))
    → Next id r (update_where test change rs)
update_where-Next test change same id rs r e t =
    let after = find_request-update_where test change same id rs r e in
    elim (Bool-cases (test r)) [
      | inl tested ↦ (change r, after ∙ ap (λ b. some (if b then change r else r)) tested, t tested)
      | inr other ↦ (r, after ∙ ap (λ b. some (if b then change r else r)) other, stay r)
    ]

review-Next :
    (now reviewer : ℕ) (id : Text) (mark : ApprovalRequest → ApprovalRequest)
    (same : (s : ApprovalRequest) → (mark s).id ≡ s.id) (k : Text) (rs : List ApprovalRequest)
    (r : ApprovalRequest)
    → ((s : ApprovalRequest)
        → s.status ≡ pending
        → reviewer ≢ s.requested_by
        → Transition s (mark s))
    → find_request k rs ≡ some r
    → Next k r (review now reviewer id mark rs).rows
unfolding review read_review write_review get
review-Next now reviewer id mark same k rs r t e =
    elim (Option-cases (find_request (trim_space id) rs)) [
      | inl missing ↦ rw (missing, review, read_review, write_review) (r, e, stay r)
      | inr (s, found) ↦
          let back = find_request_same (trim_space id) k rs s r found e in
          elim (Decision-cases (decide now reviewer s)) [
            | inl (error, h) ↦ rw (found, h, review, read_review, write_review) (r, e, stay r)
            | inr (inl h) ↦
                rw (found, h, review, read_review, write_review)
                  (update_where-Next (λ x. text_eq x.id s.id) (mark_expired now) (λ x. refl) k rs r
                    e
                    (λ y.
                      subst (λ x. Transition x (mark_expired now x)) (back y)
                        (expire_due s now (decide-expire now reviewer s h).0
                          (decide-expire now reviewer s h).1)))
            | inr (inr h) ↦
                rw (found, h, review, read_review, write_review)
                  (update_where-Next (λ x. text_eq x.id s.id) mark same k rs r e
                    (λ y.
                      subst (λ x. Transition x (mark x)) (back y)
                        (t s (decide-proceed now reviewer s h).0
                          (decide-proceed now reviewer s h).1)))
          ]
    ]

submit-Next :
    (id : Text) (now at : ℕ) (input : CreateInput) (k : Text) (rs : List ApprovalRequest)
    (r : ApprovalRequest)
    → find_request k rs ≡ some r
    → Next k r (step (submit_call id now at input) rs)
unfolding step create_or_reuse_pending create
submit-Next id now at input k rs r e =
    elim (Option-cases (first_of (select (is_same_intent now input) rs))) [
      | inr (s, same) ↦ rw (same, step, create_or_reuse_pending) (r, e, stay r)
      | inl fresh ↦ elim (Option-cases (find_request id rs)) [
        | inr (s, taken) ↦ rw (fresh, taken, step, create_or_reuse_pending, create) (r, e, stay r)
        | inl free ↦
            rw (fresh, free, step, create_or_reuse_pending, create)
              (r, find_request-append k rs (request_of id at input) r e, stay r)
      ]
    ]

closes : (status : Text) → text_eq (trim_space status) pending ≡ false → trim_space status ≢ pending
closes status h = λ e. ground (arith, text_eq_iff (trim_space status) pending)

-- Through a call that does not set the status back to pending, a request stays in the table under
-- its identifier, and what the call makes of it is one of the transitions: an approval or a rejection
-- of a pending request by another user, the expiry of a pending request that is due, a new execution
-- status, a result of an executing task, or nothing.
pub step-Transition :
    (c : Call) (id : Text) (rs : List ApprovalRequest) (r : ApprovalRequest)
    → reopens c ≡ false
    → find_request id rs ≡ some r
    → (r' : ApprovalRequest) × (find_request id (step c rs) ≡ some r') × Transition r r'
unfolding step approve reject update_execution_result update_bound_task_result expire_pending
step-Transition (submit_call new now at input) id rs r h e = submit-Next new now at input id rs r e
step-Transition (approve_call now k reviewer name comment) id rs r h e =
    review-Next now reviewer k (mark_approved now reviewer name comment) (λ s. refl) id rs r
      (λ s p q. approve_pending s now reviewer name comment p q) e
step-Transition (reject_call now k reviewer name comment) id rs r h e =
    review-Next now reviewer k (mark_rejected now reviewer name comment) (λ s. refl) id rs r
      (λ s p q. reject_pending s now reviewer name comment p q) e
step-Transition (execution_call now k status task_type task_id result) id rs r h e =
    update_where-Next _ (mark_execution now status task_type task_id result) (λ s. ground arith) id
      rs r e (λ m. execute r now status task_type task_id result (closes status h))
step-Transition (bound_call now task_type task_id status result) id rs r h e =
    update_where-Next _ (mark_bound now status result) (λ s. ground arith) id rs r e
      (λ m.
        settle r now status result (ground (arith, text_eq_iff r.status executing))
          (closes status h))
step-Transition (expire_call now) id rs r h e =
    update_where-Next _ (mark_expired now) (λ s. refl) id rs r e
      (λ m. expire_due r now (ground (arith, text_eq_iff r.status pending)) (ground arith))
