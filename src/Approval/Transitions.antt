-- ===== src/Approval/Transitions.antt =====
-- The life of one approval request, as the services may change it, and the calls that change it.
use oneinstack_panel.Common.{ℕ, ◌≤◌, ◌≡◌, ◌≢◌, Bool, false, Option, List, [], ◌∷◌}
use oneinstack_panel.Text.{Text, text_eq, trim_space}
use oneinstack_panel.Approval.{ApprovalRequest, CreateInput}
use oneinstack_panel.Approval.Service.{
  pending, executing, mark_expired, mark_approved, mark_rejected, mark_execution, mark_bound,
  create_or_reuse_pending, Submission, reused, created, failed, approve, reject,
  update_execution_result, update_bound_task_result, expire_pending,
}

-- What may become of a request in one call.
pub data Transition : ApprovalRequest → ApprovalRequest → Type 0 where
  stay : (r : ApprovalRequest) → Transition r r
  approve_pending :
      (r : ApprovalRequest) (now reviewer : ℕ) (name comment : Text)
      → r.status ≡ pending
      → reviewer ≢ r.requested_by
      → Transition r (mark_approved now reviewer name comment r)
  reject_pending :
      (r : ApprovalRequest) (now reviewer : ℕ) (name comment : Text)
      → r.status ≡ pending
      → reviewer ≢ r.requested_by
      → Transition r (mark_rejected now reviewer name comment r)
  expire_due :
      (r : ApprovalRequest) (now : ℕ)
      → r.status ≡ pending
      → r.expires_at ≤ now
      → Transition r (mark_expired now r)
  execute :
      (r : ApprovalRequest) (now : ℕ) (status task_type task_id : Text) (result : Option Text)
      → trim_space status ≢ pending
      → Transition r (mark_execution now status task_type task_id result r)
  settle :
      (r : ApprovalRequest) (now : ℕ) (status : Text) (result : Option Text)
      → r.status ≡ executing
      → trim_space status ≢ pending
      → Transition r (mark_bound now status result r)

-- The calls of the service, with their times and arguments.
pub data Call : Type 0 where
  submit_call : Text → ℕ → ℕ → CreateInput → Call
  approve_call : ℕ → Text → ℕ → Text → Text → Call
  reject_call : ℕ → Text → ℕ → Text → Text → Call
  execution_call : ℕ → Text → Text → Text → Text → Option Text → Call
  bound_call : ℕ → Text → Text → Text → Option Text → Call
  expire_call : ℕ → Call

-- A call that would set the status back to pending.
abbrev pub reopens : Call → Bool
reopens (execution_call now id status task_type task_id result) =
    text_eq (trim_space status) pending
reopens (bound_call now task_type task_id status result) = text_eq (trim_space status) pending
reopens _ = false

abbrev rows_after : List ApprovalRequest → Submission → List ApprovalRequest
rows_after rs (reused r) = rs
rows_after rs (created r rs') = rs'
rows_after rs failed = rs

-- The table after a call.
unfoldable pub step : Call → List ApprovalRequest → List ApprovalRequest
unfolding create_or_reuse_pending
step (submit_call id now at input) rs = rows_after rs (create_or_reuse_pending id now at input rs)
step (approve_call now id reviewer name comment) rs = (approve now id reviewer name comment rs).rows
step (reject_call now id reviewer name comment) rs = (reject now id reviewer name comment rs).rows
step (execution_call now id status task_type task_id result) rs =
    update_execution_result now id status task_type task_id result rs
step (bound_call now task_type task_id status result) rs =
    update_bound_task_result now task_type task_id status result rs
step (expire_call now) rs = expire_pending now rs

unfoldable pub run_calls : List Call → List ApprovalRequest → List ApprovalRequest
run_calls [] rs = rs
run_calls (c ∷ cs) rs = run_calls cs (step c rs)
