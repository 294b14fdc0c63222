-- ===== src/Approval/Examples.antt =====
-- The life of one request of internal/services/approval.
use oneinstack_panel.Common.{ℕ, ◌≡◌, refl, arith, Option, none, some, List, [], ◌∷◌, All, map}
use oneinstack_panel.Text.{Text, codes, text_eq, trim_space}
use oneinstack_panel.Approval.{ApprovalRequest, CreateInput}
use oneinstack_panel.Approval.Service.{
  find_request, request_of, create_or_reuse_pending, reused, effective_status, expire_pending,
  matches_status, update_execution_result, reject, approve,
}
use oneinstack_panel.Approval.Transitions.{
  Call, Transition, submit_call, approve_call, reject_call, execution_call, expire_call, step,
  run_calls,
}
use oneinstack_panel.Approval.Steps.{step-Transition}
use oneinstack_panel.Approval.Orderly.{AllOrderly, request_of-IsOrderly, run_calls-AllOrderly}
use oneinstack_panel.Approval.Kept.{IsKept, run_calls-IsKept}
use oneinstack_panel.Approval.Expiry.{
  matches_status-effective_status, expire_pending-effective_status,
}
use oneinstack_panel.Approval.Overlap.{
  Verdict, approving, rejecting, Review, Move, whole, read_half, write_half, move, run_moves,
}
use oneinstack_panel.Approval.Overlap.Separate.{AllSeparate}
use oneinstack_panel.Approval.Overlap.Run.{run_moves-AllSeparate}
use oneinstack_panel.Approval.Reuse.{IsPendingIntent, create_or_reuse_pending-again}

abbrev restore : CreateInput
restore = record {
  module_name = codes "database";
  action = codes " database.restore ";
  resource_id = codes "12";
  resource_name = codes "shop";
  risk_level = [];
  reason = codes "bad import";
  payload = codes "{}";
  requested_by = 4;
  requested_by_name = codes "ann";
  expires_at = 900;
}

abbrev waiting : ApprovalRequest
waiting = request_of (codes "apr_1") 100 restore

abbrev review_of : Verdict → ℕ → Review
review_of verdict reviewer = record {
  verdict = verdict;
  reviewer = reviewer;
  id = codes "apr_1";
  reviewer_name = [];
  comment = [];
}

abbrev one_request : List ApprovalRequest
one_request = waiting ∷ []

-- The requester tries to approve, another user does, a third one rejects, and the task runs.
abbrev calls : List Call
calls =
    approve_call 200 (codes "apr_1") 4 (codes "ann") []
    ∷ approve_call 201 (codes " apr_1") 5 (codes "bob") (codes "fine")
    ∷ reject_call 202 (codes "apr_1") 6 (codes "eve") []
    ∷ execution_call 203 (codes "apr_1") (codes "executing") (codes "database_task") (codes "t")
        none
    ∷ expire_call 2000
    ∷ []

abbrev seen : Option ApprovalRequest → Option (Text × Option ℕ × ℕ)
seen none = none
seen (some r) = some (r.status, r.approved_at, r.approved_by)

calls_outcome :
    seen (find_request (codes "apr_1") (run_calls calls one_request))
    ≡ some (codes "executing", some 201, 5)
unfolding run_calls step expire_pending update_execution_result reject approve trim_space
calls_outcome = refl

abbrev submitted : List Call
submitted = submit_call (codes "apr_1") 99 100 restore ∷ calls

no_request-AllOrderly : AllOrderly []
no_request-AllOrderly id r e = absurd (cc e)

run_calls-AllOrderly_example : AllOrderly (run_calls submitted [])
unfolding trim_space
run_calls-AllOrderly_example =
    run_calls-AllOrderly submitted [] (refl, (refl, (refl, (refl, (refl, (refl, tt))))))
      no_request-AllOrderly

run_calls-IsKept_example :
    (r : ApprovalRequest) × (find_request (codes "apr_1") (run_calls calls one_request) ≡ some r)
    × IsKept waiting r
unfolding trim_space request_of
run_calls-IsKept_example =
    run_calls-IsKept calls one_request (codes "apr_1") waiting
      (refl, (refl, (refl, (refl, (refl, tt))))) refl
      (request_of-IsOrderly (codes "apr_1") 100 restore)

-- Bob's approval and Eve's rejection, each begun before the other is written, and Ann's attempt.
abbrev overlapping : List Move
overlapping =
    whole (submit_call (codes "apr_1") 99 100 restore)
    ∷ read_half 200 (review_of approving 5)
    ∷ read_half 201 (review_of rejecting 6)
    ∷ read_half 202 (review_of approving 4)
    ∷ write_half 203 2
    ∷ write_half 204 1
    ∷ write_half 205 0
    ∷ []

abbrev reviewed : Option ApprovalRequest → Option (Text × Option ℕ × Option ℕ)
reviewed none = none
reviewed (some r) = some (r.status, r.approved_at, r.rejected_at)

-- Both reviews are recorded.
overlapping_outcome :
    reviewed
      (find_request (codes "apr_1") (run_moves overlapping (record { rows = []; begun = [] })).rows)
    ≡ some (codes "rejected", some 203, some 204)
unfolding run_moves move step trim_space create_or_reuse_pending
overlapping_outcome = refl

run_moves-AllSeparate_example :
    AllSeparate (run_moves overlapping (record { rows = []; begun = [] })).rows
unfolding trim_space
run_moves-AllSeparate_example =
    run_moves-AllSeparate overlapping [] (refl, (refl, (refl, (refl, (refl, (refl, (refl, tt)))))))
      (λ id r e. absurd (cc e))

step-Transition_example :
    (r : ApprovalRequest) × (find_request
        (codes "apr_1")
        (step (approve_call 201 (codes "apr_1") 5 [] []) one_request)
      ≡ some r)
    × Transition waiting r
unfolding request_of
step-Transition_example =
    step-Transition (approve_call 201 (codes "apr_1") 5 [] []) (codes "apr_1") one_request waiting
      refl refl

matches_status-effective_status_example :
    matches_status 950 (codes "expired") waiting
    ≡ text_eq (effective_status 950 waiting) (codes "expired")
unfolding request_of
matches_status-effective_status_example =
    matches_status-effective_status 950 (codes "expired") waiting (λ e. omega arith)

expire_pending-effective_status_example :
    (map (effective_status 950) (expire_pending 950 one_request)
      ≡ map (effective_status 950) one_request)
    × All (λ r. effective_status 950 r ≡ r.status) (expire_pending 950 one_request)
unfolding request_of
expire_pending-effective_status_example =
    expire_pending-effective_status 950 one_request ((λ e. omega arith), tt)

-- Another user's request comes in between.
abbrev two_requests : List ApprovalRequest
two_requests = request_of (codes "apr_9") 200 (record restore { requested_by = 7 }) ∷ one_request

create_or_reuse_pending-again_example :
    (find_request (codes "apr_1") one_request ≡ some waiting)
    × ((s : ApprovalRequest) × (create_or_reuse_pending (codes "apr_2") 300 301 restore two_requests
          ≡ reused s)
        × IsPendingIntent 300 restore s)
unfolding request_of create_or_reuse_pending
create_or_reuse_pending-again_example =
    create_or_reuse_pending-again (codes "apr_1") 99 100 restore [] one_request waiting two_requests
      (codes "apr_2") 300 301 refl refl (omega arith)
