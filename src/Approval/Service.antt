-- ===== src/Approval/Service.antt =====
-- internal/services/approval/service.go and expiry.go: the operations on the table of requests. An
-- update by gorm also writes `updated_at`.
use oneinstack_panel.Common.{
  ℕ, ◌+◌, ◌*◌, Bool, true, false, not, ◌&&◌, ◌||◌, Option, none, some, List, [], ◌∷◌, ◌++◌, select,
  find?, ltb, leb, ◌==◌, if◌then◌else◌,
}
use oneinstack_panel.Text.{Text, codes, text_eq, trim_space}
use oneinstack_panel.Approval.{ApprovalRequest, CreateInput, ApprovalError}

abbrev pub pending : Text
pending = codes "pending"

abbrev pub approved : Text
approved = codes "approved"

abbrev pub rejected : Text
rejected = codes "rejected"

abbrev pub expired : Text
expired = codes "expired"

abbrev pub executing : Text
executing = codes "executing"

-- `Where("id = ?", id).First`
abbrev pub find_request : Text → List ApprovalRequest → Option ApprovalRequest
find_request id rs = find? (λ r. text_eq r.id id) rs

-- `Where(test).Updates(change)`
unfoldable pub update_where :
    (ApprovalRequest → Bool)
    → (ApprovalRequest → ApprovalRequest)
    → List ApprovalRequest
    → List ApprovalRequest
update_where test change [] = []
update_where test change (r ∷ rs) = (if test r then change r else r) ∷ update_where test change rs

unfoldable pub default_string : Text → Text → Text
default_string [] fallback = fallback
default_string (c ∷ s) fallback = c ∷ s

-- 24 hours, in nanoseconds
abbrev day : ℕ
day = 24 * 3600 * 1000000000

-- The row of `create`, with the new identifier and the time.
unfoldable pub request_of : Text → ℕ → CreateInput → ApprovalRequest
unfolding default_string
request_of id now input = record {
  id = id;
  module_name = trim_space input.module_name;
  action = trim_space input.action;
  resource_id = trim_space input.resource_id;
  resource_name = trim_space input.resource_name;
  risk_level = default_string (trim_space input.risk_level) (codes "high");
  status = pending;
  reason = trim_space input.reason;
  payload_snapshot = input.payload;
  result_payload = [];
  requested_by = input.requested_by;
  requested_by_name = trim_space input.requested_by_name;
  approved_by = 0;
  approved_by_name = [];
  approved_at = none;
  rejected_by = 0;
  rejected_by_name = [];
  rejected_at = none;
  review_comment = [];
  expires_at = if input.expires_at == 0 then now + day else input.expires_at;
  bound_task_type = [];
  bound_task_id = [];
  created_at = now;
  updated_at = now;
}

-- `create`: `none` is the error of a primary key that is taken.
unfoldable pub create :
    Text → ℕ → CreateInput → List ApprovalRequest → Option (List ApprovalRequest)
unfolding request_of
create id now input rs = elim (find_request id rs) [
  | some r ↦ none
  | none ↦ some (rs ++ request_of id now input ∷ [])
]

-- The query of `CreateOrReusePending`.
abbrev pub is_same_intent : ℕ → CreateInput → ApprovalRequest → Bool
is_same_intent now input r =
    text_eq r.module_name (trim_space input.module_name)
    && text_eq r.action (trim_space input.action)
    && text_eq r.resource_id (trim_space input.resource_id)
    && r.requested_by == input.requested_by
    && text_eq r.status pending
    && text_eq r.payload_snapshot input.payload
    && ltb now r.expires_at

-- The order of two texts by their bytes.
abbrev pub text_ltb : Text → Text → Bool
text_ltb s [] = false
text_ltb [] (d ∷ t) = true
text_ltb (c ∷ s) (d ∷ t) = ltb c d || (c == d && text_ltb s t)

-- `Order("created_at DESC")`, and the primary key, which `First` adds.
abbrev pub comes_first : ApprovalRequest → ApprovalRequest → Bool
comes_first r s =
    ltb s.created_at r.created_at || (s.created_at == r.created_at && text_ltb r.id s.id)

unfoldable pub first_of : List ApprovalRequest → Option ApprovalRequest
first_of [] = none
first_of (r ∷ rs) = elim (first_of rs) [
  | none ↦ some r
  | some s ↦ some (if comes_first r s then r else s)
]

pub data Submission : Type 0 where
  reused : ApprovalRequest → Submission
  created : ApprovalRequest → List ApprovalRequest → Submission
  failed : Submission

-- `CreateOrReusePending`, at the time of the query and that of the insertion.
unfoldable pub create_or_reuse_pending :
    Text → ℕ → ℕ → CreateInput → List ApprovalRequest → Submission
unfolding first_of create
create_or_reuse_pending id now at input rs =
    elim (first_of (select (is_same_intent now input) rs)) [
      | some r ↦ reused r
      | none ↦ elim (create id at input rs) [
        | none ↦ failed
        | some rs' ↦ created (request_of id at input) rs'
      ]
    ]

-- `Get`
unfoldable pub get : Text → List ApprovalRequest → Option ApprovalRequest
get id rs = find_request (trim_space id) rs

pub data Decision : Type 0 where
  refuse : ApprovalError → Decision
  expire : Decision
  proceed : Decision

-- The checks that `Approve` and `Reject` make on the row that they read.
unfoldable pub decide : ℕ → ℕ → ApprovalRequest → Decision
decide now reviewer r =
    if r.requested_by == reviewer
    then refuse ApprovalError.requester_cannot_review
    else if text_eq r.status expired
    then refuse ApprovalError.approval_expired
    else if not (text_eq r.status pending)
    then refuse ApprovalError.approval_not_pending
    else if not (r.expires_at == 0) && ltb r.expires_at now
    then expire
    else proceed

abbrev pub mark_expired : ℕ → ApprovalRequest → ApprovalRequest
mark_expired now r = record r { status = expired; updated_at = now }

abbrev pub mark_approved : ℕ → ℕ → Text → Text → ApprovalRequest → ApprovalRequest
mark_approved now reviewer name comment r = record r {
  status = approved;
  approved_by = reviewer;
  approved_by_name = trim_space name;
  approved_at = some now;
  review_comment = trim_space comment;
  updated_at = now;
}

abbrev pub mark_rejected : ℕ → ℕ → Text → Text → ApprovalRequest → ApprovalRequest
mark_rejected now reviewer name comment r = record r {
  status = rejected;
  rejected_by = reviewer;
  rejected_by_name = trim_space name;
  rejected_at = some now;
  review_comment = trim_space comment;
  updated_at = now;
}

-- What a review leaves: the table, and the error or the row that is read again.
pub record Reviewed : Type 0 where
  pub rows : List ApprovalRequest
  pub error : Option ApprovalError
  pub request : Option ApprovalRequest

-- The row that a review has read, with what the checks say of it.
pub data Reading : Type 0 where
  no_request : Reading
  checked : ApprovalRequest → Decision → Reading

-- `Approve` and `Reject` up to their write: the row is read and checked. No transaction holds it
-- until the write.
unfoldable pub read_review : ℕ → ℕ → Text → List ApprovalRequest → Reading
unfolding get decide
read_review now reviewer id rs = elim (get id rs) [
  | none ↦ no_request
  | some r ↦ checked r (decide now reviewer r)
]

-- The rest of `Approve` and `Reject`: the row is written by its id, whatever has become of it.
unfoldable pub write_review :
    ℕ → (ApprovalRequest → ApprovalRequest) → Reading → List ApprovalRequest → Reviewed
unfolding get update_where
write_review now mark no_request rs = record {
  rows = rs;
  error = some ApprovalError.not_found;
  request = none;
}
write_review now mark (checked r (refuse e)) rs = record {
  rows = rs;
  error = some e;
  request = none;
}
write_review now mark (checked r expire) rs = record {
  rows = update_where (λ s. text_eq s.id r.id) (mark_expired now) rs;
  error = some ApprovalError.approval_expired;
  request = none;
}
write_review now mark (checked r proceed) rs =
    let rs' = update_where (λ s. text_eq s.id r.id) mark rs in
    record { rows = rs'; error = none; request = get r.id rs' }

-- A review with no other call between its halves.
unfoldable pub review :
    ℕ → ℕ → Text → (ApprovalRequest → ApprovalRequest) → List ApprovalRequest → Reviewed
unfolding read_review write_review
review now reviewer id mark rs = write_review now mark (read_review now reviewer id rs) rs

unfoldable pub approve : ℕ → Text → ℕ → Text → Text → List ApprovalRequest → Reviewed
unfolding review
approve now id reviewer name comment rs =
    review now reviewer id (mark_approved now reviewer name comment) rs

unfoldable pub reject : ℕ → Text → ℕ → Text → Text → List ApprovalRequest → Reviewed
unfolding review
reject now id reviewer name comment rs =
    review now reviewer id (mark_rejected now reviewer name comment) rs

-- The result that a task leaves, where it leaves one.
abbrev with_result : Option Text → ApprovalRequest → ApprovalRequest
with_result none r = r
with_result (some encoded) r = record r { result_payload = encoded }

abbrev pub mark_execution : ℕ → Text → Text → Text → Option Text → ApprovalRequest → ApprovalRequest
mark_execution now status task_type task_id result r = with_result result (record r {
  status = trim_space status;
  bound_task_type = trim_space task_type;
  bound_task_id = trim_space task_id;
  updated_at = now;
})

unfoldable pub update_execution_result :
    ℕ → Text → Text → Text → Text → Option Text → List ApprovalRequest → List ApprovalRequest
unfolding update_where
update_execution_result now id status task_type task_id result rs =
    update_where (λ r. text_eq r.id (trim_space id))
      (mark_execution now status task_type task_id result) rs

abbrev pub mark_bound : ℕ → Text → Option Text → ApprovalRequest → ApprovalRequest
mark_bound now status result r =
    with_result result (record r { status = trim_space status; updated_at = now })

unfoldable pub update_bound_task_result :
    ℕ → Text → Text → Text → Option Text → List ApprovalRequest → List ApprovalRequest
unfolding update_where
update_bound_task_result now task_type task_id status result rs =
    update_where
      (λ r.
        text_eq r.bound_task_type (trim_space task_type)
        && text_eq r.bound_task_id (trim_space task_id)
        && text_eq r.status executing)
      (mark_bound now status result) rs

-- `ExpirePending`
unfoldable pub expire_pending : ℕ → List ApprovalRequest → List ApprovalRequest
unfolding update_where
expire_pending now rs =
    update_where (λ r. text_eq r.status pending && leb r.expires_at now) (mark_expired now) rs

-- `EffectiveStatus`
unfoldable pub effective_status : ℕ → ApprovalRequest → Text
effective_status now r =
    if text_eq r.status pending && not (r.expires_at == 0) && leb r.expires_at now
    then expired
    else r.status

-- The condition of `List` on the status.
unfoldable pub matches_status : ℕ → Text → ApprovalRequest → Bool
matches_status now value r =
    if text_eq value pending
    then text_eq r.status value && ltb now r.expires_at
    else if text_eq value expired
    then text_eq r.status value || (text_eq r.status pending && leb r.expires_at now)
    else text_eq r.status value
