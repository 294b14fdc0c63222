-- ===== src/Approval/Reuse.antt =====
-- A request that is submitted again while it is pending is reused.
use mathlib.Core.Path.{subst}
use oneinstack_panel.Common.{
  ℕ, ◌<◌, ◌≡◌, ◌≢◌, refl, sym, Bool, true, none, some, List, [], ◌∷◌, ◌++◌, arith, ==_refl, select,
  Bool-cases, Option-cases, inl, inr,
}
use oneinstack_panel.Text.{Text, trim_space}
use oneinstack_panel.Text.Laws.{text_eq_iff, text_eq_refl}
use oneinstack_panel.Approval.{ApprovalRequest, CreateInput}
use oneinstack_panel.Approval.Rows.{find_request-append_new}
use oneinstack_panel.Approval.Service.{
  pending, find_request, is_same_intent, first_of, request_of, create, create_or_reuse_pending,
  reused, created,
}

-- The row that comes first passes the test.
first_of-select :
    (test : ApprovalRequest → Bool) (rs : List ApprovalRequest) (r : ApprovalRequest)
    → first_of (select test rs) ≡ some r
    → test r ≡ true
unfolding first_of
first_of-select test [] r e = cc
first_of-select test (s ∷ rs) r e = elim (Bool-cases (test s)) [
  | inr other ↦ ground (arith, first_of-select test rs r)
  | inl passes ↦ elim (Option-cases (first_of (select test rs))) [
    | inl empty ↦ ground arith
    | inr (t, found) ↦ ground (arith, first_of-select test rs t)
  ]
]

-- Some row comes first where a row that is found passes the test.
first_of-select_found :
    (test : ApprovalRequest → Bool) (id : Text) (rs : List ApprovalRequest) (r : ApprovalRequest)
    → find_request id rs ≡ some r
    → test r ≡ true
    → first_of (select test rs) ≢ none
unfolding first_of
first_of-select_found test id [] r e h = λ n. cc e
first_of-select_found test id (s ∷ rs) r e h =
    λ n. ground (arith, first_of-select_found test id rs r)

pub record IsPendingIntent (now : ℕ) (input : CreateInput) (r : ApprovalRequest) : Type 0 where
  pub module_name : r.module_name ≡ trim_space input.module_name
  pub action : r.action ≡ trim_space input.action
  pub resource_id : r.resource_id ≡ trim_space input.resource_id
  pub requested_by : r.requested_by ≡ input.requested_by
  pub payload : r.payload_snapshot ≡ input.payload
  pub waits : r.status ≡ pending
  pub unexpired : now < r.expires_at

is_same_intent-IsPendingIntent :
    (now : ℕ) (input : CreateInput) (r : ApprovalRequest)
    → is_same_intent now input r ≡ true
    → IsPendingIntent now input r
is_same_intent-IsPendingIntent now input r h = record {
  module_name = ground (arith, text_eq_iff r.module_name (trim_space input.module_name));
  action = ground (arith, text_eq_iff r.action (trim_space input.action));
  resource_id = ground (arith, text_eq_iff r.resource_id (trim_space input.resource_id));
  requested_by = ground arith;
  payload = ground (arith, text_eq_iff r.payload_snapshot input.payload);
  waits = ground (arith, text_eq_iff r.status pending);
  unexpired = ground arith;
}

-- What `CreateOrReusePending` reuses is a pending, unexpired request of the same requester for the
-- same module, action, resource and payload.
pub create_or_reuse_pending-reused :
    (id : Text) (now at : ℕ) (input : CreateInput) (rs : List ApprovalRequest) (r : ApprovalRequest)
    → create_or_reuse_pending id now at input rs ≡ reused r
    → IsPendingIntent now input r
unfolding create_or_reuse_pending create
create_or_reuse_pending-reused id now at input rs r e =
    elim (Option-cases (first_of (select (is_same_intent now input) rs))) [
      | inl fresh ↦ elim (Option-cases (find_request id rs)) [
        | inl free ↦ absurd (ground arith)
        | inr (s, taken) ↦ absurd (ground arith)
      ]
      | inr (s, found) ↦
          let is : s ≡ r = ground arith in
          is_same_intent-IsPendingIntent now input r (
            subst (λ x. is_same_intent now input x ≡ true) is
              (first_of-select (is_same_intent now input) rs s found))
    ]

request_of-is_same_intent :
    (id : Text) (now at : ℕ) (input : CreateInput)
    → now < (request_of id at input).expires_at
    → is_same_intent now input (request_of id at input) ≡ true
unfolding request_of
request_of-is_same_intent id now at input h =
    rw
      (
        text_eq_refl (trim_space input.module_name),
        text_eq_refl (trim_space input.action),
        text_eq_refl (trim_space input.resource_id),
        text_eq_refl input.payload,
        ==_refl input.requested_by,
      )
      (ground arith)

-- The row that `CreateOrReusePending` creates.
created-request_of :
    (id : Text) (now at : ℕ) (input : CreateInput) (rs rs' : List ApprovalRequest)
    (r : ApprovalRequest)
    → create_or_reuse_pending id now at input rs ≡ created r rs'
    → request_of id at input ≡ r
unfolding create_or_reuse_pending create
created-request_of id now at input rs rs' r e =
    elim (Option-cases (first_of (select (is_same_intent now input) rs))) [
      | inr (s, found) ↦ absurd (ground arith)
      | inl fresh ↦ elim (Option-cases (find_request id rs)) [
        | inr (s, taken) ↦ absurd (ground arith)
        | inl free ↦ ground arith
      ]
    ]

-- The table that the first call leaves.
created-find_request :
    (id : Text) (now at : ℕ) (input : CreateInput) (rs rs' : List ApprovalRequest)
    (r : ApprovalRequest)
    → create_or_reuse_pending id now at input rs ≡ created r rs'
    → find_request id rs' ≡ some r
unfolding create_or_reuse_pending create request_of
created-find_request id now at input rs rs' r e =
    elim (Option-cases (first_of (select (is_same_intent now input) rs))) [
      | inr (s, found) ↦ absurd (ground arith)
      | inl fresh ↦ elim (Option-cases (find_request id rs)) [
        | inr (s, taken) ↦ absurd (ground arith)
        | inl free ↦
            let rows : rs ++ request_of id at input ∷ [] ≡ rs' = ground arith in
            let made : request_of id at input ≡ r = ground arith in
            subst (λ x. find_request id x ≡ some r) rows
              (subst (λ x. find_request id (rs ++ request_of id at input ∷ []) ≡ some x) made
                (find_request-append_new id rs (request_of id at input) free (text_eq_refl id)))
      ]
    ]

-- Where `CreateOrReusePending` creates a request, the table that it leaves has the request, and the
-- same submission before the request expires, on any later table that still has the request as it was created, finds a request to reuse, pending,
-- unexpired, and of the same requester for the same module, action, resource and payload, whatever
-- identifier and times it comes with.
pub create_or_reuse_pending-again :
    (id : Text) (now at : ℕ) (input : CreateInput) (rs rs' : List ApprovalRequest)
    (r : ApprovalRequest) (later : List ApprovalRequest) (id' : Text) (now' at' : ℕ)
    → create_or_reuse_pending id now at input rs ≡ created r rs'
    → find_request id later ≡ some r
    → now' < r.expires_at
    → (find_request id rs' ≡ some r)
      × ((s : ApprovalRequest) × (create_or_reuse_pending id' now' at' input later ≡ reused s)
          × IsPendingIntent now' input s)
unfolding create_or_reuse_pending
create_or_reuse_pending-again id now at input rs rs' r later id' now' at' e still h =
    let made = created-request_of id now at input rs rs' r e in
    let same : is_same_intent now' input r ≡ true =
      subst (λ x. is_same_intent now' input x ≡ true) made
        (request_of-is_same_intent id now' at input
          (subst (λ x. now' < x.expires_at) (sym made) h)) in
    elim (Option-cases (first_of (select (is_same_intent now' input) later))) [
      | inl none_left ↦
          absurd (first_of-select_found (is_same_intent now' input) id later r still same none_left)
      | inr (s, found) ↦
          let again : create_or_reuse_pending id' now' at' input later ≡ reused s =
            rw (found, create_or_reuse_pending) refl in
          (
            created-find_request id now at input rs rs' r e,
            (s, again, create_or_reuse_pending-reused id' now' at' input later s again),
          )
    ]
