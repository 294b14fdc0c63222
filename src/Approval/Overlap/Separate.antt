-- ===== src/Approval/Overlap/Separate.antt =====
-- Who reviews a request of internal/services/approval where reviews overlap.
use mathlib.Core.Path.{subst}
use oneinstack_panel.Common.{
  ℕ, ◌≡◌, ◌≢◌, refl, sym, ◌∙◌, Bool, true, none, some, List, arith, Option-cases, Bool-cases, inl,
  inr, if◌then◌else◌,
}
use oneinstack_panel.Text.{Text, trim_space}
use oneinstack_panel.Text.Laws.{text_eq_iff}
use oneinstack_panel.Approval.{ApprovalRequest}
use oneinstack_panel.Approval.Service.{
  find_request, update_where, get, decide, refuse, expire, proceed, Reading, no_request, checked,
  read_review,
}
use oneinstack_panel.Approval.Rows.{
  find_request-id, find_request-update_where, find_request-update_where-none,
}
use oneinstack_panel.Approval.Steps.{Decision-cases, decide-proceed}

pub record IsSeparate (r : ApprovalRequest) : Type 0 where
  pub approver : r.approved_at ≢ none → r.approved_by ≢ r.requested_by
  pub rejecter : r.rejected_at ≢ none → r.rejected_by ≢ r.requested_by

abbrev pub AllSeparate : List ApprovalRequest → Type 0
AllSeparate rs = (id : Text) (r : ApprovalRequest) → find_request id rs ≡ some r → IsSeparate r

-- A later table has each request of an earlier one, of the same requester.
abbrev pub Steady : List ApprovalRequest → List ApprovalRequest → Type 0
Steady rs rs' =
    (id : Text) (r : ApprovalRequest)
    → find_request id rs ≡ some r
    → (r' : ApprovalRequest) × (find_request id rs' ≡ some r') × (r'.requested_by ≡ r.requested_by)

-- A reading that is going to be written is of a request of somebody else that the table still has.
abbrev pub IsFair : ℕ → List ApprovalRequest → Reading → Type 0
IsFair reviewer rs (checked r proceed) =
    (reviewer ≢ r.requested_by)
    × (s : ApprovalRequest) × (find_request r.id rs ≡ some s)
    × (s.requested_by ≡ r.requested_by)
IsFair reviewer rs _ = Unit

pub IsFair-Steady :
    (reviewer : ℕ) (rs rs' : List ApprovalRequest) (o : Reading)
    → Steady rs rs'
    → IsFair reviewer rs o
    → IsFair reviewer rs' o
IsFair-Steady reviewer rs rs' no_request k f = tt
IsFair-Steady reviewer rs rs' (checked r (refuse e)) k f = tt
IsFair-Steady reviewer rs rs' (checked r expire) k f = tt
IsFair-Steady reviewer rs rs' (checked r proceed) k (other, s, here, same) =
    let (s', here', same') = k r.id s here in (other, s', here', same' ∙ same)

pub read_review-IsFair :
    (now reviewer : ℕ) (id : Text) (rs : List ApprovalRequest)
    → IsFair reviewer rs (read_review now reviewer id rs)
unfolding read_review get
read_review-IsFair now reviewer id rs = elim (Option-cases (find_request (trim_space id) rs)) [
  | inl gone ↦ rw (gone, read_review) tt
  | inr (s, found) ↦ elim (Decision-cases (decide now reviewer s)) [
    | inl (error, h) ↦ rw (found, read_review, h) tt
    | inr (inl h) ↦ rw (found, read_review, h) tt
    | inr (inr h) ↦
        let own : trim_space id ≡ s.id =
          sym ((text_eq_iff s.id (trim_space id)).0 (find_request-id (trim_space id) rs s found)) in
        rw (found, read_review, h)
          (
            (decide-proceed now reviewer s h).1,
            s,
            subst (λ i. find_request i rs ≡ some s) own found,
            refl,
          )
  ]
]

module _ (test : ApprovalRequest → Bool) (change : ApprovalRequest → ApprovalRequest)
    (same : (s : ApprovalRequest) → (change s).id ≡ s.id)
    (own : (s : ApprovalRequest) → (change s).requested_by ≡ s.requested_by)
    (rs : List ApprovalRequest) where
  pub update_where-Steady : Steady rs (update_where test change rs)
  update_where-Steady id r e = (
    (if test r then change r else r),
    find_request-update_where test change same id rs r e,
    ground (arith, own r),
  )

  pub update_where-AllSeparate :
      AllSeparate rs
      → ((id : Text) (s : ApprovalRequest)
          → find_request id rs ≡ some s
          → test s ≡ true
          → IsSeparate s
          → IsSeparate (change s))
      → AllSeparate (update_where test change rs)
  update_where-AllSeparate k f id r e = elim (Option-cases (find_request id rs)) [
    | inl gone ↦
        let still = find_request-update_where-none test change same id rs gone in
        absurd (cc (still, e))
    | inr (s, found) ↦
        let now_there = find_request-update_where test change same id rs s found in
        elim (Bool-cases (test s)) [
          | inl passes ↦
              let is : change s ≡ r = ground arith in
              subst IsSeparate is (f id s found passes (k id s found))
          | inr fails ↦ let is : s ≡ r = ground arith in subst IsSeparate is (k id s found)
        ]
  ]
