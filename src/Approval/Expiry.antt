-- ===== src/Approval/Expiry.antt =====
-- The expiry of requests as the list shows it, and as `ExpirePending` writes it.
use oneinstack_panel.Common.{
  ℕ, ◌≡◌, ◌≢◌, refl, true, false, List, [], ◌∷◌, arith, map, All, Bool-cases, inl, inr,
}
use oneinstack_panel.Text.{Text, text_eq}
use oneinstack_panel.Text.Laws.{text_eq_iff, text_eq_refl}
use oneinstack_panel.Approval.{ApprovalRequest}
use oneinstack_panel.Approval.Service.{
  pending, expired, update_where, expire_pending, effective_status, matches_status,
}

matches_pending :
    (now : ℕ) (r : ApprovalRequest)
    → r.expires_at ≢ 0
    → matches_status now pending r ≡ text_eq (effective_status now r) pending
unfolding matches_status effective_status
matches_pending now r h = ground arith

matches_expired :
    (now : ℕ) (r : ApprovalRequest)
    → r.expires_at ≢ 0
    → matches_status now expired r ≡ text_eq (effective_status now r) expired
unfolding matches_status effective_status
matches_expired now r h = elim (Bool-cases (text_eq r.status pending)) [
  | inl waits ↦
      let is = (text_eq_iff r.status pending).0 waits in
      let other : text_eq r.status expired ≡ false = rw is refl in ground arith
  | inr other ↦ ground arith
]

text_eq_symm_false : (s t : Text) → text_eq s t ≡ false → text_eq t s ≡ false
text_eq_symm_false s t h = elim (Bool-cases (text_eq t s)) [
  | inl same ↦
      let is = (text_eq_iff t s).0 same in
      let back : text_eq s t ≡ true = rw is (text_eq_refl s) in absurd (cc (h, back))
  | inr other ↦ other
]

matches_other :
    (now : ℕ) (value : Text) (r : ApprovalRequest)
    → text_eq value pending ≡ false
    → text_eq value expired ≡ false
    → matches_status now value r ≡ text_eq (effective_status now r) value
unfolding matches_status effective_status
matches_other now value r p x = elim (Bool-cases (text_eq r.status pending)) [
  | inl waits ↦
      let is = (text_eq_iff r.status pending).0 waits in
      let kept : text_eq r.status value ≡ false = rw is (text_eq_symm_false value pending p) in
      ground (arith, text_eq_symm_false value expired x)
  | inr other ↦ ground arith
]

-- The condition of `List` on a status keeps a request, one whose expiry is not the zero time, just
-- where the status that the list shows of it is the wanted one.
pub matches_status-effective_status :
    (now : ℕ) (value : Text) (r : ApprovalRequest)
    → r.expires_at ≢ 0
    → matches_status now value r ≡ text_eq (effective_status now r) value
matches_status-effective_status now value r h = elim (Bool-cases (text_eq value pending)) [
  | inl p ↦ let is = (text_eq_iff value pending).0 p in rw is (matches_pending now r h)
  | inr p ↦ elim (Bool-cases (text_eq value expired)) [
    | inl x ↦ let is = (text_eq_iff value expired).0 x in rw is (matches_expired now r h)
    | inr x ↦ matches_other now value r p x
  ]
]

-- `ExpirePending` changes no status that the list shows, where no expiry is the zero time, and
-- after it each shown status is the stored one.
pub expire_pending-effective_status :
    (now : ℕ) (rs : List ApprovalRequest)
    → All (λ r. r.expires_at ≢ 0) rs
    → (map (effective_status now) (expire_pending now rs) ≡ map (effective_status now) rs)
      × All (λ r. effective_status now r ≡ r.status) (expire_pending now rs)
unfolding expire_pending update_where effective_status
expire_pending-effective_status now [] h = (refl, tt)
expire_pending-effective_status now (r ∷ rs) (p, h) =
    let (k, l) = expire_pending-effective_status now rs h in
    (ground (arith, k, p), (ground (arith, p), l))
