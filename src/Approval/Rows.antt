-- ===== src/Approval/Rows.antt =====
-- Reading the table of requests after it is changed.
use oneinstack_panel.Common.{
  ◌≡◌, refl, Bool, true, none, some, List, [], ◌∷◌, ◌++◌, arith, if◌then◌else◌,
}
use oneinstack_panel.Text.{Text, text_eq}
use oneinstack_panel.Approval.{ApprovalRequest}
use oneinstack_panel.Approval.Service.{find_request, update_where}

pub find_request-id :
    (id : Text) (rs : List ApprovalRequest) (r : ApprovalRequest)
    → find_request id rs ≡ some r
    → text_eq r.id id ≡ true
find_request-id id [] r e = cc
find_request-id id (s ∷ rs) r e = ground (arith, find_request-id id rs r)

-- A row that the update is about is changed, and every other stays.
pub find_request-update_where :
    (test : ApprovalRequest → Bool) (change : ApprovalRequest → ApprovalRequest)
    (same : (s : ApprovalRequest) → (change s).id ≡ s.id) (id : Text) (rs : List ApprovalRequest)
    (r : ApprovalRequest)
    → find_request id rs ≡ some r
    → find_request id (update_where test change rs) ≡ some (if test r then change r else r)
unfolding update_where
find_request-update_where test change same id [] r e = cc
find_request-update_where test change same id (s ∷ rs) r e =
    ground (arith, same s, find_request-update_where test change same id rs r)

pub find_request-append :
    (id : Text) (rs : List ApprovalRequest) (new r : ApprovalRequest)
    → find_request id rs ≡ some r
    → find_request id (rs ++ new ∷ []) ≡ some r
find_request-append id [] new r e = cc
find_request-append id (s ∷ rs) new r e = ground (arith, find_request-append id rs new r)

-- A row that is found later was found before, or is the new one.
pub find_request-append_none :
    (id : Text) (rs : List ApprovalRequest) (new r : ApprovalRequest)
    → find_request id rs ≡ none
    → find_request id (rs ++ new ∷ []) ≡ some r
    → r ≡ new
find_request-append_none id [] new r n e = ground arith
find_request-append_none id (s ∷ rs) new r n e =
    ground (arith, find_request-append_none id rs new r)

pub find_request-append_new :
    (id : Text) (rs : List ApprovalRequest) (new : ApprovalRequest)
    → find_request id rs ≡ none
    → text_eq new.id id ≡ true
    → find_request id (rs ++ new ∷ []) ≡ some new
find_request-append_new id [] new n e = ground arith
find_request-append_new id (s ∷ rs) new n e = ground (arith, find_request-append_new id rs new)

pub find_request-update_where-none :
    (test : ApprovalRequest → Bool) (change : ApprovalRequest → ApprovalRequest)
    (same : (s : ApprovalRequest) → (change s).id ≡ s.id) (id : Text) (rs : List ApprovalRequest)
    → find_request id rs ≡ none
    → find_request id (update_where test change rs) ≡ none
unfolding update_where
find_request-update_where-none test change same id [] n = refl
find_request-update_where-none test change same id (s ∷ rs) n =
    ground (arith, same s, find_request-update_where-none test change same id rs)
