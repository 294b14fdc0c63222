-- ===== src/Approval/Overlap.antt =====
-- internal/services/approval/service.go: `Approve` and `Reject` read and check a row, and write it
-- later by its id, in no transaction. Here other calls, and the halves of other reviews, may come in between.
pub mod Separate
pub mod Whole
pub mod Run
use oneinstack_panel.Common.{ℕ, zero, suc, Bool, false, Option, none, some, List, [], ◌∷◌}
use oneinstack_panel.Text.{Text}
use oneinstack_panel.Approval.{ApprovalRequest}
use oneinstack_panel.Approval.Service.{
  mark_approved, mark_rejected, Reading, read_review, write_review,
}
use oneinstack_panel.Approval.Transitions.{Call, reopens}
use oneinstack_panel.Approval.Transitions

pub data Verdict : Type 0 where
  approving rejecting : Verdict

pub record Review : Type 0 where
  pub verdict : Verdict
  pub reviewer : ℕ
  pub id : Text
  pub reviewer_name : Text
  pub comment : Text

-- What the review writes at the time `at`.
abbrev pub mark_by : Verdict → ℕ → Review → ApprovalRequest → ApprovalRequest
mark_by approving at v r = mark_approved at v.reviewer v.reviewer_name v.comment r
mark_by rejecting at v r = mark_rejected at v.reviewer v.reviewer_name v.comment r

-- A review between its halves, with the row that it has read.
pub record Begun : Type 0 where
  pub review : Review
  pub reading : Reading

pub record Desk : Type 0 where
  pub rows : List ApprovalRequest
  pub begun : List Begun

abbrev pub nth_begun : ℕ → List Begun → Option Begun
nth_begun n [] = none
nth_begun zero (b ∷ bs) = some b
nth_begun (suc n) (b ∷ bs) = nth_begun n bs

abbrev pub drop_begun : ℕ → List Begun → List Begun
drop_begun n [] = []
drop_begun zero (b ∷ bs) = bs
drop_begun (suc n) (b ∷ bs) = b ∷ drop_begun n bs

-- A whole call, the first half of a review, or the second half of one of those that are begun.
pub data Move : Type 0 where
  whole : Call → Move
  read_half : ℕ → Review → Move
  write_half : ℕ → ℕ → Move

abbrev pub move_reopens : Move → Bool
move_reopens (whole c) = reopens c
move_reopens _ = false

unfoldable pub write_begun : ℕ → ℕ → Option Begun → Desk → Desk
unfolding write_review
write_begun at n none d = d
write_begun at n (some b) d = record {
  rows = (write_review at (mark_by b.review.verdict at b.review) b.reading d.rows).rows;
  begun = drop_begun n d.begun;
}

unfoldable pub move : Move → Desk → Desk
unfolding read_review write_begun
move (whole c) d = record d { rows = Transitions.step c d.rows }
move (read_half now v) d = record d {
  begun = record { review = v; reading = read_review now v.reviewer v.id d.rows } ∷ d.begun;
}
move (write_half at n) d = write_begun at n (nth_begun n d.begun) d

unfoldable pub run_moves : List Move → Desk → Desk
unfolding move
run_moves [] d = d
run_moves (k ∷ ks) d = run_moves ks (move k d)
