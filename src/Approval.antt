-- ===== src/Approval.antt =====
-- internal/services/approval and the rows of internal/models/approval.go. A user's id and a time are
-- numbers; the zero time, which Go writes as the year 1, is 0.
pub mod Service
pub mod Transitions
pub mod Rows
pub mod Steps
pub mod Orderly
pub mod Overlap
pub mod Kept
pub mod Expiry
pub mod Reuse
mod Examples
use oneinstack_panel.Common.{ℕ, Option}
use oneinstack_panel.Text.{Text}

pub record ApprovalRequest : Type 0 where
  pub id : Text
  pub module_name : Text
  pub action : Text
  pub resource_id : Text
  pub resource_name : Text
  pub risk_level : Text
  pub status : Text
  pub reason : Text
  pub payload_snapshot : Text
  pub result_payload : Text
  pub requested_by : ℕ
  pub requested_by_name : Text
  pub approved_by : ℕ
  pub approved_by_name : Text
  pub approved_at : Option ℕ
  pub rejected_by : ℕ
  pub rejected_by_name : Text
  pub rejected_at : Option ℕ
  pub review_comment : Text
  pub expires_at : ℕ
  pub bound_task_type : Text
  pub bound_task_id : Text
  pub created_at : ℕ
  pub updated_at : ℕ

-- `CreateInput`: the payload is what `json.Marshal` made of it.
pub record CreateInput : Type 0 where
  pub module_name : Text
  pub action : Text
  pub resource_id : Text
  pub resource_name : Text
  pub risk_level : Text
  pub reason : Text
  pub payload : Text
  pub requested_by : ℕ
  pub requested_by_name : Text
  pub expires_at : ℕ

pub data ApprovalError : Type 0 where
  not_found requester_cannot_review approval_expired approval_not_pending : ApprovalError
