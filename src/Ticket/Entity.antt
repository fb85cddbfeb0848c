-- ===== src/Ticket/Entity.antt =====
-- internal/domain/ticket/entity.go and errors.go.
use ccc.Prelude.{ℕ, String, Option}

pub data TicketStatus : Type 0 where
  open_ in_progress pending resolved closed : TicketStatus
  other_status : String → TicketStatus

pub data OnlineStatus : Type 0 where
  draft published offline : OnlineStatus
  other_online : String → OnlineStatus

pub data Priority : Type 0 where
  low medium high urgent : Priority
  other_priority : String → Priority

pub record TicketTemplate : Type 0 where
  pub id : ℕ
  pub tenant_id : ℕ
  pub name : String
  pub category_id : Option ℕ
  pub fields : String
  pub flow_graph : String
  pub online_status : OnlineStatus
  pub created_at : ℕ
  pub updated_at : ℕ

pub record Ticket : Type 0 where
  pub id : ℕ
  pub tenant_id : ℕ
  pub template_id : Option ℕ
  pub category_id : Option ℕ
  pub title : String
  pub description : String
  pub status : TicketStatus
  pub priority : Priority
  pub customer_id : Option ℕ
  pub assignee_id : Option ℕ
  pub call_id : Option ℕ
  pub custom_data : String
  pub created_at : ℕ
  pub updated_at : ℕ
  pub resolved_at : Option ℕ

pub record TicketComment : Type 0 where
  pub id : ℕ
  pub ticket_id : ℕ
  pub author_id : ℕ
  pub content : String
  pub created_at : ℕ

pub data TicketError : Type 0 where
  ticket_not_found template_not_found invalid_transition template_not_published : TicketError
  already_published invalid_priority invalid_flow_graph repository_failed : TicketError
