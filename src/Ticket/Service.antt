-- ===== src/Ticket/Service.antt =====
-- internal/domain/ticket/service.go: the services of templates and of tickets.
use ccc.Prelude.{
  ℕ, String, Bool, true, false, not, ◌&&◌, Option, none, some, List, [], ◌∷◌, if◌then◌else◌,
  is_empty, pure, fail_if, ◌>>=◌, ◌>>◌,
}
use ccc.Ticket.Entity.{
  Ticket, TicketStatus, open_, in_progress, pending, resolved, closed, OnlineStatus, draft,
  published, offline, Priority, other_priority, TicketTemplate, invalid_transition,
  template_not_published, already_published, invalid_priority, invalid_flow_graph,
}
use ccc.Ticket.World.{
  Env, Action, get_ticket, get_template, update_ticket, update_template, insert_ticket,
  insert_template, insert_comment, draw_number,
}

abbrev pub same_status : TicketStatus → TicketStatus → Bool
same_status open_ open_ = true
same_status in_progress in_progress = true
same_status pending pending = true
same_status resolved resolved = true
same_status closed closed = true
same_status _ _ = false

abbrev pub is_published : OnlineStatus → Bool
is_published published = true
is_published _ = false

abbrev pub valid_priority : Priority → Bool
valid_priority (other_priority p) = false
valid_priority _ = true

-- validTransitions; a status that is not a key has none.
unfoldable pub next_statuses : TicketStatus → List TicketStatus
next_statuses open_ = in_progress ∷ pending ∷ []
next_statuses in_progress = pending ∷ resolved ∷ []
next_statuses pending = in_progress ∷ resolved ∷ []
next_statuses resolved = closed ∷ in_progress ∷ []
next_statuses _ = []

unfoldable pub is_allowed : TicketStatus → List TicketStatus → Bool
is_allowed to [] = false
is_allowed to (s ∷ ss) = let rest = is_allowed to ss in if same_status s to then true else rest

pub record CreateTemplateInput : Type 0 where
  pub tenant_id : ℕ
  pub name : String
  pub category_id : Option ℕ
  pub fields : String
  pub flow_graph : String

pub record CreateTicketInput : Type 0 where
  pub tenant_id : ℕ
  pub template_id : Option ℕ
  pub category_id : Option ℕ
  pub title : String
  pub description : String
  pub priority : Priority
  pub customer_id : Option ℕ
  pub call_id : Option ℕ
  pub custom_data : String

abbrev pub new_template : CreateTemplateInput → ℕ → ℕ → TicketTemplate
new_template i id now = record {
  id = id;
  tenant_id = i.tenant_id;
  name = i.name;
  category_id = i.category_id;
  fields = i.fields;
  flow_graph = i.flow_graph;
  online_status = draft;
  created_at = now;
  updated_at = now;
}

abbrev pub new_ticket : CreateTicketInput → ℕ → ℕ → Ticket
new_ticket i id now = record {
  id = id;
  tenant_id = i.tenant_id;
  template_id = i.template_id;
  category_id = i.category_id;
  title = i.title;
  description = i.description;
  status = open_;
  priority = i.priority;
  customer_id = i.customer_id;
  assignee_id = none;
  call_id = i.call_id;
  custom_data = i.custom_data;
  created_at = now;
  updated_at = now;
  resolved_at = none;
}

-- What Transition writes into the ticket.
abbrev pub transitioned : TicketStatus → ℕ → Ticket → Ticket
transitioned to now t = record t {
  status = to;
  updated_at = now;
  resolved_at = if same_status to resolved then some now else t.resolved_at;
}

module _ (env : Env) where
  unfoldable pub create_template : CreateTemplateInput → ℕ → Action TicketTemplate
  unfolding draw_number insert_template
  create_template i now = do
    fail_if (not (is_empty i.flow_graph) && not (env.json_valid i.flow_graph)) invalid_flow_graph
    id ← draw_number env
    insert_template env (new_template i id now)
    pure (new_template i id now)

  unfoldable pub publish_template : ℕ → ℕ → Action TicketTemplate
  unfolding get_template update_template
  publish_template id now = do
    t ← get_template env id
    fail_if (is_published t.online_status) already_published
    let t' = record t { online_status = published; updated_at = now }
    update_template env t'
    pure t'

  unfoldable pub take_offline : ℕ → ℕ → Action TicketTemplate
  unfolding get_template update_template
  take_offline id now = do
    t ← get_template env id
    let t' = record t { online_status = offline; updated_at = now }
    update_template env t'
    pure t'

  -- `if in.TemplateID != nil { ... }`
  unfoldable pub check_template : Option ℕ → Action (Unit {0})
  unfolding get_template
  check_template none = pure tt
  check_template (some id) = do
    t ← get_template env id
    fail_if (not (is_published t.online_status)) template_not_published

  unfoldable pub create_ticket : CreateTicketInput → ℕ → Action Ticket
  unfolding check_template draw_number insert_ticket
  create_ticket i now = do
    fail_if (not (valid_priority i.priority)) invalid_priority
    check_template i.template_id
    id ← draw_number env
    insert_ticket env (new_ticket i id now)
    pure (new_ticket i id now)

  unfoldable pub assign_ticket : ℕ → ℕ → ℕ → Action Ticket
  unfolding get_ticket update_ticket
  assign_ticket id agent now = do
    t ← get_ticket env id
    let t' = record t { assignee_id = some agent; updated_at = now }
    update_ticket env t'
    pure t'

  unfoldable pub transition_ticket : ℕ → TicketStatus → ℕ → Action Ticket
  unfolding get_ticket update_ticket next_statuses is_allowed
  transition_ticket id to now = do
    t ← get_ticket env id
    fail_if (not (is_allowed to (next_statuses t.status))) invalid_transition
    update_ticket env (transitioned to now t)
    pure (transitioned to now t)

  -- The ticket that the caller read and changed is written whole.
  unfoldable pub save_ticket : Ticket → ℕ → Action (Unit {0})
  unfolding update_ticket
  save_ticket t now = update_ticket env (record t { updated_at = now })

  unfoldable pub add_comment : ℕ → ℕ → String → ℕ → Action (Unit {0})
  unfolding draw_number insert_comment
  add_comment ticket_id author_id content now = do
    id ← draw_number env
    insert_comment env (record {
      id = id;
      ticket_id = ticket_id;
      author_id = author_id;
      content = content;
      created_at = now;
    })
