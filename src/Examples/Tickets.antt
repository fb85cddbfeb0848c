-- ===== src/Examples/Tickets.antt =====
-- The theorem on tickets at a concrete input: a ticket is made from a template, assigned, resolved,
-- reopened, and resolved and closed.
use ccc.Prelude.{ℕ, List, Option, map, ◌+◌, ◌≡◌, refl, true, false, none, some, [], ◌∷◌}
use ccc.Prelude.Rows.{row_by, update_by, Evolved}
use ccc.Ticket.Entity.{
  Ticket, TicketStatus, in_progress, resolved, closed, high, TicketTemplate, published,
}
use ccc.Ticket.World.{Env, World, ticket_of}
use ccc.Ticket.Service.{CreateTicketInput, create_ticket, assign_ticket, transition_ticket}
use ccc.Ticket.Lifecycle.{Progress}
use ccc.Ticket.History.{Grown, TicketRequest, respond, respond_all, respond_all-Progress}

abbrev env : Env
env = record { ids = λ n. n + 50; db_fails = λ _. false; json_valid = λ _. true }

abbrev form : TicketTemplate
form = record {
  id = 1;
  tenant_id = 7;
  name = "complaint";
  category_id = none;
  fields = "";
  flow_graph = "";
  online_status = published;
  created_at = 0;
  updated_at = 0;
}

abbrev complaint : CreateTicketInput
complaint = record {
  tenant_id = 7;
  template_id = some 1;
  category_id = none;
  title = "a broken phone";
  description = "";
  priority = high;
  customer_id = none;
  call_id = some 3;
  custom_data = "";
}

abbrev one_template : World
one_template = record { tickets = []; templates = form ∷ []; comments = []; drawn = 0; queries = 0 }

abbrev life : List (TicketRequest × ℕ)
life =
    (TicketRequest.creates complaint, 10)
    ∷ (TicketRequest.assigns 50 4, 20)
    ∷ (TicketRequest.moves 50 in_progress, 30)
    ∷ (TicketRequest.moves 50 closed, 40)
    ∷ (TicketRequest.moves 50 resolved, 50)
    ∷ (TicketRequest.moves 50 in_progress, 60)
    ∷ (TicketRequest.moves 50 resolved, 70)
    ∷ (TicketRequest.moves 50 closed, 80)
    ∷ []

respond_all-Progress_example :
    Evolved
      (Grown env life one_template)
      Progress
      (ticket_of 50 one_template.tickets)
      (ticket_of 50 (respond_all env life one_template).tickets)
respond_all-Progress_example = respond_all-Progress env life 50 one_template

abbrev end_of : Ticket → TicketStatus × Option ℕ × Option ℕ
end_of t = (t.status, t.assignee_id, t.resolved_at)

life_done : map end_of (respond_all env life one_template).tickets ≡ (closed, some 4, some 70) ∷ []
unfolding respond_all respond create_ticket assign_ticket transition_ticket row_by update_by
life_done = refl
