-- ===== src/Ticket/World.antt =====
-- What the two services of internal/domain/ticket/service.go act on, with what the statements of
-- internal/infrastructure/mysql/ticket_repo.go do to the rows. The database, the id generator and
-- json.Valid are parameters: `Env` holds their answers, with any statement free to fail.
use ccc.Prelude.{
  ℕ, ◌+◌, String, Bool, true, false, Option, none, some, List, [], ◌∷◌, ◌++◌, if◌then◌else◌, ok,
  err, Method, or_fail,
}
use ccc.Prelude.Rows.{row_by, update_by}
use ccc.Ticket.Entity.{
  Ticket, TicketTemplate, TicketComment, TicketError, ticket_not_found, template_not_found,
  repository_failed,
}

pub record Env : Type 0 where
  pub ids : ℕ → ℕ
  pub db_fails : ℕ → Bool
  pub json_valid : String → Bool

pub record World : Type 0 where
  pub tickets : List Ticket
  pub templates : List TicketTemplate
  pub comments : List TicketComment
  pub drawn : ℕ
  pub queries : ℕ

abbrev pub Action : Type 0 → Type 0
Action = Method World TicketError

abbrev pub ticket_key : Ticket → ℕ
ticket_key t = t.id

abbrev pub template_key : TicketTemplate → ℕ
template_key t = t.id

abbrev pub ticket_of : ℕ → List Ticket → Option Ticket
ticket_of = row_by ticket_key

abbrev pub template_of : ℕ → List TicketTemplate → Option TicketTemplate
template_of = row_by template_key

-- The UPDATE statements.
abbrev pub updated_ticket : Ticket → Ticket → Ticket
updated_ticket t old = record old {
  title = t.title;
  description = t.description;
  status = t.status;
  priority = t.priority;
  assignee_id = t.assignee_id;
  custom_data = t.custom_data;
  updated_at = t.updated_at;
  resolved_at = t.resolved_at;
}

abbrev pub updated_template : TicketTemplate → TicketTemplate → TicketTemplate
updated_template t old = record old {
  name = t.name;
  category_id = t.category_id;
  fields = t.fields;
  flow_graph = t.flow_graph;
  online_status = t.online_status;
  updated_at = t.updated_at;
}

module _ (env : Env) where
  -- `tk, err := s.tickets.GetByID(ctx, id); if err != nil || tk == nil { ... }`
  unfoldable pub get_ticket : ℕ → Action Ticket
  get_ticket i w = (
    if env.db_fails w.queries
        then err ticket_not_found
        else or_fail (ticket_of i w.tickets) ticket_not_found,
    record w { queries = w.queries + 1 },
  )

  unfoldable pub get_template : ℕ → Action TicketTemplate
  get_template i w = (
    if env.db_fails w.queries
        then err template_not_found
        else or_fail (template_of i w.templates) template_not_found,
    record w { queries = w.queries + 1 },
  )

  unfoldable pub update_ticket : Ticket → Action (Unit {0})
  update_ticket t w = elim (env.db_fails w.queries) [
    | true ↦ (err repository_failed, record w { queries = w.queries + 1 })
    | false ↦ (
      ok tt,
      record w {
        queries = w.queries + 1;
        tickets = update_by ticket_key t.id (updated_ticket t) w.tickets;
      },
    )
  ]

  unfoldable pub update_template : TicketTemplate → Action (Unit {0})
  update_template t w = elim (env.db_fails w.queries) [
    | true ↦ (err repository_failed, record w { queries = w.queries + 1 })
    | false ↦ (
      ok tt,
      record w {
        queries = w.queries + 1;
        templates = update_by template_key t.id (updated_template t) w.templates;
      },
    )
  ]

  -- The primary key refuses an id that is taken.
  unfoldable pub insert_ticket : Ticket → Action (Unit {0})
  insert_ticket t w = elim (env.db_fails w.queries) [
    | true ↦ (err repository_failed, record w { queries = w.queries + 1 })
    | false ↦ elim (ticket_of t.id w.tickets) [
      | some _ ↦ (err repository_failed, record w { queries = w.queries + 1 })
      | none ↦ (ok tt, record w { queries = w.queries + 1; tickets = w.tickets ++ t ∷ [] })
    ]
  ]

  unfoldable pub insert_template : TicketTemplate → Action (Unit {0})
  insert_template t w = elim (env.db_fails w.queries) [
    | true ↦ (err repository_failed, record w { queries = w.queries + 1 })
    | false ↦ elim (template_of t.id w.templates) [
      | some _ ↦ (err repository_failed, record w { queries = w.queries + 1 })
      | none ↦ (ok tt, record w { queries = w.queries + 1; templates = w.templates ++ t ∷ [] })
    ]
  ]

  -- The foreign key refuses a ticket that is not there.
  unfoldable pub insert_comment : TicketComment → Action (Unit {0})
  insert_comment c w = elim (env.db_fails w.queries) [
    | true ↦ (err repository_failed, record w { queries = w.queries + 1 })
    | false ↦ elim (ticket_of c.ticket_id w.tickets) [
      | none ↦ (err repository_failed, record w { queries = w.queries + 1 })
      | some _ ↦ (ok tt, record w { queries = w.queries + 1; comments = w.comments ++ c ∷ [] })
    ]
  ]

  unfoldable pub draw_number : Action ℕ
  draw_number w = (ok (env.ids w.drawn), record w { drawn = w.drawn + 1 })
