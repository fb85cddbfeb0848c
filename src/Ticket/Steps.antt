-- ===== src/Ticket/Steps.antt =====
-- The step that each method takes with the rows of the table `tickets`.
use ccc.Prelude.{ℕ, ◌≡◌, refl, Bool, true, none, some, ◌⊎◌, arith}
use ccc.Prelude.Rows.{Evolved, Evolved-write, Evolved-refl, update_by}
use ccc.Ticket.Entity.{Ticket, TicketStatus}
use ccc.Ticket.World.{Env, World, ticket_key, ticket_of, updated_ticket}
use ccc.Ticket.Service.{assign_ticket, transition_ticket, transitioned, is_allowed, next_statuses}
use ccc.Ticket.Lifecycle.{TicketStep, TicketBorn, TicketStep-refl, ◌⟶◌, edges, is_stamped, stay}

-- Every row of the table makes a step.
abbrev pub Steps : ℕ → World → World → Type 0
Steps i w w' = Evolved (TicketBorn w) TicketStep (ticket_of i w.tickets) (ticket_of i w'.tickets)

pub Steps-kept : (i : ℕ) (w w' : World) → w'.tickets ≡ w.tickets → Steps i w w'
Steps-kept i w w' kept =
    rw kept (Evolved-refl ticket_key (TicketBorn w) TicketStep TicketStep-refl _)

Steps-written :
    (i id : ℕ) (change : Ticket → Ticket) (may : Ticket → Bool) (w w' : World)
    → ((t : Ticket) → (change t).id ≡ t.id)
    → ((t : Ticket) → may t ≡ true → TicketStep t (updated_ticket (change t) t))
    → (ticket_of id w.tickets ≡ none → w'.tickets ≡ w.tickets)
    → ((t : Ticket)
        → ticket_of id w.tickets ≡ some t
        → (w'.tickets ≡ w.tickets)
          ⊎ ((may t ≡ true)
              × (w'.tickets
                  ≡ update_by ticket_key (change t).id (updated_ticket (change t)) w.tickets)))
    → Steps i w w'
Steps-written i id change may w w' same step missing wrote =
    Evolved-write ticket_key (TicketBorn w) TicketStep TicketStep-refl i id change updated_ticket
      may w.tickets w'.tickets same (λ c d. refl) step missing wrote

allowed-edge : (s s' : TicketStatus) → is_allowed s' (next_statuses s) ≡ true → s ⟶ s'
unfolding is_allowed next_statuses
allowed-edge s s' h = grind (arith, edges)

transitioned-stamped :
    (s s' : TicketStatus) (now : ℕ) (t : Ticket)
    → t.status ≡ s
    → is_allowed s' (next_statuses s) ≡ true
    → is_stamped t ≡ true
    → is_stamped (updated_ticket (transitioned s' now t) t) ≡ true
unfolding is_allowed next_statuses
transitioned-stamped s s' now t at h stamped = ground arith

transitioned-Step :
    (to : TicketStatus) (now : ℕ) (t : Ticket)
    → is_allowed to (next_statuses t.status) ≡ true
    → TicketStep t (updated_ticket (transitioned to now t) t)
transitioned-Step to now t h = record {
  edge = allowed-edge t.status to h;
  stamped = transitioned-stamped t.status to now t refl h;
  stamp = λ e. ground arith;
  same_id = refl;
  same_tenant = refl;
  same_template = refl;
  same_priority = refl;
  same_call = refl;
}

pub transition_ticket-Steps :
    (env : Env) (id : ℕ) (to : TicketStatus) (now i : ℕ) (w : World)
    → Steps i w (transition_ticket env id to now w).1
unfolding transition_ticket
transition_ticket-Steps env id to now i w =
    Steps-written i id (transitioned to now) (λ t. is_allowed to (next_statuses t.status)) w
      (transition_ticket env id to now w).1 (λ t. refl) (transitioned-Step to now)
      (λ e. ground arith) (λ t e. ground arith)

pub assign_ticket-Steps :
    (env : Env) (id agent now i : ℕ) (w : World) → Steps i w (assign_ticket env id agent now w).1
unfolding assign_ticket
assign_ticket-Steps env id agent now i w =
    Steps-written i id (λ t. record t { assignee_id = some agent; updated_at = now }) (λ t. true) w
      (assign_ticket env id agent now w).1 (λ t. refl)
      (λ t m. record {
        edge = stay;
        stamped = λ h. ground arith;
        stamp = λ h. refl;
        same_id = refl;
        same_tenant = refl;
        same_template = refl;
        same_priority = refl;
        same_call = refl;
      })
      (λ e. ground arith) (λ t e. ground arith)
