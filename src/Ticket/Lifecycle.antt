-- ===== src/Ticket/Lifecycle.antt =====
-- The specification of a ticket's life: the statuses of internal/domain/ticket/entity.go.
use ccc.Prelude.{ℕ, Bool, true, false, Option, none, some, ◌≡◌, refl}
use ccc.Ticket.Entity.{
  Ticket, TicketStatus, open_, in_progress, pending, resolved, closed, TicketTemplate,
}
use ccc.Ticket.Service.{same_status, is_published, valid_priority}
use ccc.Ticket.World.{World, template_of}

infix 40 ◌⟶◌
pub data ◌⟶◌ : TicketStatus → TicketStatus → Type 0 where
  stay : {s : TicketStatus} → s ⟶ s
  begin : open_ ⟶ in_progress
  wait : open_ ⟶ pending
  suspend : in_progress ⟶ pending
  resume : pending ⟶ in_progress
  resolve : in_progress ⟶ resolved
  resolve_pending : pending ⟶ resolved
  close : resolved ⟶ closed
  reopen : resolved ⟶ in_progress

pub ruleset edges = (stay, begin, wait, suspend, resume, resolve, resolve_pending, close, reopen)

-- A ticket that is resolved or closed says when it was resolved.
abbrev pub is_stamped : Ticket → Bool
is_stamped t = elim t.resolved_at [
  | some _ ↦ true
  | none ↦ elim t.status [ resolved ↦ false | closed ↦ false | _ ↦ true ]
]

-- How one request may change a ticket.
pub record TicketStep (t t' : Ticket) : Type 0 where
  pub edge : t.status ⟶ t'.status
  pub stamped : is_stamped t ≡ true → is_stamped t' ≡ true
  pub stamp : same_status t'.status resolved ≡ false → t'.resolved_at ≡ t.resolved_at
  pub same_id : t'.id ≡ t.id
  pub same_tenant : t'.tenant_id ≡ t.tenant_id
  pub same_template : t'.template_id ≡ t.template_id
  pub same_priority : t'.priority ≡ t.priority
  pub same_call : t'.call_id ≡ t.call_id

-- The template that a ticket names is on offer.
abbrev pub Offered : World → Option ℕ → Type 0
Offered w none = Unit
Offered w (some id) =
    (p : TicketTemplate) × (template_of id w.templates ≡ some p)
    × (is_published p.online_status ≡ true)

-- A ticket that is new.
pub record TicketBorn (w : World) (t : Ticket) : Type 0 where
  pub opened : t.status ≡ open_
  pub unassigned : t.assignee_id ≡ none
  pub unresolved : t.resolved_at ≡ none
  pub ranked : valid_priority t.priority ≡ true
  pub offered : Offered w t.template_id

pub TicketStep-refl : (t : Ticket) → TicketStep t t
TicketStep-refl t = record {
  edge = stay;
  stamped = λ h. h;
  stamp = λ h. refl;
  same_id = refl;
  same_tenant = refl;
  same_template = refl;
  same_priority = refl;
  same_call = refl;
}

-- Steps in a row.
pub data Progress : Ticket → Ticket → Type 0 where
  done : {t : Ticket} → Progress t t
  then : {t u v : Ticket} → TicketStep t u → Progress u v → Progress t v
