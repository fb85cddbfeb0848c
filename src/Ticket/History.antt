-- ===== src/Ticket/History.antt =====
-- Histories of requests to the services of internal/domain/ticket/service.go. `Update` and
-- `UpdateTemplate`, which write a record that their caller chose, are left out.
use ccc.Prelude.{
  ℕ, String, ◌≡◌, true, Option, none, some, List, [], ◌∷◌, ◌++◌, ◌⊎◌, inl, inr, arith, Option-cases,
  Bool-cases, refl,
}
use ccc.Prelude.Rows.{Evolved, Evolved-append}
use ccc.Ticket.Entity.{Ticket, TicketStatus}
use ccc.Ticket.World.{Env, World, ticket_key, ticket_of, template_of}
use ccc.Ticket.Service.{
  CreateTemplateInput, CreateTicketInput, new_ticket, create_template, publish_template,
  take_offline, create_ticket, assign_ticket, transition_ticket, add_comment, valid_priority,
  is_published,
}
use ccc.Ticket.Lifecycle.{Progress, done, then, Offered, TicketBorn, TicketStep, TicketStep-refl}
use ccc.Ticket.Steps.{Steps, Steps-kept, transition_ticket-Steps, assign_ticket-Steps}

pub data TicketRequest : Type 0 where
  drafts : CreateTemplateInput → TicketRequest
  publishes withdraws : ℕ → TicketRequest
  creates : CreateTicketInput → TicketRequest
  assigns : ℕ → ℕ → TicketRequest
  moves : ℕ → TicketStatus → TicketRequest
  comments_on : ℕ → ℕ → String → TicketRequest

-- The state that a request leaves.
unfoldable pub respond : Env → TicketRequest → ℕ → World → World
respond env (TicketRequest.drafts input) now w = (create_template env input now w).1
respond env (TicketRequest.publishes id) now w = (publish_template env id now w).1
respond env (TicketRequest.withdraws id) now w = (take_offline env id now w).1
respond env (TicketRequest.creates input) now w = (create_ticket env input now w).1
respond env (TicketRequest.assigns id agent) now w = (assign_ticket env id agent now w).1
respond env (TicketRequest.moves id to) now w = (transition_ticket env id to now w).1
respond env (TicketRequest.comments_on id author content) now w =
    (add_comment env id author content now w).1

create_template-kept :
    (env : Env) (input : CreateTemplateInput) (now : ℕ) (w : World)
    → (create_template env input now w).1.tickets ≡ w.tickets
unfolding create_template
create_template-kept env input now w = ground arith

publish_template-kept :
    (env : Env) (id now : ℕ) (w : World) → (publish_template env id now w).1.tickets ≡ w.tickets
unfolding publish_template
publish_template-kept env id now w = ground arith

take_offline-kept :
    (env : Env) (id now : ℕ) (w : World) → (take_offline env id now w).1.tickets ≡ w.tickets
unfolding take_offline
take_offline-kept env id now w = ground arith

add_comment-kept :
    (env : Env) (id author : ℕ) (content : String) (now : ℕ) (w : World)
    → (add_comment env id author content now w).1.tickets ≡ w.tickets
unfolding add_comment
add_comment-kept env id author content now w = ground arith

-- What the checks of Create leave: no ticket, or a ticket whose template is on offer.
create_ticket-kept_or :
    (env : Env) (input : CreateTicketInput) (now : ℕ) (w : World)
    → ((create_ticket env input now w).1.tickets ≡ w.tickets)
      ⊎ (Offered w input.template_id
          × (valid_priority input.priority ≡ true)
          × (ticket_of (env.ids w.drawn) w.tickets ≡ none)
          × ((create_ticket env input now w).1.tickets
              ≡ w.tickets ++ new_ticket input (env.ids w.drawn) now ∷ []))
unfolding create_ticket
create_ticket-kept_or env input now w = elim (Option-cases input.template_id) [
  | inl e ↦ rw e (ground arith)
  | inr (id, e) ↦ rw e (elim (Option-cases (template_of id w.templates)) [
    | inl missing ↦ inl (ground arith)
    | inr (p, found) ↦ elim (Bool-cases (is_published p.online_status)) [
      | inl on ↦
          let offer : Offered w (some id) = (p, found, on) in
          let outcome : ((create_ticket env input now w).1.tickets ≡ w.tickets)
              ⊎ ((valid_priority input.priority ≡ true)
                  × (ticket_of (env.ids w.drawn) w.tickets ≡ none)
                  × ((create_ticket env input now w).1.tickets
                      ≡ w.tickets ++ new_ticket input (env.ids w.drawn) now ∷ [])) =
            ground arith in
          elim outcome [
            | inl kept ↦ inl (ground (arith, kept))
            | inr (ranked, free, wrote) ↦ inr (offer, ranked, free, ground (arith, wrote))
          ]
      | inr off ↦ inl (ground arith)
    ]
  ])
]

create_ticket-Steps :
    (env : Env) (input : CreateTicketInput) (now i : ℕ) (w : World)
    → Steps i w (create_ticket env input now w).1
create_ticket-Steps env input now i w = elim (create_ticket-kept_or env input now w) [
  | inl kept ↦ Steps-kept i w (create_ticket env input now w).1 kept
  | inr (offer, ranked, free, wrote) ↦ rw wrote (
      Evolved-append ticket_key (TicketBorn w) TicketStep TicketStep-refl i
        (new_ticket input (env.ids w.drawn) now) w.tickets free
        (record {
          opened = refl;
          unassigned = refl;
          unresolved = refl;
          ranked = ranked;
          offered = offer;
        }))
]

respond-Steps :
    (env : Env) (r : TicketRequest) (now i : ℕ) (w : World) → Steps i w (respond env r now w)
unfolding respond
respond-Steps env (TicketRequest.drafts input) now i w =
    Steps-kept i w (create_template env input now w).1 (create_template-kept env input now w)
respond-Steps env (TicketRequest.publishes id) now i w =
    Steps-kept i w (publish_template env id now w).1 (publish_template-kept env id now w)
respond-Steps env (TicketRequest.withdraws id) now i w =
    Steps-kept i w (take_offline env id now w).1 (take_offline-kept env id now w)
respond-Steps env (TicketRequest.creates input) now i w = create_ticket-Steps env input now i w
respond-Steps env (TicketRequest.assigns id agent) now i w =
    assign_ticket-Steps env id agent now i w
respond-Steps env (TicketRequest.moves id to) now i w = transition_ticket-Steps env id to now i w
respond-Steps env (TicketRequest.comments_on id author content) now i w =
    Steps-kept i w (add_comment env id author content now w).1
      (add_comment-kept env id author content now w)

-- A history: requests with their times.
unfoldable pub respond_all : Env → List (TicketRequest × ℕ) → World → World
respond_all env [] w = w
respond_all env ((r, now) ∷ rs) w = respond_all env rs (respond env r now w)

-- A ticket that is new after the first requests of a history, and steps in a row.
abbrev pub Grown : Env → List (TicketRequest × ℕ) → World → Ticket → Type 0
Grown env all w u =
    (rs : List (TicketRequest × ℕ)) × (rest : List (TicketRequest × ℕ)) × (rs ++ rest ≡ all)
    × (t : Ticket) × TicketBorn (respond_all env rs w) t
    × Progress t u

-- A step, and more.
Progress-step :
    (env : Env) (r : TicketRequest) (now : ℕ) (all : List (TicketRequest × ℕ)) (w : World)
    (o o' o'' : Option Ticket)
    → Evolved (TicketBorn w) TicketStep o o'
    → Evolved (Grown env all (respond env r now w)) Progress o' o''
    → Evolved (Grown env ((r, now) ∷ all) w) Progress o o''
unfolding respond_all
Progress-step env r now all w none none none s p = p
Progress-step env r now all w none none (some u) s (rs, rest, e, t, born, p) =
    ((r, now) ∷ rs, rest, rw e refl, t, born, p)
Progress-step env r now all w none (some d) none s p = elim p [ ]
Progress-step env r now all w none (some d) (some e) s p = ([], (r, now) ∷ all, refl, d, s, p)
Progress-step env r now all w (some c) none o'' s p = elim s [ ]
Progress-step env r now all w (some c) (some d) none s p = elim p [ ]
Progress-step env r now all w (some c) (some d) (some e) s p = then s p

Progress-none :
    (env : Env) (all : List (TicketRequest × ℕ)) (w : World) (o : Option Ticket)
    → Evolved (Grown env all w) Progress o o
Progress-none env all w none = tt
Progress-none env all w (some c) = done

-- Whatever statements the database refuses, any history of requests, Update aside, deletes no ticket
-- and takes each along the specified steps: its status moves along the diagram, its tenant, template,
-- priority and call stay, and when it is resolved or closed it says since when, if that held before.
-- A ticket that is made starts open and unassigned, with one of the four priorities and, if it names
-- a template, with one that was on offer after the requests before it.
pub respond_all-Progress :
    (env : Env) (rs : List (TicketRequest × ℕ)) (i : ℕ) (w : World)
    → Evolved
        (Grown env rs w)
        Progress
        (ticket_of i w.tickets)
        (ticket_of i (respond_all env rs w).tickets)
unfolding respond_all
respond_all-Progress env [] i w = Progress-none env [] w (ticket_of i w.tickets)
respond_all-Progress env ((r, now) ∷ rs) i w =
    let w' = respond env r now w in
    Progress-step env r now rs w (ticket_of i w.tickets) (ticket_of i w'.tickets)
      (ticket_of i (respond_all env rs w').tickets) (respond-Steps env r now i w)
      (respond_all-Progress env rs i w')
