-- ===== src/Ivr/Execution.antt =====
-- internal/application/ivr/engine.go: Execute on a flow that passed validation.
use ccc.Prelude.{
  ℕ, zero, suc, ◌≡◌, refl, sym, ◌∙◌, ap, ◌⊎◌, inl, inr, String, true, false, Option, none, some,
  List, [], ◌∷◌, ◌++◌, arith, ok, err, Bool-cases, Option-cases, ◌≤◌,
}
use mathlib.Core.Path.{subst}
use mathlib.Core.List.{append_assoc, append-nil}
use ccc.Flow.Names.{◌==◌, elem}
use ccc.Flow.Graph
use ccc.Flow.Graph.{NodeType, FlowNode, FlowGraph, ids, targets, is_start, is_end, is_known}
use ccc.Flow.Validate.{validate_graph}
use ccc.Flow.Validate.Correct.{All, starts, validate_graph-IsWellFormed}
use ccc.Ivr.Variables.{lookup}
use ccc.Ivr.Session.{NodeVisit, Session, Handled, leaves, fails, overflows, Handler, visit}
use ccc.Ivr.Providers.{Providers, Library}
use ccc.Ivr.Config.{Json}
use ccc.Ivr.Engine.{
  Ended, finished, stopped, overflowed, no_start_node, no_exit, node_by, start_of, next_id,
  next_node, steps, execute, engine,
}
use ccc.Ivr.Manners.{Leaves, has_failed}
use ccc.Ivr.Registry.{Serves, registry-Serves}
use ccc.Ivr.Walk.{
  visit_of, LeadsTo, Walk, arrive, follow, dead_end, tire, overflow, node_by-id, node_by-All,
  node_by-total, lookup-elem,
}

-- A node as validation leaves it: its type is known and its exits lead to nodes.
abbrev Sound : List FlowNode → FlowNode → Type 0
Sound ns n = (is_known n.type ≡ true) × All (λ t. elem t (ids ns) ≡ true) (targets n.exits)

All-elem : (P : String → Type 0) (t : String) (ts : List String) → elem t ts ≡ true → All P ts → P t
unfolding elem
All-elem P t [] h a = let no : ⊥ = cc in elim no [ ]
All-elem P t (u ∷ ts) h a = elim (Bool-cases (u == t)) [
  | inl hit ↦ subst P ((text.Mathlib.TextEquality.eq_iff u t).0 hit) a.0
  | inr miss ↦ All-elem P t ts (ground (arith, h, miss)) a.1
]

Handled-cases :
    (r : Handled) → has_failed r ≡ false → ((name : String) × (r ≡ leaves name)) ⊎ (r ≡ overflows)
Handled-cases (leaves name) h = inl (name, refl)
Handled-cases (fails e) h = let no : ⊥ = cc in elim no [ ]
Handled-cases overflows h = inr refl

-- Only the handler of a sub flow exhausts the stack.
at_sub_flow :
    {A : Type 0} {t : NodeType} (h : Handler A) (n : FlowNode) (s : Session) (a : A)
    → Leaves h ⊎ (t ≡ Graph.sub_flow)
    → (h n s a).0 ≡ overflows
    → t ≡ Graph.sub_flow
at_sub_flow h n s a (inl l) full = let left = (l n s a).0 in ground (arith, left, full)
at_sub_flow h n s a (inr at) full = at

module _ (ns : List FlowNode) where
  goes :
      (n : FlowNode) (name t : String)
      → Sound ns n
      → LeadsTo n name t
      → next_id name n ≡ some t
      → (m : FlowNode) × (next_node ns n name ≡ ok m)
        × LeadsTo n name m.id
        × (node_by m.id ns ≡ some m)
  unfolding next_node
  goes n name t sound lead at =
      let here : elem t (targets n.exits) ≡ true = elim lead [
        | inl e ↦ lookup-elem name t n.exits e
        | inr (_, e) ↦ lookup-elem "default" t n.exits e
      ] in
      let (m, found) =
        node_by-total t ns
          (All-elem (λ u. elem u (ids ns) ≡ true) t (targets n.exits) here sound.1) in
      let same : m.id ≡ t = node_by-id t ns m found in
      (
        m,
        ground (arith, at, found),
        subst (LeadsTo n name) (sym same) lead,
        subst (λ i. node_by i ns ≡ some m) (sym same) found,
      )

  next_node-cases :
      (n : FlowNode) (name : String)
      → Sound ns n
      → ((m : FlowNode) × (next_node ns n name ≡ ok m)
          × LeadsTo n name m.id
          × (node_by m.id ns ≡ some m))
        ⊎ ((next_node ns n name ≡ err no_exit)
            × (lookup name n.exits ≡ none)
            × (lookup "default" n.exits ≡ none))
  unfolding next_node next_id
  next_node-cases n name sound = elim (Option-cases (lookup name n.exits)) [
    | inr (t, e) ↦ inl (goes n name t sound (inl e) (ground (arith, e)))
    | inl e ↦ elim (Option-cases (lookup "default" n.exits)) [
      | inr (t, f) ↦ inl (goes n name t sound (inr (e, f)) (ground (arith, e, f)))
      | inl f ↦ inr (ground (arith, e, f), e, f)
    ]
  ]

  module _ {A : Type 0} (handlers : NodeType → Option (Handler A)) (serves : Serves handlers)
      (sound : All (Sound ns) ns) where
    -- What a run appends to the history is a walk from the node where it begins.
    abbrev Walked : ℕ → FlowNode → Session → A → Ended × (Session × A) → Type 0
    Walked k n s a r =
        (vs : List NodeVisit) × Walk handlers ns k n s a vs r.0 × (r.1.0.history ≡ s.history ++ vs)

    steps-Walked :
        (k : ℕ) (n : FlowNode) (s : Session) (a : A)
        → Sound ns n
        → Walked k n s a (steps handlers ns k n s a)
    unfolding steps visit
    steps-Walked zero n s a fit = ([], tire, sym (append-nil s.history))
    steps-Walked (suc k) n s a fit = elim (Bool-cases (is_end n.type)) [
      | inl last ↦
          let eq : steps handlers ns (suc k) n s a ≡ (finished, (visit n "" s, a)) =
            ground (arith, last) in
          subst (Walked (suc k) n s a) (sym eq) (visit_of n "" ∷ [], arrive last, refl)
      | inr more ↦
          let (h, registered, polite, kind) = serves n.type fit.0 in
          let (calm, same) = polite n s a in
          elim (Handled-cases (h n s a).0 calm) [
            | inr full ↦
                let eq : steps handlers ns (suc k) n s a ≡ (overflowed, (h n s a).1) =
                  ground (arith, more, registered, full) in
                subst (Walked (suc k) n s a) (sym eq) (
                  [],
                  overflow (at_sub_flow h n s a kind full) registered full,
                  same ∙ sym (append-nil s.history),
                )
            | inl (name, e) ↦ elim (next_node-cases n name fit) [
              | inr (stuck, no_such, no_default) ↦
                  let eq : steps handlers ns (suc k) n s a
                      ≡ (stopped no_exit, (visit n name (h n s a).1.0, (h n s a).1.1)) =
                    ground (arith, more, registered, e, stuck) in
                  subst (Walked (suc k) n s a) (sym eq) (
                    visit_of n name ∷ [],
                    dead_end more registered e no_such no_default,
                    ap (λ l. l ++ visit_of n name ∷ []) same,
                  )
              | inl (m, next, lead, found) ↦
                  let s' : Session = visit n name (h n s a).1.0 in
                  let (vs, walk, grown) =
                    steps-Walked k m s' (h n s a).1.1
                      (node_by-All (Sound ns) m.id ns m found sound) in
                  let eq : steps handlers ns (suc k) n s a
                      ≡ steps handlers ns k m s' (h n s a).1.1 =
                    ground (arith, more, registered, e, next) in
                  subst (Walked (suc k) n s a) (sym eq) (
                    visit_of n name ∷ vs,
                    follow more registered e lead found walk,
                    grown
                        ∙ ap (λ l. (l ++ visit_of n name ∷ []) ++ vs) same
                        ∙ append_assoc s.history (visit_of n name ∷ []) vs,
                  )
            ]
          ]
    ]

start_of-total : (ns : List FlowNode) → 1 ≤ starts ns → (n : FlowNode) × (start_of ns ≡ some n)
unfolding start_of
start_of-total [] h = let no : ⊥ = omega arith in elim no [ ]
start_of-total (n ∷ ns) h = elim (Option-cases (start_of ns)) [
  | inr (m, e) ↦ (m, ground (arith, e))
  | inl e ↦ elim (Bool-cases (is_start n.type)) [
    | inl hit ↦ (n, ground (arith, e, hit))
    | inr miss ↦
        let (m, f) = start_of-total ns (ground (arith, h, miss)) in let no : ⊥ = cc in elim no [ ]
  ]
]

pub start_of-All :
    (P : FlowNode → Type 0) (ns : List FlowNode) (m : FlowNode)
    → start_of ns ≡ some m
    → All P ns
    → (is_start m.type ≡ true) × P m
unfolding start_of
start_of-All P [] m h a = let no : ⊥ = cc in elim no [ ]
start_of-All P (n ∷ ns) m h a = elim (Option-cases (start_of ns)) [
  | inr (l, e) ↦ start_of-All P ns m (ground (arith, h, e)) a.1
  | inl e ↦ let same : n ≡ m = ground (arith, h, e) in (ground (arith, h, e), subst P same a.0)
]

All-both :
    {B : Type 0} (P Q : B → Type 0) (xs : List B) → All P xs → All Q xs → All (λ x. P x × Q x) xs
All-both P Q [] a b = tt
All-both P Q (x ∷ xs) a b = ((a.0, b.0), All-both P Q xs a.1 b.1)

engine-Serves :
    {A F : Type 0} (p : Providers A F) (lib : Library F) (json : Json F) (depth : ℕ)
    → Serves (engine p lib json depth)
unfolding engine
engine-Serves p lib json zero = registry-Serves p lib json (λ ns s a. (overflowed, (s, a)))
engine-Serves p lib json (suc depth) =
    registry-Serves p lib json (λ ns. execute (engine p lib json depth) ns)

pub execute-from :
    {A : Type 0} (handlers : NodeType → Option (Handler A)) (ns : List FlowNode) (n : FlowNode)
    (s : Session) (a : A)
    → start_of ns ≡ some n
    → execute handlers ns s a ≡ steps handlers ns 1000 n s a
unfolding execute
execute-from handlers ns n s a e =
    ap
      (λ (o : Option FlowNode). elim o [
        | none ↦ (stopped no_start_node, (s, a))
        | some m ↦ steps handlers ns 1000 m s a
      ])
      e

-- A call that enters a flow which passed validation walks from the start node along the exits that
-- the handlers of its nodes name, or the exit `default` where a node has no exit of that name, and its
-- history records that walk. Execute ends after at most 1000 rounds: without an error at an end node;
-- with an error at a node that has neither the exit named nor `default`, or at the limit of rounds; or
-- not at all, when the handler of a sub flow exhausts the stack.
pub execute-Walked :
    {A F : Type 0} (p : Providers A F) (lib : Library F) (json : Json F) (depth : ℕ)
    (g g' : FlowGraph) (s : Session) (a : A)
    → validate_graph (some g) ≡ ok g'
    → (n : FlowNode) × (vs : List NodeVisit) × (start_of g.nodes ≡ some n)
      × (is_start n.type ≡ true)
      × Walk
          (engine p lib json depth)
          g.nodes
          1000
          n
          s
          a
          vs
          (execute (engine p lib json depth) g.nodes s a).0
      × ((execute (engine p lib json depth) g.nodes s a).1.0.history ≡ s.history ++ vs)
execute-Walked {A} p lib json depth g g' s a valid =
    let v = (validate_graph-IsWellFormed g g' valid).1 in
    let sound = All-both _ _ g.nodes v.known v.exits_lead in
    let (n, here) = start_of-total g.nodes (omega (arith, v.one_start)) in
    let (first, fit) = start_of-All (Sound g.nodes) g.nodes n here sound in
    let (vs, walk, grown) =
      steps-Walked g.nodes (engine p lib json depth) (engine-Serves p lib json depth) sound 1000 n s
        a fit in
    let eq : execute (engine p lib json depth) g.nodes s a
        ≡ steps (engine p lib json depth) g.nodes 1000 n s a =
      execute-from (engine p lib json depth) g.nodes n s a here in
    (
      n,
      vs,
      here,
      first,
      subst
          (λ (r : Ended × (Session × A)). Walk (engine p lib json depth) g.nodes 1000 n s a vs r.0)
          (sym eq) walk,
      subst (λ (r : Ended × (Session × A)). r.1.0.history ≡ s.history ++ vs) (sym eq) grown,
    )
