-- ===== src/Ivr/Walk.antt =====
-- internal/application/ivr/engine.go: what Execute does to a call, as a walk along the exits of the
-- flow's nodes.
use ccc.Prelude.{
  ℕ, zero, suc, ◌≡◌, ◌⊎◌, inl, inr, String, true, false, Option, none, some, List, [], ◌∷◌, arith,
  Bool-cases, Option-cases,
}
use mathlib.Core.Path.{subst}
use text.Mathlib.TextEquality.{eq_iff}
use ccc.Flow.Names.{◌==◌, elem}
use ccc.Flow.Graph.{NodeType, sub_flow, FlowNode, ids, targets, is_end}
use ccc.Flow.Validate.Correct.{All}
use ccc.Ivr.Variables.{lookup}
use ccc.Ivr.Session.{NodeVisit, Session, Handler, leaves, overflows, visit}
use ccc.Ivr.Engine.{Ended, finished, stopped, overflowed, no_exit, max_steps_exceeded, node_by}

abbrev pub visit_of : FlowNode → String → NodeVisit
visit_of n name = record { node_id = n.id; node_type = n.type; exit_name = name }

-- The target of the exit that the handler named, or of the exit `default` if the node has no exit
-- of that name.
abbrev pub LeadsTo : FlowNode → String → String → Type 0
LeadsTo n name t =
    (lookup name n.exits ≡ some t)
    ⊎ ((lookup name n.exits ≡ none) × (lookup "default" n.exits ≡ some t))

-- A walk of at most so many rounds from a node, with a session and what lies outside of it: its
-- visits, and how it ends. At each node its handler acts, and the exit followed is the one that the
-- handler named.
pub data Walk {A : Type 0} (handlers : NodeType → Option (Handler A)) (ns : List FlowNode)
    : ℕ → FlowNode → Session → A → List NodeVisit → Ended → Type 0 where
  arrive :
      {k : ℕ} {n : FlowNode} {s : Session} {a : A}
      → is_end n.type ≡ true
      → Walk handlers ns (suc k) n s a (visit_of n "" ∷ []) finished
  follow :
      {k : ℕ} {n m : FlowNode} {s : Session} {a : A} {h : Handler A} {name : String}
      {vs : List NodeVisit} {e : Ended}
      → is_end n.type ≡ false
      → handlers n.type ≡ some h
      → (h n s a).0 ≡ leaves name
      → LeadsTo n name m.id
      → node_by m.id ns ≡ some m
      → Walk handlers ns k m (visit n name (h n s a).1.0) (h n s a).1.1 vs e
      → Walk handlers ns (suc k) n s a (visit_of n name ∷ vs) e
  dead_end :
      {k : ℕ} {n : FlowNode} {s : Session} {a : A} {h : Handler A} {name : String}
      → is_end n.type ≡ false
      → handlers n.type ≡ some h
      → (h n s a).0 ≡ leaves name
      → lookup name n.exits ≡ none
      → lookup "default" n.exits ≡ none
      → Walk handlers ns (suc k) n s a (visit_of n name ∷ []) (stopped no_exit)
  tire :
      {n : FlowNode} {s : Session} {a : A}
      → Walk handlers ns zero n s a [] (stopped max_steps_exceeded)
  overflow :
      {k : ℕ} {n : FlowNode} {s : Session} {a : A} {h : Handler A}
      → n.type ≡ sub_flow
      → handlers n.type ≡ some h
      → (h n s a).0 ≡ overflows
      → Walk handlers ns (suc k) n s a [] overflowed

pub node_by-id : (i : String) (ns : List FlowNode) (m : FlowNode) → node_by i ns ≡ some m → m.id ≡ i
unfolding node_by
node_by-id i [] m h = ground arith
node_by-id i (n ∷ ns) m h = ground (arith, node_by-id i ns m, eq_iff n.id i)

pub node_by-All :
    (P : FlowNode → Type 0) (i : String) (ns : List FlowNode) (m : FlowNode)
    → node_by i ns ≡ some m
    → All P ns
    → P m
unfolding node_by
node_by-All P i [] m h a = let no : ⊥ = cc in elim no [ ]
node_by-All P i (n ∷ ns) m h a = elim (Option-cases (node_by i ns)) [
  | inr (l, e) ↦ node_by-All P i ns m (ground (arith, h, e)) a.1
  | inl e ↦ subst P (ground (arith, h, e)) a.0
]

pub node_by-total :
    (i : String) (ns : List FlowNode)
    → elem i (ids ns) ≡ true
    → (m : FlowNode) × (node_by i ns ≡ some m)
unfolding node_by elem
node_by-total i [] h = let no : ⊥ = cc in elim no [ ]
node_by-total i (n ∷ ns) h = elim (Option-cases (node_by i ns)) [
  | inr (l, e) ↦ (l, ground (arith, e))
  | inl e ↦ elim (Bool-cases (n.id == i)) [
    | inl hit ↦ (n, ground (arith, e, hit))
    | inr miss ↦
        let (m, f) = node_by-total i ns (ground (arith, h, miss)) in (m, ground (arith, e, f))
  ]
]

pub lookup-elem :
    (x t : String) (es : List (String × String)) → lookup x es ≡ some t → elem t (targets es) ≡ true
unfolding lookup elem
lookup-elem x t [] h = ground arith
lookup-elem x t ((k, v) ∷ es) h = ground (arith, lookup-elem x t es, eq_iff v t)
