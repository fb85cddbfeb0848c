-- ===== src/Flow/Search.antt =====
-- The reachability search of ValidateGraph (internal/domain/routing/validator.go).
pub mod Explored
use ccc.Prelude.{
  ℕ, zero, suc, ◌+◌, ◌≤◌, ◌≡◌, refl, String, Bool, true, false, Option, none, some, List, [], ◌∷◌,
  ◌++◌, inl, inr, arith, length, length-append, if◌then◌else◌, Bool-cases,
}
use text.Mathlib.TextEquality.{eq_iff}
use ccc.Flow.Names.{◌==◌, elem}
use ccc.Flow.Graph.{FlowNode, targets, targets_of}

-- The targets that are not reached yet, in order.
unfoldable pub fresh : List String → List String → List String
fresh r [] = []
fresh r (t ∷ ts) = if elem t r then fresh r ts else t ∷ fresh r ts

-- `for len(queue) > 0`, on fuel: none means that the fuel ran out.
unfoldable pub search_from : List FlowNode → ℕ → List String → List String → Option (List String)
search_from ns f [] r = some r
search_from ns zero (c ∷ q) r = none
search_from ns (suc f) (c ∷ q) r =
    let skip = search_from ns f q r in
    let visit = search_from ns f (q ++ fresh (c ∷ r) (targets_of c ns)) (c ∷ r) in
    if elem c r then skip else visit

-- All exits of the nodes that are not reached.
abbrev pub exits_left : List FlowNode → List String → ℕ
exits_left [] r = 0
exits_left (n ∷ ns) r = (if elem n.id r then 0 else length (targets n.exits)) + exits_left ns r

length-fresh : (r ts : List String) → length (fresh r ts) ≤ length ts
unfolding fresh
length-fresh r [] = omega arith
length-fresh r (t ∷ ts) = ground (arith, length-fresh r ts)

exits_left_mono :
    (ns : List FlowNode) (c : String) (r : List String) → exits_left ns (c ∷ r) ≤ exits_left ns r
unfolding elem
exits_left_mono [] c r = omega arith
exits_left_mono (n ∷ ns) c r = ground (arith, exits_left_mono ns c r)

exits_left-visit :
    (ns : List FlowNode) (c : String) (r : List String)
    → elem c r ≡ false
    → length (targets_of c ns) + exits_left ns (c ∷ r) ≤ exits_left ns r
unfolding elem targets_of
exits_left-visit [] c r h = omega arith
exits_left-visit (n ∷ ns) c r h =
    ground (arith, exits_left-visit ns c r h, exits_left_mono ns c r, eq_iff n.id c, eq_iff c n.id)

-- Fuel for the queue and for each exit that is left is enough.
pub search_from_total :
    (ns : List FlowNode) (f : ℕ) (q r : List String)
    → length q + exits_left ns r ≤ f
    → (r' : List String) × (search_from ns f q r ≡ some r')
unfolding search_from
search_from_total ns f [] r h = (r, refl)
search_from_total ns zero (c ∷ q) r h = absurd (omega arith)
search_from_total ns (suc f) (c ∷ q) r h = elim (Bool-cases (elem c r)) [
  | inl seen ↦ rw seen (search_from_total ns f q r (omega arith))
  | inr new ↦ rw new (
      search_from_total ns f (q ++ fresh (c ∷ r) (targets_of c ns)) (c ∷ r) (
        omega (
          arith,
          length-append q (fresh (c ∷ r) (targets_of c ns)),
          length-fresh (c ∷ r) (targets_of c ns),
          exits_left-visit ns c r new,
        )))
]
