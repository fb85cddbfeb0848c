-- ===== src/Flow/Validate/Correct.antt =====
-- ValidateGraph accepts exactly the well-formed graphs.
use ccc.Prelude.{
  ℕ, suc, ◌+◌, ◌≤◌, ◌≡◌, ◌↔◌, refl, ap, String, true, some, List, [], ◌∷◌, arith, length,
  if◌then◌else◌, ok, inl, inr,
}
use mathlib.Core.Path.{subst}
use text.Mathlib.TextEquality.{eq_iff}
use ccc.Flow.Names.{
  elem, Distinct, Within, elem_self, elem_cases, length-le_of_Within, Within-of_length,
  Distinct-of_length,
}
use ccc.Flow.Graph.{
  FlowNode, FlowGraph, targets, targets_of, ids, is_start, is_end, is_known, Reach, begin, exit,
}
use ccc.Flow.Search.{search_from_total, exits_left}
use ccc.Flow.Search.Explored.{Explored, search_from-Explored}
use ccc.Flow.Validate.{
  one_if, count_nodes, targets_exist, exits_exist, start_id, reachable, validate_graph,
}

abbrev pub All {ℓ} : {A : Type ℓ} → (A → Type 0) → List A → Type 0
All P [] = Unit
All P (x ∷ xs) = P x × All P xs

abbrev pub starts : List FlowNode → ℕ
starts [] = 0
starts (n ∷ ns) = (if is_start n.type then 1 else 0) + starts ns

abbrev pub ends : List FlowNode → ℕ
ends [] = 0
ends (n ∷ ns) = (if is_end n.type then 1 else 0) + ends ns

-- One start, an end, known types, names used once, exits that lead to nodes, and no node that the
-- start does not reach.
pub record IsWellFormed (ns : List FlowNode) : Type 0 where
  pub known : All (λ n. is_known n.type ≡ true) ns
  pub one_start : starts ns ≡ 1
  pub some_end : 1 ≤ ends ns
  pub exits_lead : All (λ n. All (λ t. elem t (ids ns) ≡ true) (targets n.exits)) ns
  pub distinct : Distinct (ids ns)
  pub connected : (x : String) → elem x (ids ns) ≡ true → Reach ns (start_id ns) x

count_nodes-ok :
    (ns : List FlowNode) (s e s' e' : ℕ)
    → count_nodes ns s e ≡ ok (s', e')
    → All (λ n. is_known n.type ≡ true) ns × (s' ≡ s + starts ns) × (e' ≡ e + ends ns)
unfolding count_nodes
count_nodes-ok [] s e s' e' h = (tt, ground arith, ground arith)
count_nodes-ok (n ∷ ns) s e s' e' h =
    ground (arith, count_nodes-ok ns (one_if (is_start n.type) s) (one_if (is_end n.type) e) s' e')

ok-count_nodes :
    (ns : List FlowNode) (s e : ℕ)
    → All (λ n. is_known n.type ≡ true) ns
    → count_nodes ns s e ≡ ok (s + starts ns, e + ends ns)
unfolding count_nodes
ok-count_nodes [] s e h = ground arith
ok-count_nodes (n ∷ ns) s e h =
    ground (arith, ok-count_nodes ns (one_if (is_start n.type) s) (one_if (is_end n.type) e) h.1)

targets_exist_iff :
    (known ts : List String) → (targets_exist known ts ≡ true) ↔ All (λ t. elem t known ≡ true) ts
unfolding targets_exist
targets_exist_iff known [] = (λ h. tt, λ h. refl)
targets_exist_iff known (t ∷ ts) = ground (arith, targets_exist_iff known ts)

exits_exist_iff :
    (known : List String) (ns : List FlowNode)
    → (exits_exist known ns ≡ true) ↔ All (λ n. All (λ t. elem t known ≡ true) (targets n.exits)) ns
unfolding exits_exist
exits_exist_iff known [] = (λ h. tt, λ h. refl)
exits_exist_iff known (n ∷ ns) =
    ground (arith, targets_exist_iff known (targets n.exits), exits_exist_iff known ns)

length-ids : (ns : List FlowNode) → length (ids ns) ≡ length ns
length-ids [] = refl
length-ids (n ∷ ns) = ap suc (length-ids ns)

-- A graph with a start node has its name.
elem-start_id : (ns : List FlowNode) → 1 ≤ starts ns → elem (start_id ns) (ids ns) ≡ true
unfolding elem start_id
elem-start_id [] h = absurd (omega arith)
elem-start_id (n ∷ ns) h = ground (arith, elem-start_id ns, eq_iff n.id n.id)

start-Explored : (ns : List FlowNode) (s : String) → Explored ns s (s ∷ []) []
unfolding elem
start-Explored ns s = record {
  distinct = tt;
  reached = λ x h. cc;
  queued = λ x h. elim (elem_cases s x [] h) [ inl e ↦ subst (Reach ns s) e begin | inr k ↦ cc ];
  closed = λ x t h k. cc;
  rooted = inr (elem_self s []);
}

-- The search ends within its fuel, and reaches distinct names: those that the exits lead to.
pub reachable-Explored : (ns : List FlowNode) → Explored ns (start_id ns) [] (reachable ns)
unfolding reachable
reachable-Explored ns =
    let (r, e) =
      search_from_total ns (suc (exits_left ns [])) (start_id ns ∷ []) [] (omega arith) in
    rw e (
      search_from-Explored ns (start_id ns) (suc (exits_left ns [])) (start_id ns ∷ []) [] e
        (start-Explored ns (start_id ns)))

-- All that the exits reach from the start is found.
reachable_complete :
    (ns : List FlowNode) {x : String} → Reach ns (start_id ns) x → elem x (reachable ns) ≡ true
unfolding elem
reachable_complete ns begin = ground (arith, (reachable-Explored ns).rooted)
reachable_complete ns (exit {x = y} {t = t} r h) =
    ground (arith, (reachable-Explored ns).closed y t (reachable_complete ns r) h)

-- Where exits lead to nodes, so does a path.
target_in :
    (ns ms : List FlowNode) (x t : String)
    → All (λ n. All (λ u. elem u (ids ms) ≡ true) (targets n.exits)) ns
    → elem t (targets_of x ns) ≡ true
    → elem t (ids ms) ≡ true
unfolding elem targets_of
target_in [] ms x t h k = cc
target_in (n ∷ ns) ms x t h k =
    ground (arith, in_list (targets n.exits) h.0, target_in ns ms x t h.1)
  where
    in_list :
        (ts : List String)
        → All (λ u. elem u (ids ms) ≡ true) ts
        → elem t ts ≡ true
        → elem t (ids ms) ≡ true
    in_list [] a b = cc
    in_list (u ∷ ts) a b = ground (arith, in_list ts a.1, eq_iff u t)

Reach-in :
    (ns : List FlowNode)
    → 1 ≤ starts ns
    → All (λ n. All (λ u. elem u (ids ns) ≡ true) (targets n.exits)) ns
    → {x : String} → Reach ns (start_id ns) x
    → elem x (ids ns) ≡ true
Reach-in ns s a begin = elem-start_id ns s
Reach-in ns s a (exit {x = y} {t = t} r h) = target_in ns ns y t a h

-- Of a graph whose exits lead to nodes, the search reaches as many names as there are nodes exactly
-- if names are used once and the start reaches every node.
length-reachable_iff :
    (ns : List FlowNode)
    → 1 ≤ starts ns
    → All (λ n. All (λ u. elem u (ids ns) ≡ true) (targets n.exits)) ns
    → (length (reachable ns) ≡ length ns)
      ↔ (Distinct (ids ns) × ((x : String) → elem x (ids ns) ≡ true → Reach ns (start_id ns) x))
length-reachable_iff ns s a = (
  (λ e. (
    Distinct-of_length (ids ns) (reachable ns) found.distinct inside
        (omega (arith, e, length-ids ns)),
    λ x h. found.reached x (
        Within-of_length (reachable ns) (ids ns) found.distinct inside
          (omega (arith, e, length-ids ns)) x h),
  )),
  (λ d. omega (
    arith,
    length-ids ns,
    length-le_of_Within (reachable ns) (ids ns) found.distinct inside,
    length-le_of_Within (ids ns) (reachable ns) d.0 (λ x h. reachable_complete ns (d.1 x h)),
  )),
)
  where
    found : Explored ns (start_id ns) [] (reachable ns)
    found = reachable-Explored ns

    inside : Within (reachable ns) (ids ns)
    inside x h = Reach-in ns s a (found.reached x h)

starts-le-length : (ns : List FlowNode) → starts ns ≤ length ns
starts-le-length [] = omega arith
starts-le-length (n ∷ ns) = ground (arith, starts-le-length ns)

passed :
    (g g' : FlowGraph)
    → validate_graph (some g) ≡ ok g'
    → (c : ℕ × ℕ) × (count_nodes g.nodes 0 0 ≡ ok c)
      × (g' ≡ g)
      × (c.0 ≡ 1)
      × (1 ≤ c.1)
      × (exits_exist (ids g.nodes) g.nodes ≡ true)
      × (length (reachable g.nodes) ≡ length g.nodes)
unfolding validate_graph
passed g g' h = ground arith

-- What passes validation is the graph that was decoded, and it is well formed.
pub validate_graph-IsWellFormed :
    (g g' : FlowGraph) → validate_graph (some g) ≡ ok g' → (g' ≡ g) × IsWellFormed g.nodes
validate_graph-IsWellFormed g g' h =
    let (c, counted, same, one, some_ends, exits, len) = passed g g' h in
    let (known, s, e) = count_nodes-ok g.nodes 0 0 c.0 c.1 counted in
    let lead = (exits_exist_iff (ids g.nodes) g.nodes).0 exits in
    let (once, reach) = (length-reachable_iff g.nodes (omega (arith, s, one)) lead).0 len in
    (
      same,
      record {
        known = known;
        one_start = omega (arith, s, one);
        some_end = omega (arith, e, some_ends);
        exits_lead = lead;
        distinct = once;
        connected = reach;
      },
    )

-- Every well-formed graph passes validation.
pub validate_graph_complete :
    (g : FlowGraph) → IsWellFormed g.nodes → validate_graph (some g) ≡ ok g
unfolding validate_graph
validate_graph_complete g v =
    let len =
      (length-reachable_iff g.nodes (omega (arith, v.one_start)) v.exits_lead).1
        (v.distinct, v.connected) in
    let exits = (exits_exist_iff (ids g.nodes) g.nodes).1 v.exits_lead in
    ground (
      arith,
      ok-count_nodes g.nodes 0 0 v.known,
      exits,
      len,
      v.one_start,
      v.some_end,
      starts-le-length g.nodes,
    )
