-- ===== src/Flow/Search/Explored.antt =====
-- What the reachability search holds between its rounds, and so at its end.
use mathlib.Core.Path.{subst}
use text.Mathlib.TextEquality.{eq_iff}
use ccc.Prelude.{
  ℕ, zero, suc, ◌≡◌, String, true, false, some, List, [], ◌∷◌, ◌++◌, ◌⊎◌, inl, inr, arith,
  Bool-cases,
}
use ccc.Flow.Names.{elem, Distinct, elem_self, elem_later, elem_cases, elem-append}
use ccc.Flow.Graph.{FlowNode, targets_of, Reach, exit}
use ccc.Flow.Search.{fresh, search_from}

fresh_cases :
    (t : String) (r ts : List String)
    → elem t ts ≡ true
    → (elem t r ≡ true) ⊎ (elem t (fresh r ts) ≡ true)
unfolding fresh elem
fresh_cases t r [] h = cc
fresh_cases t r (u ∷ ts) h = ground (arith, fresh_cases t r ts, eq_iff u t)

elem_of_fresh : (t : String) (r ts : List String) → elem t (fresh r ts) ≡ true → elem t ts ≡ true
unfolding fresh elem
elem_of_fresh t r [] h = h
elem_of_fresh t r (u ∷ ts) h = ground (arith, elem_of_fresh t r ts)

-- Between two rounds, for a search from `s` with queue `q` and reached names `r`: only what can be
-- reached is in either, and an exit of a reached node leads to a reached or a queued one.
pub record Explored (ns : List FlowNode) (s : String) (q r : List String) : Type 0 where
  pub distinct : Distinct r
  pub reached : (x : String) → elem x r ≡ true → Reach ns s x
  pub queued : (x : String) → elem x q ≡ true → Reach ns s x
  pub closed :
      (x t : String)
      → elem x r ≡ true
      → elem t (targets_of x ns) ≡ true
      → (elem t r ≡ true) ⊎ (elem t q ≡ true)
  pub rooted : (elem s r ≡ true) ⊎ (elem s q ≡ true)

module _ (ns : List FlowNode) (s c : String) (q r : List String) where
  -- A name that is reached already is dropped from the queue.
  dropped :
      (x : String)
      → elem c r ≡ true
      → (elem x r ≡ true) ⊎ (elem x (c ∷ q) ≡ true)
      → (elem x r ≡ true) ⊎ (elem x q ≡ true)
  dropped x seen (inl h) = inl h
  dropped x seen (inr h) = elim (elem_cases c x q h) [
    | inl e ↦ inl (rw (← e) seen)
    | inr later ↦ inr later
  ]

  Explored-skip : elem c r ≡ true → Explored ns s (c ∷ q) r → Explored ns s q r
  Explored-skip seen e = record {
    distinct = e.distinct;
    reached = e.reached;
    queued = λ x h. e.queued x (elem_later c x q h);
    closed = λ x t h k. dropped t seen (e.closed x t h k);
    rooted = dropped s seen e.rooted;
  }

  abbrev grown : List String
  grown = q ++ fresh (c ∷ r) (targets_of c ns)

  -- A new name moves from the queue to those reached.
  moved :
      (x : String)
      → (elem x r ≡ true) ⊎ (elem x (c ∷ q) ≡ true)
      → (elem x (c ∷ r) ≡ true) ⊎ (elem x grown ≡ true)
  moved x (inl h) = inl (elem_later c x r h)
  moved x (inr h) = elim (elem_cases c x q h) [
    | inl e ↦ inl (rw (← e) (elem_self c r))
    | inr later ↦ inr (rw (elem-append x q (fresh (c ∷ r) (targets_of c ns)), later))
  ]

  visited_exit :
      (x t : String)
      → Explored ns s (c ∷ q) r
      → (c ≡ x) ⊎ (elem x r ≡ true)
      → elem t (targets_of x ns) ≡ true
      → (elem t (c ∷ r) ≡ true) ⊎ (elem t grown ≡ true)
  visited_exit x t e (inr h) k = moved t (e.closed x t h k)
  visited_exit x t e (inl p) k = elim (fresh_cases t (c ∷ r) (targets_of c ns) (rw p k)) [
    | inl h ↦ inl h
    | inr h ↦ inr (ground (arith, elem-append t q (fresh (c ∷ r) (targets_of c ns))))
  ]

  grown_reach : (x : String) → Explored ns s (c ∷ q) r → elem x grown ≡ true → Reach ns s x
  grown_reach x e h = elim (Bool-cases (elem x q)) [
    | inl old ↦ e.queued x (elem_later c x q old)
    | inr new ↦
        let f : elem x (fresh (c ∷ r) (targets_of c ns)) ≡ true =
          ground (arith, elem-append x q (fresh (c ∷ r) (targets_of c ns))) in
        exit (e.queued c (elem_self c q)) (elem_of_fresh x (c ∷ r) (targets_of c ns) f)
  ]

  Explored-visit : elem c r ≡ false → Explored ns s (c ∷ q) r → Explored ns s grown (c ∷ r)
  Explored-visit new e = record {
    distinct = (new, e.distinct);
    reached = λ x h. elim (elem_cases c x r h) [
      | inl p ↦ rw (← p) (e.queued c (elem_self c q))
      | inr k ↦ e.reached x k
    ];
    queued = λ x h. grown_reach x e h;
    closed = λ x t h k. visited_exit x t e (elem_cases c x r h) k;
    rooted = moved s e.rooted;
  }

pub search_from-Explored :
    (ns : List FlowNode) (s : String) (f : ℕ) (q r : List String) {r' : List String}
    → search_from ns f q r ≡ some r'
    → Explored ns s q r
    → Explored ns s [] r'
unfolding search_from
search_from-Explored ns s f [] r h e = subst (Explored ns s []) (cc) e
search_from-Explored ns s zero (c ∷ q) r h e = cc
search_from-Explored ns s (suc f) (c ∷ q) r h e = elim (Bool-cases (elem c r)) [
  | inl seen ↦ search_from-Explored ns s f q r (rw seen at h) (Explored-skip ns s c q r seen e)
  | inr new ↦
      search_from-Explored ns s f (q ++ fresh (c ∷ r) (targets_of c ns)) (c ∷ r) (rw new at h)
        (Explored-visit ns s c q r new e)
]
