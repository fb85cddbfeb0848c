-- ===== src/Acd/Ordered.antt =====
-- That the methods of the dispatcher keep the queues in order: internal/application/acd/service.go.
use ccc.Prelude.{
  ℕ, zero, suc, ◌≡◌, sym, some, List, [], ◌∷◌, inl, inr, arith, Bool-cases, Option-cases, ◌==◌,
  List-cases, Result, ltb, leb,
}
use mathlib.Core.Path.{subst}
use ccc.Prelude.Int.{ℤ}
use ccc.Acd.Member.{parse_member}
use ccc.Flow.Validate.Correct.{All}
use ccc.Acd.Queue.{Entry, IsQueue, add_entry, remove_member, insert_entry, comes_before, same_codes}
use ccc.Acd.Order.{remove_member-IsQueue, add_entry-IsQueue}
use ccc.Acd.Overflow.{entry_of}
use ccc.Acd.World.{
  Backend, Env, World, SkillGroup, zrem, zadd, zrange, zcard, sadd, set_at, try_claim,
  release_claim,
}
use ccc.Acd.Service.{
  store, enqueue, claim_and_ring, dispatch_head, dispatch_one, pick_agent, choose,
  lookup_familiar_agent, AcdError,
}

-- Every queue is in order and has each member once, and its entries are of one kind.
abbrev pub InOrder : {S : Type 0} → (Entry → Type 0) → World S → Type 0
InOrder P w = (i : ℕ) → IsQueue (w.queues i) × All P (w.queues i)

abbrev InOrderAll : (Entry → Type 0) → (ℕ → List Entry) → Type 0
InOrderAll P f = (i : ℕ) → IsQueue (f i) × All P (f i)

insert_entry-All :
    (P : Entry → Type 0) (e : Entry) (q : List Entry) → P e → All P q → All P (insert_entry e q)
unfolding insert_entry
insert_entry-All P e [] h a = (h, tt)
insert_entry-All P e (d ∷ q) h a = elim (Bool-cases (comes_before e d)) [
  | inl c ↦ rw c (h, a)
  | inr c ↦ rw c (a.0, insert_entry-All P e q h a.1)
]

remove_member-All :
    (P : Entry → Type 0) (m : List ℕ) (q : List Entry) → All P q → All P (remove_member m q)
unfolding remove_member
remove_member-All P m [] a = tt
remove_member-All P m (d ∷ q) a = elim (Bool-cases (same_codes d.member m)) [
  | inl c ↦ rw c (a.1)
  | inr c ↦ rw c (a.0, remove_member-All P m q a.1)
]

add_entry-All :
    (P : Entry → Type 0) (e : Entry) (q : List Entry) → P e → All P q → All P (add_entry e q)
unfolding add_entry
add_entry-All P e q h a =
    insert_entry-All P e (remove_member e.member q) h (remove_member-All P e.member q a)

module _ (P : Entry → Type 0) where
  InOrder-same : {S : Type 0} (w w' : World S) → w'.queues ≡ w.queues → InOrder P w → InOrder P w'
  InOrder-same w w' same s i = subst (λ f. IsQueue (f i) × All P (f i)) (sym same) (s i)

  set_at-InOrder :
      (id : ℕ) (q : List Entry) (f : ℕ → List Entry)
      → IsQueue q × All P q
      → InOrderAll P f
      → InOrderAll P (set_at id q f)
  set_at-InOrder id q f h s i = elim (Bool-cases (id == i)) [ inl e ↦ rw e h | inr e ↦ rw e (s i) ]

module _ {S : Type 0} (b : Backend S) (env : Env) (P : Entry → Type 0) where
  zadd-InOrder :
      (id : ℕ) (e : Entry) (w : World S) → P e → InOrder P w → InOrder P (zadd env id e w).1
  unfolding zadd
  zadd-InOrder id e w made s = elim (Bool-cases (env.redis_fails w.commands)) [
    | inl f ↦ InOrder-same P w (zadd env id e w).1 (ground (arith, f)) s
    | inr f ↦
        let same : (zadd env id e w).1.queues ≡ set_at id (add_entry e (w.queues id)) w.queues =
          ground (arith, f) in
        subst (InOrderAll P) (sym same) (
          set_at-InOrder P id (add_entry e (w.queues id)) w.queues
            (
              add_entry-IsQueue e (w.queues id) (s id).0,
              add_entry-All P e (w.queues id) made (s id).1,
            )
            s)
  ]

  pub zrem-InOrder :
      (id : ℕ) (m : List ℕ) (w : World S) → InOrder P w → InOrder P (zrem env id m w).1
  unfolding zrem
  zrem-InOrder id m w s = elim (Bool-cases (env.redis_fails w.commands)) [
    | inl f ↦ InOrder-same P w (zrem env id m w).1 (ground (arith, f)) s
    | inr f ↦
        let same : (zrem env id m w).1.queues ≡ set_at id (remove_member m (w.queues id)) w.queues =
          ground (arith, f) in
        subst (InOrderAll P) (sym same) (
          set_at-InOrder P id (remove_member m (w.queues id)) w.queues
            (
              remove_member-IsQueue m (w.queues id) (s id).0,
              remove_member-All P m (w.queues id) (s id).1,
            )
            s)
  ]

  store-InOrder :
      (call : ℤ) (id : ℕ) (priority : ℤ) (now : ℕ) (w : World S)
      → P (entry_of call priority now)
      → InOrder P w
      → InOrder P (store b env call id priority now w).1
  unfolding store sadd
  store-InOrder call id priority now w made s =
      let e = entry_of call priority now in
      let same : (store b env call id priority now w).1.queues ≡ (zadd env id e w).1.queues =
        ground arith in
      InOrder-same P (zadd env id e w).1 (store b env call id priority now w).1 same
        (zadd-InOrder id e w made s)

  release_claim_queues : (a : ℕ) (w : World S) → (release_claim env a w).queues ≡ w.queues
  unfolding release_claim
  release_claim_queues a w = ground arith

  try_claim_queues : (a now : ℕ) (w : World S) → (try_claim env a now w).1.queues ≡ w.queues
  unfolding try_claim
  try_claim_queues a now w = ground arith

  pick_agent_queues :
      (g : SkillGroup) (call : ℤ) (now : ℕ) (w : World S)
      → (pick_agent b env g call now w).1.queues ≡ w.queues
  unfolding pick_agent choose lookup_familiar_agent
  pick_agent_queues g call now w = ground arith

  pub enqueue-InOrder :
      (fuel : ℕ) (call : ℤ) (id : ℕ) (priority : ℤ) (now : ℕ) (w : World S)
      (r : Result AcdError (Unit {0}) × World S)
      → enqueue b env fuel call id priority now w ≡ some r
      → P (entry_of call priority now)
      → InOrder P w
      → InOrder P r.1
  unfolding enqueue zcard
  enqueue-InOrder zero call id priority now w r h made s = cc
  enqueue-InOrder (suc n) call id priority now w r h made s =
      let w' = (zcard env id w).1 in
      elim (Option-cases (b.find_group id w.backend)) [
        | inl e ↦
            let same : r.1 ≡ (store b env call id priority now w).1 = ground (arith, h, e) in
            subst (InOrder P) (sym same) (store-InOrder call id priority now w made s)
        | inr (g, e) ↦ elim (Bool-cases (ltb 0 g.max_queue_size)) [
          | inr f ↦
              let same : r.1 ≡ (store b env call id priority now w).1 = ground (arith, h, e, f) in
              subst (InOrder P) (sym same) (store-InOrder call id priority now w made s)
          | inl f ↦ elim (Bool-cases (leb g.max_queue_size (zcard env id w).0)) [
            | inr k ↦
                let same : r.1 ≡ (store b env call id priority now w').1 =
                  ground (arith, h, e, f, k) in
                subst (InOrder P) (sym same) (store-InOrder call id priority now w' made s)
            | inl k ↦ elim (Option-cases g.overflow_group) [
              | inl last ↦
                  let same : r.1 ≡ w' = ground (arith, h, e, f, k, last) in
                  subst (InOrder P) (sym same) s
              | inr (other, next) ↦
                  enqueue-InOrder n call other priority now w' r (ground (arith, h, e, f, k, next))
                    made s
            ]
          ]
        ]
      ]

  claim_and_ring-InOrder :
      (id now : ℕ) (e : Entry) (call : ℤ) (agent : ℕ) (w : World S)
      → P e
      → InOrder P w
      → InOrder P (claim_and_ring b env id now e call agent w)
  unfolding claim_and_ring
  claim_and_ring-InOrder id now e call agent w made s =
      let w1 = (try_claim env agent now w).1 in
      let s1 : InOrder P w1 = InOrder-same P w w1 (try_claim_queues agent now w) s in
      let w2 = (zrem env id e.member w1).1 in
      let s2 : InOrder P w2 = zrem-InOrder id e.member w1 s1 in
      let rung = b.ring call agent w2.backend in
      let w3 : World S = record w2 { backend = rung.1 } in
      let freed = release_claim env agent w3 in
      elim (Bool-cases (try_claim env agent now w).0) [
        | inr f ↦
            let same : claim_and_ring b env id now e call agent w ≡ w1 = ground (arith, f) in
            subst (InOrder P) (sym same) s1
        | inl f ↦ elim (Bool-cases (zrem env id e.member w1).0) [
          | inr k ↦
              let same : claim_and_ring b env id now e call agent w ≡ release_claim env agent w2 =
                ground (arith, f, k) in
              subst (InOrder P) (sym same)
                (InOrder-same P w2 (release_claim env agent w2) (release_claim_queues agent w2) s2)
          | inl k ↦ elim (Bool-cases rung.0) [
            | inl r ↦
                let same : claim_and_ring b env id now e call agent w ≡ w3 =
                  ground (arith, f, k, r) in
                subst (InOrder P) (sym same) s2
            | inr r ↦
                let same : claim_and_ring b env id now e call agent w ≡ (zadd env id e freed).1 =
                  ground (arith, f, k, r) in
                subst (InOrder P) (sym same) (
                  zadd-InOrder id e freed made
                    (InOrder-same P w3 freed (release_claim_queues agent w3) s2))
          ]
        ]
      ]

  dispatch_head-InOrder :
      (id : ℕ) (g : SkillGroup) (now : ℕ) (e : Entry) (w : World S)
      → P e
      → InOrder P w
      → InOrder P (dispatch_head b env id g now e w)
  unfolding dispatch_head
  dispatch_head-InOrder id g now e w made s = elim (Option-cases (parse_member e.member)) [
    | inl n ↦
        let same : dispatch_head b env id g now e w ≡ (zrem env id e.member w).1 =
          ground (arith, n) in
        subst (InOrder P) (sym same) (zrem-InOrder id e.member w s)
    | inr ((call, ms), n) ↦
        let agent = (pick_agent b env g call now w).0 in
        let w' = (pick_agent b env g call now w).1 in
        let s' : InOrder P w' = InOrder-same P w w' (pick_agent_queues g call now w) s in
        elim (Bool-cases (agent == 0)) [
          | inl z ↦
              let same : dispatch_head b env id g now e w ≡ w' = ground (arith, n, z) in
              subst (InOrder P) (sym same) s'
          | inr z ↦
              let same : dispatch_head b env id g now e w
                  ≡ claim_and_ring b env id now e call agent w' =
                ground (arith, n, z) in
              subst (InOrder P) (sym same) (claim_and_ring-InOrder id now e call agent w' made s')
        ]
  ]

  pub dispatch_one-InOrder :
      (id : ℕ) (g : SkillGroup) (now : ℕ) (w : World S)
      → InOrder P w
      → InOrder P (dispatch_one b env id g now w)
  unfolding dispatch_one zrange
  dispatch_one-InOrder id g now w s =
      let w' = (zrange env id w).1 in
      elim (List-cases (zrange env id w).0) [
        | inl n ↦
            let same : dispatch_one b env id g now w ≡ w' = ground (arith, n) in
            subst (InOrder P) (sym same) s
        | inr (e, q, n) ↦
            let same : dispatch_one b env id g now w ≡ dispatch_head b env id g now e w' =
              ground (arith, n) in
            let at : w.queues id ≡ e ∷ q = ground (arith, n) in
            let all : All P (e ∷ q) = subst (All P) at (s id).1 in
            subst (InOrder P) (sym same) (dispatch_head-InOrder id g now e w' all.0 s)
      ]
