-- ===== src/Acd/Overflow.antt =====
-- Full queues and the groups that they overflow to: internal/application/acd/service.go, Enqueue.
use ccc.Prelude.{
  List, ℕ, zero, suc, ◌+◌, ◌≤◌, ◌<◌, ◌≡◌, refl, sym, false, Option, none, some, ◌⊎◌, inl, inr,
  arith, Option-cases, Bool-cases, ltb, leb, length, if◌then◌else◌, Result, ok, err,
}
use mathlib.Core.Path.{subst}
use ccc.Prelude.Int.{ℤ, pos}
use ccc.Acd.Member.{member_for}
use ccc.Acd.Queue.{Entry, score_for, add_entry}
use ccc.Acd.World.{Backend, Env, World, SkillGroup, zadd, sadd, zcard, set_at}
use ccc.Acd.Service.{AcdError, queue_full, store, enqueue}

abbrev pub entry_of : ℤ → ℤ → ℕ → Entry
entry_of call priority now = record {
  score = score_for priority now;
  member = member_for call (pos now);
}

-- The queue of a group is full.
abbrev pub IsFull : SkillGroup → List Entry → Type 0
IsFull g q = (0 < g.max_queue_size) × (g.max_queue_size ≤ length q)

-- From one group full ones lead to another, each by its overflow group.
pub data Leads {S : Type 0} (b : Backend S) (s : S) (queues : ℕ → List Entry) : ℕ → ℕ → Type 0 where
  here : {id : ℕ} → Leads b s queues id id
  on :
      {id other last : ℕ} {g : SkillGroup}
      → b.find_group id s ≡ some g
      → IsFull g (queues id)
      → g.overflow_group ≡ some other
      → Leads b s queues other last
      → Leads b s queues id last

module _ {S : Type 0} (b : Backend S) (env : Env) where
  -- Where a full queue sends its calls.
  abbrev pub overflow_of : Option SkillGroup → Option ℕ
  overflow_of none = none
  overflow_of (some g) = if ltb 0 g.max_queue_size then g.overflow_group else none

  -- The chain of groups that overflow into each other ends within `n` of them.
  abbrev pub Ends : ℕ → ℕ → S → Type 0
  Ends zero id s = ⊥
  Ends (suc n) id s =
      (overflow_of (b.find_group id s) ≡ none)
      ⊎ ((other : ℕ) × (overflow_of (b.find_group id s) ≡ some other) × Ends n other s)

  -- Enqueue returns when the chain of overflow groups ends, whatever Redis answers.
  enqueue_total :
      (n : ℕ) (call : ℤ) (id : ℕ) (priority : ℤ) (now : ℕ) (w : World S)
      → Ends n id w.backend
      → (r : Result AcdError (Unit {0}) × World S) × (enqueue b env n call id priority now w
          ≡ some r)
  unfolding enqueue zcard
  enqueue_total zero call id priority now w h = elim h [ ]
  enqueue_total (suc n) call id priority now w h = elim (Option-cases (b.find_group id w.backend)) [
    | inl e ↦ (store b env call id priority now w, ground (arith, e))
    | inr (g, e) ↦ elim (Bool-cases (ltb 0 g.max_queue_size)) [
      | inr f ↦ (store b env call id priority now w, ground (arith, e, f))
      | inl f ↦
          let w' = (zcard env id w).1 in
          elim (Bool-cases (leb g.max_queue_size (zcard env id w).0)) [
            | inr k ↦ (store b env call id priority now w', ground (arith, e, f, k))
            | inl k ↦ elim h [
              | inl last ↦
                  let stops : g.overflow_group ≡ none = ground (arith, last, e, f) in
                  ((err queue_full, w'), grind (arith, e, f, k, stops))
              | inr (other, next, rest) ↦
                  let (r, got) = enqueue_total n call other priority now w' rest in
                  let goes : g.overflow_group ≡ some other = ground (arith, next, e, f) in
                  (r, grind (arith, e, f, k, goes, got))
            ]
          ]
    ]
  ]

  -- The limit of a queue; 0 is none.
  abbrev pub limit_of : Option SkillGroup → ℕ
  limit_of none = 0
  limit_of (some g) = g.max_queue_size

  -- The group has room for one more call, as far as it limits its queue.
  abbrev pub HasRoom : World S → ℕ → Type 0
  HasRoom w id =
      (limit_of (b.find_group id w.backend) ≡ 0)
      ⊎ (length (w.queues id) < limit_of (b.find_group id w.backend))

  -- The queue is full, and the group has no other to send calls to.
  abbrev pub IsLast : World S → ℕ → Type 0
  IsLast w id =
      (g : SkillGroup) × (b.find_group id w.backend ≡ some g)
      × IsFull g (w.queues id)
      × (g.overflow_group ≡ none)

  -- What Enqueue leaves of a call for a group: the call in the first queue on the way of its overflow
  -- groups that has room, or, where the way ends in a full one, an error and the queues as they were.
  abbrev pub Placed : ℕ → ℤ → ℤ → ℕ → World S → Result AcdError (Unit {0}) × World S → Type 0
  Placed group call priority now w (r, w') =
      ((id : ℕ) × Leads b w.backend w.queues group id
        × (r ≡ ok tt)
        × HasRoom w id
        × (w'.queues ≡ set_at id (add_entry (entry_of call priority now) (w.queues id)) w.queues))
      ⊎ ((id : ℕ) × Leads b w.backend w.queues group id
          × IsLast w id
          × (r ≡ err queue_full)
          × (w'.queues ≡ w.queues))

  -- What a group that is full passes on.
  Placed-on :
      (group other : ℕ) (g : SkillGroup) (call priority : ℤ) (now : ℕ) (w : World S)
      (r : Result AcdError (Unit {0}) × World S)
      → b.find_group group w.backend ≡ some g
      → IsFull g (w.queues group)
      → g.overflow_group ≡ some other
      → Placed other call priority now (record w { commands = w.commands + 1 }) r
      → Placed group call priority now w r
  Placed-on group other g call priority now w r e full next placed = elim placed [
    | inl (id, leads, stored, room, queues) ↦ inl (id, on e full next leads, stored, room, queues)
    | inr (id, leads, last, refused, kept) ↦ inr (id, on e full next leads, last, refused, kept)
  ]

  store-Placed :
      (call : ℤ) (id : ℕ) (priority : ℤ) (now : ℕ) (w : World S)
      → ((n : ℕ) → env.redis_fails n ≡ false)
      → HasRoom w id
      → Placed id call priority now w (store b env call id priority now w)
  unfolding store zadd sadd
  store-Placed call id priority now w never room =
      inl (id, here, grind (arith, never), room, grind (arith, never))

  enqueue-Placed :
      (fuel : ℕ) (call : ℤ) (id : ℕ) (priority : ℤ) (now : ℕ) (w : World S)
      (r : Result AcdError (Unit {0}) × World S)
      → ((n : ℕ) → env.redis_fails n ≡ false)
      → enqueue b env fuel call id priority now w ≡ some r
      → Placed id call priority now w r
  unfolding enqueue zcard
  enqueue-Placed zero call id priority now w r never h = cc
  enqueue-Placed (suc n) call id priority now w r never h =
      elim (Option-cases (b.find_group id w.backend)) [
        | inl e ↦
            let same : r ≡ store b env call id priority now w = ground (arith, h, e) in
            subst (Placed id call priority now w) (sym same)
              (store-Placed call id priority now w never (inl (ground (arith, e))))
        | inr (g, e) ↦ elim (Bool-cases (ltb 0 g.max_queue_size)) [
          | inr f ↦
              let same : r ≡ store b env call id priority now w = ground (arith, h, e, f) in
              subst (Placed id call priority now w) (sym same)
                (store-Placed call id priority now w never (inl (ground (arith, e, f))))
          | inl f ↦
              let w' = (zcard env id w).1 in
              elim (Bool-cases (leb g.max_queue_size (length (w.queues id)))) [
                | inr k ↦
                    let same : r ≡ store b env call id priority now w' =
                      grind (arith, never, h, e, f, k) in
                    subst (Placed id call priority now w) (sym same)
                      (store-Placed call id priority now w' never (inr (ground (arith, e, f, k))))
                | inl k ↦
                    let full : IsFull g (w.queues id) = (ground (arith, f), ground (arith, k)) in
                    elim (Option-cases g.overflow_group) [
                      | inl last ↦
                          let same : r ≡ (err queue_full, w') =
                            grind (arith, never, h, e, f, k, last) in
                          subst (Placed id call priority now w) (sym same)
                            (inr (id, here, (g, e, full, last), refl, refl))
                      | inr (other, next) ↦ Placed-on id other g call priority now w r e full next (
                          enqueue-Placed n call other priority now w' r never
                            (grind (arith, never, h, e, f, k, next)))
                    ]
              ]
        ]
      ]

  -- While Redis answers and the chain of overflow groups ends, Enqueue returns: with the call in the
  -- first queue on the way of the overflow groups that has room and all others as they were, or, only
  -- where that way ends in a full queue, with the error of a full queue and no change.
  pub enqueue-Stored :
      (n : ℕ) (call : ℤ) (id : ℕ) (priority : ℤ) (now : ℕ) (w : World S)
      → ((q : ℕ) → env.redis_fails q ≡ false)
      → Ends n id w.backend
      → (r : Result AcdError (Unit {0}) × World S) × (enqueue b env n call id priority now w
          ≡ some r)
        × Placed id call priority now w r
  enqueue-Stored n call id priority now w never ends =
      let (r, got) = enqueue_total n call id priority now w ends in
      (r, got, enqueue-Placed n call id priority now w r never got)
