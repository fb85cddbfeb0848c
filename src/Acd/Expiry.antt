-- ===== src/Acd/Expiry.antt =====
-- Which calls expireQueued ends: internal/application/acd/service.go.
use ccc.Prelude.{
  ℕ, ◌+◌, ◌*◌, ◌≡◌, refl, sym, Bool, true, false, none, some, List, [], ◌∷◌, ◌++◌, inl, inr, arith,
  Bool-cases, Option-cases, if◌then◌else◌, ==_refl, ◌<◌, ◌⊎◌,
}
use mathlib.Core.Path.{subst, ap, ◌∙◌}
use mathlib.Core.List.{append_assoc}
use ccc.Prelude.Int.{ℤ, pos, negsuc, ◌-ℤ◌, ◌+ℤ◌, ◌≤ℤ◌}
use ccc.Acd.Member.{parse_member}
use ccc.Acd.Queue.{
  Entry, IsQueue, IsAhead, has_member, remove_member, same_codes, same_codes_refl, same_codes_sym,
}
use ccc.Acd.Order.{remove_member-IsQueue}
use ccc.Acd.World.{Backend, Env, World, SkillGroup, zrem, zrange}
use ccc.Acd.Service.{is_kept, expire_entry, expire_entries, expire_queued}

-- Behind the entries of a queue, this one is no other's.
IsAhead-middle :
    (x e : Entry) (pre q : List Entry)
    → IsAhead x (pre ++ e ∷ q)
    → same_codes x.member e.member ≡ false
IsAhead-middle x e [] q a = same_codes_sym x.member e.member ∙ a.1
IsAhead-middle x e (y ∷ pre) q a = IsAhead-middle x e pre q a.2

remove_member-middle :
    (pre : List Entry) (e : Entry) (q : List Entry)
    → IsQueue (pre ++ e ∷ q)
    → remove_member e.member (pre ++ e ∷ q) ≡ pre ++ q
unfolding remove_member
remove_member-middle [] e q s = rw (same_codes_refl e.member) refl
remove_member-middle (x ∷ pre) e q s =
    ground (arith, IsAhead-middle x e pre q s.0, remove_member-middle pre e q s.1)

has_member-middle :
    (pre : List Entry) (e : Entry) (q : List Entry) → has_member e.member (pre ++ e ∷ q) ≡ true
unfolding has_member
has_member-middle [] e q = rw (same_codes_refl e.member) refl
has_member-middle (x ∷ pre) e q = ground (arith, has_member-middle pre e q)

-- What becomes of an entry: kept, dropped as malformed, or ended.
abbrev pub stays : ℤ → Entry → Bool
stays deadline e = elim (parse_member e.member) [
  | none ↦ false
  | some (_, enqueued_at) ↦ is_kept deadline enqueued_at
]

unfoldable pub still : ℤ → List Entry → List Entry
still deadline [] = []
still deadline (e ∷ q) = let rest = still deadline q in if stays deadline e then e ∷ rest else rest

-- The specification: what a queue keeps at a time, where calls may wait for so many milliseconds,
-- and the calls that end. A time of 0 is unknown, and such a call stays.
pub data Sifted (now wait : ℕ) : List Entry → List Entry → List ℤ → Type 0 where
  empty : Sifted now wait [] [] []
  malformed :
      {e : Entry} {q left : List Entry} {calls : List ℤ}
      → parse_member e.member ≡ none
      → Sifted now wait q left calls
      → Sifted now wait (e ∷ q) left calls
  unknown :
      {e : Entry} {q left : List Entry} {calls : List ℤ} {call since : ℤ}
      → parse_member e.member ≡ some (call, since)
      → since ≡ pos 0
      → Sifted now wait q left calls
      → Sifted now wait (e ∷ q) (e ∷ left) calls
  waiting :
      {e : Entry} {q left : List Entry} {calls : List ℤ} {call since : ℤ}
      → parse_member e.member ≡ some (call, since)
      → ¬ (since +ℤ pos wait ≤ℤ pos now)
      → Sifted now wait q left calls
      → Sifted now wait (e ∷ q) (e ∷ left) calls
  overdue :
      {e : Entry} {q left : List Entry} {calls : List ℤ} {call since : ℤ}
      → parse_member e.member ≡ some (call, since)
      → ¬ (since ≡ pos 0)
      → since +ℤ pos wait ≤ℤ pos now
      → Sifted now wait q left calls
      → Sifted now wait (e ∷ q) left (call ∷ calls)

unfoldable pub due_calls : ℤ → List Entry → List ℤ
due_calls deadline [] = []
due_calls deadline (e ∷ q) =
    let rest = due_calls deadline q in
    elim (parse_member e.member) [
      | none ↦ rest
      | some (call, enqueued_at) ↦ if is_kept deadline enqueued_at then rest else call ∷ rest
    ]

kept-cases :
    (now wait : ℕ) (since : ℤ)
    → is_kept (pos now -ℤ pos wait) since ≡ true
    → (since ≡ pos 0) ⊎ ¬ (since +ℤ pos wait ≤ℤ pos now)
unfolding ◌+ℤ◌ ◌-ℤ◌
kept-cases now wait (pos n) h = ground arith
kept-cases now wait (negsuc n) h = ground arith

unkept :
    (now wait : ℕ) (since : ℤ)
    → is_kept (pos now -ℤ pos wait) since ≡ false
    → ¬ (since ≡ pos 0) × (since +ℤ pos wait ≤ℤ pos now)
unfolding ◌+ℤ◌ ◌-ℤ◌
unkept now wait (pos n) h = ground arith
unkept now wait (negsuc n) h = ground arith

Sifted-at :
    {now wait : ℕ} {q left left' : List Entry} {calls calls' : List ℤ}
    → left' ≡ left
    → calls' ≡ calls
    → Sifted now wait q left calls
    → Sifted now wait q left' calls'
Sifted-at a b h = rw (a, b) h

still-Sifted :
    (now wait : ℕ) (q : List Entry)
    → Sifted now wait q (still (pos now -ℤ pos wait) q) (due_calls (pos now -ℤ pos wait) q)
unfolding still due_calls
still-Sifted now wait [] = empty
still-Sifted now wait (e ∷ q) =
    let rest = still-Sifted now wait q in
    let deadline = pos now -ℤ pos wait in
    elim (Option-cases (parse_member e.member)) [
      | inl n ↦ Sifted-at (ground (arith, n)) (ground (arith, n)) (malformed n rest)
      | inr ((call, since), n) ↦ elim (Bool-cases (is_kept deadline since)) [
        | inl k ↦ elim (kept-cases now wait since k) [
          | inl new ↦ Sifted-at (ground (arith, n, k)) (ground (arith, n, k)) (unknown n new rest)
          | inr later ↦
              Sifted-at (ground (arith, n, k)) (ground (arith, n, k)) (waiting n later rest)
        ]
        | inr k ↦
            let (known, due) = unkept now wait since k in
            Sifted-at (ground (arith, n, k)) (ground (arith, n, k)) (overdue n known due rest)
      ]
    ]

module _ {S : Type 0} (b : Backend S) (env : Env) where
  -- The calls of the entries that are due end, one after the other.
  unfoldable pub end_due : ℤ → List Entry → S → S
  end_due deadline [] s = s
  end_due deadline (e ∷ q) s = elim (parse_member e.member) [
    | none ↦ end_due deadline q s
    | some (call, enqueued_at) ↦ elim (is_kept deadline enqueued_at) [
      | true ↦ end_due deadline q s
      | false ↦ end_due deadline q (b.end_call call s).1
    ]
  ]

  -- One turn of the loop over the entries.
  expire_entry-lem :
      (id : ℕ) (deadline : ℤ) (pre : List Entry) (e : Entry) (q : List Entry) (w : World S)
      → ((n : ℕ) → env.redis_fails n ≡ false)
      → w.queues id ≡ pre ++ e ∷ q
      → IsQueue (pre ++ e ∷ q)
      → ((expire_entry b env id deadline e w).queues id
          ≡ pre ++ (if stays deadline e then e ∷ q else q))
        × ((r : List Entry)
            → end_due deadline r (expire_entry b env id deadline e w).backend
              ≡ end_due deadline (e ∷ r) w.backend)
  unfolding expire_entry zrem end_due
  expire_entry-lem id deadline pre e q w never at s =
      let gone = remove_member-middle pre e q s in
      let there = has_member-middle pre e q in
      elim (Option-cases (parse_member e.member)) [
        | inl n ↦ (
          grind (arith, never, at, n, ==_refl id, gone, there),
          λ r. grind (arith, never, at, n, ==_refl id, gone, there),
        )
        | inr ((call, ms), n) ↦ elim (Bool-cases (is_kept deadline ms)) [
          | inl k ↦ (
            grind (arith, never, at, n, ==_refl id, gone, there, k),
            λ r. grind (arith, never, at, n, ==_refl id, gone, there, k),
          )
          | inr k ↦ (
            grind (arith, never, at, n, ==_refl id, gone, there, k),
            λ r. grind (arith, never, at, n, ==_refl id, gone, there, k),
          )
        ]
      ]

  expire_entries-lem :
      (id : ℕ) (deadline : ℤ) (pre q : List Entry) (w : World S)
      → ((n : ℕ) → env.redis_fails n ≡ false)
      → w.queues id ≡ pre ++ q
      → IsQueue (pre ++ q)
      → ((expire_entries b env id deadline q w).queues id ≡ pre ++ still deadline q)
        × ((expire_entries b env id deadline q w).backend ≡ end_due deadline q w.backend)
  unfolding expire_entries still end_due
  expire_entries-lem id deadline pre [] w never at s = (at, refl)
  expire_entries-lem id deadline pre (e ∷ q) w never at s =
      let w' = expire_entry b env id deadline e w in
      let (queue, ends) = expire_entry-lem id deadline pre e q w never at s in
      elim (Bool-cases (stays deadline e)) [
        | inl k ↦
            let split = append_assoc pre (e ∷ []) q in
            let (left, ended) =
              expire_entries-lem id deadline (pre ++ e ∷ []) q w' never (queue ∙ rw k (sym split))
                (subst IsQueue (sym split) s) in
            (left ∙ append_assoc pre (e ∷ []) (still deadline q) ∙ rw k refl, ended ∙ ends q)
        | inr k ↦
            let (left, ended) = expire_entries-lem id deadline pre q w' never (queue ∙ rw k refl) (
              subst IsQueue (remove_member-middle pre e q s)
                (remove_member-IsQueue e.member (pre ++ e ∷ q) s)) in
            (left ∙ rw k refl, ended ∙ ends q)
      ]

  -- The calls end, one after the other.
  unfoldable pub end_calls : List ℤ → S → S
  end_calls [] s = s
  end_calls (call ∷ calls) s = end_calls calls (b.end_call call s).1

  end_due-calls :
      (deadline : ℤ) (q : List Entry) (s : S)
      → end_due deadline q s ≡ end_calls (due_calls deadline q) s
  unfolding end_due due_calls end_calls
  end_due-calls deadline [] s = refl
  end_due-calls deadline (e ∷ q) s = grind (arith, end_due-calls deadline q)

  -- While Redis answers, expireQueued takes out of a queue in order exactly the malformed members and
  -- those that have waited for the group's limit, keeps the others as they stand, and ends the calls
  -- that are overdue in the order of the queue. A member of unknown age stays.
  pub expire_queued-exact :
      (id : ℕ) (g : SkillGroup) (now : ℕ) (w : World S)
      → ((n : ℕ) → env.redis_fails n ≡ false)
      → IsQueue (w.queues id)
      → 0 < g.max_wait_sec
      → (left : List Entry) × (calls : List ℤ) × Sifted now
          (g.max_wait_sec * 1000)
          (w.queues id)
          left
          calls
        × ((expire_queued b env id g now w).queues id ≡ left)
        × ((expire_queued b env id g now w).backend ≡ end_calls calls w.backend)
  unfolding expire_queued zrange
  expire_queued-exact id g now w never s limited =
      let wait = g.max_wait_sec * 1000 in
      let deadline = pos now -ℤ pos wait in
      let w' : World S = record w { commands = w.commands + 1 } in
      let same : expire_queued b env id g now w
          ≡ expire_entries b env id deadline (w.queues id) w' =
        grind (arith, never, limited) in
      let (left, ended) = expire_entries-lem id deadline [] (w.queues id) w' never refl s in
      (
        still deadline (w.queues id),
        due_calls deadline (w.queues id),
        still-Sifted now wait (w.queues id),
        ap (λ x. x.queues id) same ∙ left,
        ap (λ x. x.backend) same ∙ ended ∙ end_due-calls deadline (w.queues id) w.backend,
      )
