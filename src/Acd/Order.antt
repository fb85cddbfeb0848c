-- ===== src/Acd/Order.antt =====
-- What the commands on a queue keep: internal/application/acd/service.go.
use ccc.Prelude.{
  ℕ, true, false, List, [], ◌∷◌, ◌≡◌, refl, arith, inl, inr, Bool-cases, suc, ◌+◌, ◌<◌, ◌*◌,
}
use mathlib.Core.Path.{subst, ◌∙◌}
use ccc.Prelude.Int.{ℤ, pos, pos_part, neg_part, ltb_ℤ, ◌≤ℤ◌, ◌+ℤ◌, +ℤ_parts}
use ccc.Acd.Queue.{
  Entry, IsAhead, IsQueue, comes_before, same_codes, has_member, remove_member, insert_entry,
  add_entry, comes_before_trans, comes_before_total, same_codes_refl, same_codes_sym, score_for,
  window,
}

IsAhead-before :
    (e d : Entry) (q : List Entry)
    → comes_before e d ≡ true
    → has_member e.member q ≡ false
    → IsAhead d q
    → IsAhead e q
unfolding has_member
IsAhead-before e d [] b n a = tt
IsAhead-before e d (x ∷ q) b n a = (
  comes_before_trans e d x b a.0,
  ground (arith, n),
  IsAhead-before e d q b (ground (arith, n)) a.2,
)

IsAhead-insert :
    (d e : Entry) (q : List Entry)
    → comes_before d e ≡ true
    → same_codes e.member d.member ≡ false
    → IsAhead d q
    → IsAhead d (insert_entry e q)
unfolding insert_entry
IsAhead-insert d e [] b n a = (b, n, tt)
IsAhead-insert d e (x ∷ q) b n a = elim (Bool-cases (comes_before e x)) [
  | inl f ↦ rw f (b, n, a)
  | inr f ↦ rw f (a.0, a.1, IsAhead-insert d e q b n a.2)
]

insert_entry-IsQueue :
    (e : Entry) (q : List Entry)
    → has_member e.member q ≡ false
    → IsQueue q
    → IsQueue (insert_entry e q)
unfolding insert_entry has_member
insert_entry-IsQueue e [] n s = (tt, tt)
insert_entry-IsQueue e (d ∷ q) n s =
    let other : same_codes d.member e.member ≡ false = ground (arith, n) in
    let absent : has_member e.member q ≡ false = ground (arith, n) in
    elim (Bool-cases (comes_before e d)) [
      | inl f ↦ rw f ((f, other, IsAhead-before e d q f absent s.0), s)
      | inr f ↦
          let back : comes_before d e ≡ true = comes_before_total e d other f in
          let other' : same_codes e.member d.member ≡ false =
            same_codes_sym e.member d.member ∙ other in
          rw f (IsAhead-insert d e q back other' s.0, insert_entry-IsQueue e q absent s.1)
    ]

IsAhead-absent : (e : Entry) (q : List Entry) → IsAhead e q → has_member e.member q ≡ false
unfolding has_member
IsAhead-absent e [] a = refl
IsAhead-absent e (d ∷ q) a = rw (a.1, IsAhead-absent e q a.2) refl

IsAhead-remove :
    (e : Entry) (m : List ℕ) (q : List Entry) → IsAhead e q → IsAhead e (remove_member m q)
unfolding remove_member
IsAhead-remove e m [] a = tt
IsAhead-remove e m (d ∷ q) a = elim (Bool-cases (same_codes d.member m)) [
  | inl f ↦ rw f a.2
  | inr f ↦ rw f (a.0, a.1, IsAhead-remove e m q a.2)
]

pub remove_member-IsQueue : (m : List ℕ) (q : List Entry) → IsQueue q → IsQueue (remove_member m q)
unfolding remove_member
remove_member-IsQueue m [] s = tt
remove_member-IsQueue m (d ∷ q) s = elim (Bool-cases (same_codes d.member m)) [
  | inl f ↦ rw f s.1
  | inr f ↦ rw f (IsAhead-remove d m q s.0, remove_member-IsQueue m q s.1)
]

same_codes-eq : (a b : List ℕ) → same_codes a b ≡ true → a ≡ b
unfolding same_codes
same_codes-eq [] [] h = refl
same_codes-eq [] (y ∷ b) h = cc
same_codes-eq (x ∷ a) [] h = cc
same_codes-eq (x ∷ a) (y ∷ b) h = ground (arith, h, same_codes-eq a b)

remove_member_absent :
    (m : List ℕ) (q : List Entry) → IsQueue q → has_member m (remove_member m q) ≡ false
unfolding remove_member has_member
remove_member_absent m [] s = refl
remove_member_absent m (d ∷ q) s = elim (Bool-cases (same_codes d.member m)) [
  | inl f ↦
      rw f
        (subst (λ k. has_member k q ≡ false) (same_codes-eq d.member m f) (IsAhead-absent d q s.0))
  | inr f ↦ rw f (rw (f, remove_member_absent m q s.1) refl)
]

pub add_entry-IsQueue : (e : Entry) (q : List Entry) → IsQueue q → IsQueue (add_entry e q)
unfolding add_entry
add_entry-IsQueue e q s =
    insert_entry-IsQueue e (remove_member e.member q) (remove_member_absent e.member q s)
      (remove_member-IsQueue e.member q s)

remove_absent : (m : List ℕ) (q : List Entry) → has_member m q ≡ false → remove_member m q ≡ q
unfolding remove_member has_member
remove_absent m [] n = refl
remove_absent m (d ∷ q) n = ground (arith, n, remove_absent m q)

insert_ahead : (e : Entry) (q : List Entry) → IsAhead e q → insert_entry e q ≡ e ∷ q
unfolding insert_entry
insert_ahead e [] a = refl
insert_ahead e (d ∷ q) a = rw a.0 refl

-- The head of a queue that is taken out and put back stands in front again.
pub add_entry-back :
    (e : Entry) (q : List Entry)
    → IsQueue (e ∷ q)
    → add_entry e (remove_member e.member (e ∷ q)) ≡ e ∷ q
unfolding add_entry remove_member
add_entry-back e q s =
    rw (same_codes_refl e.member)
      (rw (remove_absent e.member q (IsAhead-absent e q s.0)) (insert_ahead e q s.0))

score_for_parts :
    (p : ℤ) (t : ℕ)
    → pos_part (score_for p t) + window * pos_part p
      ≡ neg_part (score_for p t) + t + window * neg_part p
unfolding score_for
score_for_parts p t = ground arith

-- A higher priority comes first within one window of 10^10 milliseconds for each point.
score_for-higher :
    (p q : ℤ) (t u n : ℕ)
    → q +ℤ pos n ≤ℤ p
    → t < u + n * window
    → ltb_ℤ (score_for p t) (score_for q u) ≡ true
score_for-higher p q t u n h k =
    ground (arith, score_for_parts p t, score_for_parts q u, +ℤ_parts q (pos n))

-- One more point of priority does not make up for one window.
score_for-later :
    (p : ℤ) (t : ℕ) → ltb_ℤ (score_for p t) (score_for (p +ℤ pos 1) (suc (t + window))) ≡ true
unfolding score_for ◌+ℤ◌
score_for-later p t = ground arith
