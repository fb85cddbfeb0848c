-- ===== src/Prelude/Rows.antt =====
-- A table as a list of rows with a numeric key: what SELECT, UPDATE and INSERT by key do.
use mathlib.Core.Option
use mathlib.Core.Option.{Option, none, some}
use mathlib.Core.List.{List, [], ◌∷◌, ◌++◌}
use mathlib.Core.Path.{◌≡◌, sym, subst, ◌∙◌}
use mathlib.Core.Logic.{inl, inr, ◌⊎◌}
use mathlib.Core.Bool.{Bool, true}
use Prim.Native.Nat.{ℕ}
use native.Mathlib.Omega.{arith}
use ccc.Prelude.Tests.{Bool-cases, Option-cases, ◌==◌, if◌then◌else◌, ==→eq}

module _ {A : Type 0} (key : A → ℕ) where
  unfoldable pub row_by : ℕ → List A → Option A
  row_by i [] = none
  row_by i (x ∷ t) = if key x == i then some x else row_by i t

  -- Every row of the key is written.
  unfoldable pub update_by : ℕ → (A → A) → List A → List A
  update_by i write [] = []
  update_by i write (x ∷ t) = (if key x == i then write x else x) ∷ update_by i write t

  pub row_by-key : (i : ℕ) (t : List A) (x : A) → row_by i t ≡ some x → key x ≡ i
  unfolding row_by
  row_by-key i [] x h = ground arith
  row_by-key i (y ∷ t) x h = ground (arith, row_by-key i t x, ==→eq (key y) i)

  pub row_by-update :
      (i j : ℕ) (write : A → A) (t : List A)
      → ((x : A) → key (write x) ≡ key x)
      → row_by i (update_by j write t)
        ≡ (if j == i then Option.map write (row_by i t) else row_by i t)
  unfolding row_by update_by
  row_by-update i j write [] same = ground arith
  row_by-update i j write (x ∷ t) same = ground (arith, same x, row_by-update i j write t same)

  row_by-append :
      (i : ℕ) (c : A) (t : List A)
      → row_by (key c) t ≡ none
      → row_by i (t ++ c ∷ []) ≡ (if key c == i then some c else row_by i t)
  unfolding row_by
  row_by-append i c [] free = ground arith
  row_by-append i c (x ∷ t) free = ground (arith, row_by-append i c t)

-- A row before and after: it is not deleted, a kept row is related to what it was, and a new row is
-- one that may be born.
abbrev pub Evolved : {A : Type 0} → (A → Type 0) → (A → A → Type 0) → Option A → Option A → Type 0
Evolved Born Step none none = Unit
Evolved Born Step none (some c) = Born c
Evolved Born Step (some c) none = ⊥
Evolved Born Step (some c) (some c') = Step c c'

-- How a write to a table makes a step of every row.
module _ {A : Type 0} (key : A → ℕ) (Born : A → Type 0) (Step : A → A → Type 0)
    (Step-refl : (c : A) → Step c c) where
  pub Evolved-refl : (o : Option A) → Evolved Born Step o o
  Evolved-refl none = tt
  Evolved-refl (some c) = Step-refl c

  pub Evolved-update :
      (i j : ℕ) (write : A → A) (t : List A)
      → ((x : A) → key (write x) ≡ key x)
      → ((x : A) → row_by key j t ≡ some x → Step x (write x))
      → Evolved Born Step (row_by key i t) (row_by key i (update_by key j write t))
  Evolved-update i j write t same step =
      rw (row_by-update key i j write t same) (elim (Bool-cases (j == i)) [
        | inl hit ↦
            let at : j ≡ i = ==→eq j i hit in
            rw hit (elim (Option-cases (row_by key i t)) [
              | inl e ↦ rw e tt
              | inr (x, e) ↦ rw e (step x (subst (λ k. row_by key k t ≡ some x) (sym at) e))
            ])
        | inr miss ↦ rw miss (Evolved-refl _)
      ])

  pub Evolved-append :
      (i : ℕ) (c : A) (t : List A)
      → row_by key (key c) t ≡ none
      → Born c
      → Evolved Born Step (row_by key i t) (row_by key i (t ++ c ∷ []))
  Evolved-append i c t free born =
      rw (row_by-append key i c t free) (elim (Bool-cases (key c == i)) [
        | inl hit ↦
            let gone : row_by key i t ≡ none =
              subst (λ k. row_by key k t ≡ none) (==→eq (key c) i hit) free in
            rw (hit, gone) born
        | inr miss ↦ rw miss (Evolved-refl _)
      ])

  -- A method that writes `merge (change c)` for the row `c` of a key that it read, where `may c` lets
  -- it, takes a step with that row and leaves all others.
  pub Evolved-write :
      (i id : ℕ) (change : A → A) (merge : A → A → A) (may : A → Bool) (t t' : List A)
      → ((c : A) → key (change c) ≡ key c)
      → ((c d : A) → key (merge c d) ≡ key d)
      → ((c : A) → may c ≡ true → Step c (merge (change c) c))
      → (row_by key id t ≡ none → t' ≡ t)
      → ((c : A)
          → row_by key id t ≡ some c
          → (t' ≡ t)
            ⊎ ((may c ≡ true) × (t' ≡ update_by key (key (change c)) (merge (change c)) t)))
      → Evolved Born Step (row_by key i t) (row_by key i t')
  Evolved-write i id change merge may t t' same merged step missing wrote =
      elim (Option-cases (row_by key id t)) [
        | inl e ↦ rw (missing e) (Evolved-refl _)
        | inr (c, e) ↦ elim (wrote c e) [
          | inl kept ↦ rw kept (Evolved-refl _)
          | inr (m, w) ↦ rw w (
              Evolved-update i (key (change c)) (merge (change c)) t (merged (change c)) (λ x f.
                let here : key (change c) ≡ id = same c ∙ row_by-key key id t c e in
                let found : row_by key id t ≡ some x =
                  subst (λ k. row_by key k t ≡ some x) here f in
                let at : c ≡ x = cc (e, found) in
                subst (λ y. Step y (merge (change c) y)) at (step c m)))
        ]
      ]
