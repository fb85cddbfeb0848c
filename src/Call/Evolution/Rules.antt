-- ===== src/Call/Evolution/Rules.antt =====
-- How a write to the table makes a step of every row.
use ccc.Prelude.{
  ℕ, ◌≡◌, Bool, true, Option, none, some, List, ◌⊎◌, inl, inr, ◌==◌, arith, Option-cases, ==→eq,
  Bool-cases,
}
use ccc.Call.Entity.{Call}
use ccc.Call.Table.{
  find, find-update, find-insert, find-id, updated_row, update_rows, inserted_row, insert_row,
}
use ccc.Call.Lifecycle.{Evolves, Step, stay}

Step-refl : (c : Call) → Step c c
Step-refl c = record {
  edge = stay;
  identity = ground arith;
  frozen = λ _. ground arith;
  valid = λ v. v;
  holds = omega arith;
  transfers = omega arith;
}

pub Evolves-refl : (o : Option Call) → Evolves o o
Evolves-refl none = tt
Evolves-refl (some c) = Step-refl c

-- A method that writes `change c` for the row `c` that it read, where `may c` lets it, takes a step
-- with that row and leaves all others.
pub Evolves-of_write :
    (i id : ℕ) (change : Call → Call) (may : Call → Bool) (t t' : List Call)
    → ((c : Call) → (change c).id ≡ c.id)
    → ((c : Call) → may c ≡ true → Step c (updated_row c (change c)))
    → (find id t ≡ none → t' ≡ t)
    → ((c : Call)
        → find id t ≡ some c
        → (t' ≡ t) ⊎ ((may c ≡ true) × (t' ≡ update_rows (change c) t)))
    → Evolves (find i t) (find i t')
Evolves-of_write i id change may t t' same step missing wrote = elim (Option-cases (find id t)) [
  | inl e ↦ rw (missing e) (Evolves-refl _)
  | inr (c, e) ↦ elim (wrote c e) [
    | inl kept ↦ rw kept (Evolves-refl _)
    | inr (m, w) ↦
        rw (w, find-update)
          (elim (Bool-cases ((change c).id == i)) [
            | inl hit ↦
                let at : find i t ≡ some c = cc (==→eq _ _ hit, same c, find-id id t c e, e) in
                rw (hit, at) (step c m)
            | inr miss ↦ rw miss (Evolves-refl _)
          ])
  ]
]

-- A record that may be born is inserted at a free id, or nothing happens.
pub Evolves-of_insert :
    (i : ℕ) (c : Call) (t t' : List Call)
    → Evolves none (some (inserted_row c))
    → ((t' ≡ t) ⊎ ((find c.id t ≡ none) × (t' ≡ insert_row c t)))
    → Evolves (find i t) (find i t')
Evolves-of_insert i c t t' born (inl kept) = rw kept (Evolves-refl _)
Evolves-of_insert i c t t' born (inr (free, w)) =
    rw (w, find-insert i c t free)
      (elim (Bool-cases (c.id == i)) [
        | inl hit ↦ let at : find i t ≡ none = cc (==→eq _ _ hit, free) in rw (hit, at) born
        | inr miss ↦ rw miss (Evolves-refl _)
      ])
