-- ===== src/Flow/Names.antt =====
-- Sets of node names as lists: what a Go map[string]bool is used for.
use ccc.Prelude.{
  suc, ◌≤◌, ◌≡◌, refl, String, Bool, true, false, ◌||◌, List, [], ◌∷◌, ◌++◌, ◌⊎◌, inl, inr, arith,
  length, if◌then◌else◌, Bool-cases,
}
use text.Mathlib.Text.{◌==◌ as str_eq}
use text.Mathlib.TextEquality.{eq_iff}

infix 50 ◌==◌
abbrev pub ◌==◌ : String → String → Bool
◌==◌ = str_eq

unfoldable pub elem : String → List String → Bool
elem x [] = false
elem x (y ∷ ys) = (y == x) || elem x ys

abbrev pub Distinct : List String → Type 0
Distinct [] = Unit
Distinct (x ∷ xs) = (elem x xs ≡ false) × Distinct xs

abbrev pub Within : List String → List String → Type 0
Within xs ys = (x : String) → elem x xs ≡ true → elem x ys ≡ true

-- Without the first occurrence.
erase : String → List String → List String
erase x [] = []
erase x (y ∷ ys) = if y == x then ys else y ∷ erase x ys

length-erase :
    (x : String) (ys : List String) → elem x ys ≡ true → length ys ≡ suc (length (erase x ys))
unfolding elem erase
length-erase x [] h = cc
length-erase x (y ∷ ys) h = ground (arith, length-erase x ys)

length-erase_le : (x : String) (ys : List String) → length ys ≤ suc (length (erase x ys))
unfolding erase
length-erase_le x [] = omega arith
length-erase_le x (y ∷ ys) = ground (arith, length-erase_le x ys)

elem-erase :
    (x z : String) (ys : List String)
    → (x == z) ≡ false
    → elem z ys ≡ true
    → elem z (erase x ys) ≡ true
unfolding elem erase
elem-erase x z [] n h = cc
elem-erase x z (y ∷ ys) n h = ground (arith, elem-erase x z ys, eq_iff y x, eq_iff y z, eq_iff x z)

elem-erase_sub : (x z : String) (ys : List String) → elem z (erase x ys) ≡ true → elem z ys ≡ true
unfolding elem erase
elem-erase_sub x z [] h = h
elem-erase_sub x z (y ∷ ys) h = ground (arith, elem-erase_sub x z ys)

erase-Distinct : (x : String) (ys : List String) → Distinct ys → Distinct (erase x ys)
unfolding erase
erase-Distinct x [] d = tt
erase-Distinct x (y ∷ ys) d =
    ground (arith, erase-Distinct x ys d.1, elem-erase_sub x y ys, Bool-cases (elem y (erase x ys)))

elem-erase_self : (x : String) (ys : List String) → Distinct ys → elem x (erase x ys) ≡ false
unfolding elem erase
elem-erase_self x [] d = refl
elem-erase_self x (y ∷ ys) d = ground (arith, elem-erase_self x ys d.1, eq_iff y x)

pub elem_self : (x : String) (xs : List String) → elem x (x ∷ xs) ≡ true
unfolding elem
elem_self x xs = ground (arith, eq_iff x x)

pub elem_later : (x z : String) (xs : List String) → elem z xs ≡ true → elem z (x ∷ xs) ≡ true
unfolding elem
elem_later x z xs h = ground arith

pub elem_cases :
    (x z : String) (xs : List String) → elem z (x ∷ xs) ≡ true → (x ≡ z) ⊎ (elem z xs ≡ true)
unfolding elem
elem_cases x z xs h = ground (arith, eq_iff x z)

apart : (x z : String) (xs : List String) → elem x xs ≡ false → elem z xs ≡ true → (x == z) ≡ false
apart x z xs a b = ground (arith, eq_iff x z)

pub elem-append : (z : String) (xs ys : List String) → elem z (xs ++ ys) ≡ (elem z xs || elem z ys)
unfolding elem
elem-append z [] ys = refl
elem-append z (x ∷ xs) ys = ground (arith, elem-append z xs ys)

-- Distinct names within a list are no more than the list has.
pub length-le_of_Within : (xs ys : List String) → Distinct xs → Within xs ys → length xs ≤ length ys
length-le_of_Within [] ys d s = omega arith
length-le_of_Within (x ∷ xs) ys d s =
    omega (
      arith,
      length-erase x ys (s x (elem_self x xs)),
      length-le_of_Within xs (erase x ys) d.1 rest,
    )
  where
    rest : Within xs (erase x ys)
    rest z h = elem-erase x z ys (apart x z xs d.0 h) (s z (elem_later x z xs h))

-- As many distinct names as the list has are all of them, and the list has no name twice.
pub Within-of_length :
    (xs ys : List String) → Distinct xs → Within xs ys → length ys ≤ length xs → Within ys xs
Within-of_length xs ys d s l y h = elim (Bool-cases (elem y xs)) [
  | inl in_xs ↦ in_xs
  | inr out ↦ absurd (omega (arith, length-le_of_Within (y ∷ xs) ys (out, d) (both out)))
]
  where
    both : elem y xs ≡ false → Within (y ∷ xs) ys
    both out z g = elim (elem_cases y z xs g) [ inl e ↦ rw (← e) h | inr later ↦ s z later ]

pub Distinct-of_length :
    (ys xs : List String) → Distinct xs → Within xs ys → length ys ≤ length xs → Distinct ys
Distinct-of_length [] xs d s l = tt
Distinct-of_length (y ∷ ys) xs d s l = (
  once,
  Distinct-of_length ys (erase y xs) (erase-Distinct y xs d) fewer
      (omega (arith, length-erase_le y xs)),
)
  where
    fewer : Within (erase y xs) ys
    fewer z g = elim (elem_cases y z ys (s z (elem-erase_sub y z xs g))) [
      | inl e ↦ cc (elem-erase_self y xs d, e)
      | inr later ↦ later
    ]

    once : elem y ys ≡ false
    once = elim (Bool-cases (elem y ys)) [
      | inr out ↦ out
      | inl again ↦ absurd (
          omega (
            arith,
            length-le_of_Within xs ys d (λ z g. elim (elem_cases y z ys (s z g)) [
              | inl e ↦ rw (← e) again
              | inr later ↦ later
            ]),
          ))
    ]

abbrev pub same_text : String → String → Bool
same_text s t = s == t
