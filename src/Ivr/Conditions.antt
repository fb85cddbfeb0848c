-- ===== src/Ivr/Conditions.antt =====
-- internal/application/ivr/nodes_interaction.go: evaluateCondition and contains. Positions count
-- bytes; a slice that Go would cut inside a character leaves that character out.
use ccc.Prelude.{
  ℕ, zero, suc, ◌+◌, ◌-◌, ◌≤◌, ◌≡◌, ◌↔◌, String, Bool, true, false, not, ◌&&◌, ◌||◌, refl, arith,
  ltb, leb, if◌then◌else◌, is_empty, Bool-cases, inl, inr,
}
use Prim.Native.String.{len, slice}
use ccc.Flow.Names.{same_text}
use text.Mathlib.TextEquality.{eq_iff}

-- The loop of `contains` from a position, with its number of rounds left.
unfoldable pub text_contains_from : String → String → ℕ → ℕ → Bool
text_contains_from s t i zero = false
text_contains_from s t i (suc n) =
    let later = text_contains_from s t (suc i) n in
    if same_text (slice s i (i + len t)) t then true else later

unfoldable pub text_contains : String → String → Bool
unfolding text_contains_from
text_contains s t = text_contains_from s t 0 (suc (len s) - len t)

unfoldable pub has_prefix : String → String → Bool
has_prefix s t = leb (len t) (len s) && same_text (slice s 0 (len t)) t

unfoldable pub ends_with : String → String → Bool
ends_with s t = leb (len t) (len s) && same_text (slice s (len s - len t) (len s)) t

unfoldable pub evaluate_condition : String → String → String → Bool
unfolding text_contains has_prefix ends_with
evaluate_condition actual op expected =
    if same_text op "eq" || same_text op "=="
    then same_text actual expected
    else (if same_text op "ne" || same_text op "!="
        then not (same_text actual expected)
        else (if same_text op "contains"
            then ltb 0 (len actual) && ltb 0 (len expected) && text_contains actual expected
            else (if same_text op "starts_with"
                then has_prefix actual expected
                else (if same_text op "ends_with"
                    then ends_with actual expected
                    else (if same_text op "empty"
                        then is_empty actual
                        else (if same_text op "not_empty"
                            then not (is_empty actual)
                            else false))))))

text_contains_from_iff :
    (s t : String) (i n : ℕ)
    → (text_contains_from s t i n ≡ true)
      ↔ ((j : ℕ) × (i ≤ j) × (suc j ≤ i + n) × (slice s j (j + len t) ≡ t))
unfolding text_contains_from
text_contains_from_iff s t i zero = (λ h. ground arith, λ h. absurd (omega (arith, h.1, h.2)))
text_contains_from_iff s t i (suc n) = elim (Bool-cases (same_text (slice s i (i + len t)) t)) [
  | inl hit ↦ (
    λ h. (i, omega arith, omega arith, (eq_iff (slice s i (i + len t)) t).0 hit),
    λ h. rw hit refl,
  )
  | inr miss ↦ (
    λ h.
        let (j, a, b, e) = (text_contains_from_iff s t (suc i) n).0 (ground (arith, h, miss)) in
        (j, omega arith, omega arith, e),
    λ (j, a, b, e). rw miss (
        (text_contains_from_iff s t (suc i) n).1
          (j, ground (arith, a, e, miss, eq_iff (slice s i (i + len t)) t), omega arith, e)),
  )
]

-- `contains` finds a text exactly where, at some position, its bytes are those of the text.
text_contains_lem :
    (s t : String)
    → (text_contains s t ≡ true) ↔ ((j : ℕ) × (j + len t ≤ len s) × (slice s j (j + len t) ≡ t))
unfolding text_contains
text_contains_lem s t = (
  (λ h.
      let (j, _, b, e) = (text_contains_from_iff s t 0 (suc (len s) - len t)).0 h in
      (j, omega arith, e)),
  (λ h.
      let (j, b, e) = h in
      (text_contains_from_iff s t 0 (suc (len s) - len t)).1 (j, omega arith, omega arith, e)),
)
