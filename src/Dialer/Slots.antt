-- ===== src/Dialer/Slots.antt =====
-- The slots of a tick: internal/application/dialer/service.go.
use ccc.Prelude.{
  ℕ, ◌+◌, ◌*◌, ◌/◌, ◌≤◌, ◌<◌, ◌≡◌, true, false, ◌⊎◌, inl, inr, arith, Bool-cases, ltb, leb,
}
use mathlib.Core.Path.{subst}
use native.Mathlib.Nat.{div-le_of_le-mul, mul-le-mul_left, mul_comm}
use ccc.Campaign.Entity.{Campaign}
use ccc.Dialer.World.{DialerState}
use ccc.Dialer.Service.{slots_of, predictive_slots, is_at_limit, throttled, is_over_rate}

scaled_le : (x y z : ℕ) → y ≤ z → x * y / z ≤ x
scaled_le x y z h = div-le_of_le-mul z (subst (λ n. x * y ≤ n) (mul_comm x z) (mul-le-mul_left x h))

throttled_le :
    (c : Campaign) (d : DialerState) (slots : ℕ)
    → is_over_rate c d ≡ true
    → (throttled c d slots ≤ slots) ⊎ (throttled c d slots ≤ 1)
throttled_le c d slots over =
    let y = c.max_abandon_rate * d.total_dialed in
    let z = d.abandon_count * 100000 in
    let small : slots * y / z ≤ slots = scaled_le slots y z (ground (arith, over)) in
    elim (Bool-cases (leb (2 * y) z)) [
      | inl f ↦ inl (rw f (omega arith))
      | inr f ↦ elim (Bool-cases (ltb (slots * y / z) 1)) [
        | inl g ↦ inr (rw f (rw g (omega arith)))
        | inr g ↦ inl (rw f (rw g small))
      ]
    ]

pub predictive_slots_le :
    (c : Campaign) (d : DialerState)
    → 0 < c.concurrent_limit
    → is_at_limit c d.active_calls ≡ false
    → d.active_calls + predictive_slots c d ≤ c.concurrent_limit
predictive_slots_le c d limited room =
    let free : d.active_calls < c.concurrent_limit = ground (arith, limited, room) in
    let slots = slots_of c d.active_calls in
    let fits : d.active_calls + slots ≤ c.concurrent_limit = ground (arith, limited, free) in
    elim (Bool-cases (is_over_rate c d)) [
      | inr f ↦ rw f fits
      | inl f ↦ elim (throttled_le c d slots f) [
        | inl le ↦ rw f (omega (arith, le, fits))
        | inr le ↦ rw f (omega (arith, le, free))
      ]
    ]
