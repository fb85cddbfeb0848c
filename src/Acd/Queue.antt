-- ===== src/Acd/Queue.antt =====
-- internal/application/acd/service.go: the order of a queue, with what the commands of Redis on a
-- sorted set do to its entries: they stand by score and, at equal scores, by the bytes of the member.
use ccc.Prelude.{
  ℕ, Bool, true, false, not, ◌&&◌, ◌||◌, List, [], ◌∷◌, ◌≡◌, refl, ◌==◌, ltb, if◌then◌else◌, arith,
}
use ccc.Prelude.Int.{ℤ, pos, ltb_ℤ, ◌-ℤ◌, ◌*ℤ◌}

-- A score is an integer below 2^53, which a float64 holds exactly.
pub record Entry : Type 0 where
  pub score : ℤ
  pub member : List ℕ

abbrev pub window : ℕ
window = 10000000000

-- `float64(-priority)*1e10 + float64(ts.UnixMilli())`
unfoldable pub score_for : ℤ → ℕ → ℤ
unfolding ◌-ℤ◌ ◌*ℤ◌
score_for priority ms = pos ms -ℤ priority *ℤ pos window

unfoldable pub same_codes : List ℕ → List ℕ → Bool
same_codes [] [] = true
same_codes (a ∷ s) (b ∷ t) = (a == b) && same_codes s t
same_codes _ _ = false

-- The order of memcmp, a prefix first.
unfoldable pub less_codes : List ℕ → List ℕ → Bool
less_codes [] [] = false
less_codes [] (_ ∷ _) = true
less_codes (_ ∷ _) [] = false
less_codes (a ∷ s) (b ∷ t) = ltb a b || ((a == b) && less_codes s t)

unfoldable pub comes_before : Entry → Entry → Bool
comes_before e d =
    ltb_ℤ e.score d.score || (not (ltb_ℤ d.score e.score) && less_codes e.member d.member)

unfoldable pub has_member : List ℕ → List Entry → Bool
has_member m [] = false
has_member m (d ∷ q) = same_codes d.member m || has_member m q

-- ZREM
unfoldable pub remove_member : List ℕ → List Entry → List Entry
remove_member m [] = []
remove_member m (d ∷ q) = if same_codes d.member m then q else d ∷ remove_member m q

unfoldable pub insert_entry : Entry → List Entry → List Entry
insert_entry e [] = e ∷ []
insert_entry e (d ∷ q) = if comes_before e d then e ∷ d ∷ q else d ∷ insert_entry e q

-- ZADD: a member that is there gets the new score.
unfoldable pub add_entry : Entry → List Entry → List Entry
add_entry e q = insert_entry e (remove_member e.member q)

-- Every entry of the queue stands behind this one, and is another.
abbrev pub IsAhead : Entry → List Entry → Type 0
IsAhead e [] = Unit
IsAhead e (d ∷ q) = (comes_before e d ≡ true) × (same_codes d.member e.member ≡ false) × IsAhead e q

-- A queue in order, each member once.
abbrev pub IsQueue : List Entry → Type 0
IsQueue [] = Unit
IsQueue (e ∷ q) = IsAhead e q × IsQueue q

pub same_codes_refl : (a : List ℕ) → same_codes a a ≡ true
unfolding same_codes
same_codes_refl [] = refl
same_codes_refl (x ∷ a) = ground (arith, same_codes_refl a)

pub same_codes_sym : (a b : List ℕ) → same_codes a b ≡ same_codes b a
unfolding same_codes
same_codes_sym [] [] = refl
same_codes_sym [] (y ∷ b) = refl
same_codes_sym (x ∷ a) [] = refl
same_codes_sym (x ∷ a) (y ∷ b) = ground (arith, same_codes_sym a b)

less_codes_trans :
    (a b c : List ℕ) → less_codes a b ≡ true → less_codes b c ≡ true → less_codes a c ≡ true
unfolding less_codes
less_codes_trans [] [] c h k = cc
less_codes_trans [] (y ∷ b) [] h k = cc
less_codes_trans [] (y ∷ b) (z ∷ c) h k = refl
less_codes_trans (x ∷ a) [] c h k = cc
less_codes_trans (x ∷ a) (y ∷ b) [] h k = cc
less_codes_trans (x ∷ a) (y ∷ b) (z ∷ c) h k = ground (arith, h, k, less_codes_trans a b c)

less_codes_total :
    (a b : List ℕ) → same_codes a b ≡ false → less_codes a b ≡ false → less_codes b a ≡ true
unfolding less_codes same_codes
less_codes_total [] [] h k = cc
less_codes_total [] (y ∷ b) h k = cc
less_codes_total (x ∷ a) [] h k = refl
less_codes_total (x ∷ a) (y ∷ b) h k = ground (arith, h, k, less_codes_total a b)

pub comes_before_trans :
    (a b c : Entry) → comes_before a b ≡ true → comes_before b c ≡ true → comes_before a c ≡ true
unfolding comes_before
comes_before_trans a b c h k = ground (arith, h, k, less_codes_trans a.member b.member c.member)

pub comes_before_total :
    (a b : Entry)
    → same_codes b.member a.member ≡ false
    → comes_before a b ≡ false
    → comes_before b a ≡ true
unfolding comes_before
comes_before_total a b h k =
    ground (arith, h, k, less_codes_total a.member b.member, same_codes_sym a.member b.member)
