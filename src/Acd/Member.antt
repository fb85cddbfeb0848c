-- ===== src/Acd/Member.antt =====
-- internal/application/acd/service.go: the members of a queue, as texts of code points.
-- `format_int` is strconv.FormatInt in base 10, `parse_int` strconv.ParseInt in base 10 for 64 bits.
use ccc.Prelude.{
  ℕ, zero, suc, ◌+◌, ◌-◌, ◌*◌, ◌/◌, ◌%◌, ◌≤◌, ◌<◌, false, ◌&&◌, Option, none, some, List, [], ◌∷◌,
  ◌++◌, ◌≡◌, refl, ◌==◌, leb, ltb, if◌then◌else◌, arith,
}
use ccc.Prelude.Int.{ℤ, pos, negsuc}

-- 2^63.
abbrev pub int64_limit : ℕ
int64_limit = 9223372036854775808

-- A remainder by 10 for each step; `suc n` steps are enough for `n`.
digits_onto : ℕ → ℕ → List ℕ → List ℕ
digits_onto zero n acc = acc
digits_onto (suc fuel) n acc =
    let rest = digits_onto fuel (n / 10) ((48 + n % 10) ∷ acc) in
    if ltb n 10 then (48 + n) ∷ acc else rest

unfoldable pub format_int : ℤ → List ℕ
unfolding digits_onto
format_int (pos n) = digits_onto (suc n) n []
format_int (negsuc n) = b'-' ∷ digits_onto (suc (suc n)) (suc n) []

parse_digits : ℕ → List ℕ → Option ℕ
parse_digits acc [] = some acc
parse_digits acc (c ∷ cs) =
    let rest = parse_digits (acc * 10 + (c - 48)) cs in
    if leb b'0' c && leb c b'9' then rest else none

-- At least one digit.
parse_nat : List ℕ → Option ℕ
parse_nat [] = none
parse_nat (c ∷ cs) = parse_digits 0 (c ∷ cs)

abbrev positive : Option ℕ → Option ℤ
positive none = none
positive (some n) = if ltb n int64_limit then some (pos n) else none

abbrev negative : Option ℕ → Option ℤ
negative none = none
negative (some zero) = some (pos zero)
negative (some (suc n)) = if ltb n int64_limit then some (negsuc n) else none

unfoldable pub parse_int : List ℕ → Option ℤ
unfolding parse_nat parse_digits
parse_int [] = none
parse_int (c ∷ cs) =
    if c == b'-'
    then negative (parse_nat cs)
    else if c == b'+'
    then positive (parse_nat cs)
    else positive (parse_nat (c ∷ cs))

-- `i := strings.IndexByte(member, ':')`, with `member[:i]` and `member[i+1:]`.
unfoldable pub cut_colon : List ℕ → Option (List ℕ × List ℕ)
cut_colon [] = none
cut_colon (c ∷ cs) =
    let rest = cut_colon cs in
    if c == b':' then some ([], cs) else elim rest [ none ↦ none | some (a, b) ↦ some (c ∷ a, b) ]

unfoldable pub member_for : ℤ → ℤ → List ℕ
member_for call_id enqueued_ms = format_int call_id ++ b':' ∷ format_int enqueued_ms

-- none is `ok = false`.
unfoldable pub parse_member : List ℕ → Option (ℤ × ℤ)
unfolding cut_colon parse_int
parse_member member = elim (cut_colon member) [
  | none ↦ elim (parse_int member) [ none ↦ none | some id ↦ some (id, pos 0) ]
  | some (a, b) ↦ elim (parse_int a) [
    | none ↦ none
    | some id ↦ elim (parse_int b) [ none ↦ none | some ms ↦ some (id, ms) ]
  ]
]

digits-parse :
    (fuel n : ℕ) (acc : List ℕ)
    → n < fuel
    → parse_digits 0 (digits_onto fuel n acc) ≡ parse_digits n acc
unfolding digits_onto parse_digits
digits-parse zero n acc h = ground arith
digits-parse (suc fuel) n acc h = ground (arith, digits-parse fuel (n / 10) ((48 + n % 10) ∷ acc))

-- Colons are none of the characters of a number.
abbrev pub NoColon : List ℕ → Type 0
NoColon [] = Unit
NoColon (c ∷ cs) = ((c == b':') ≡ false) × NoColon cs

digits-NoColon : (fuel n : ℕ) (acc : List ℕ) → NoColon acc → NoColon (digits_onto fuel n acc)
unfolding digits_onto
digits-NoColon zero n acc h = h
digits-NoColon (suc fuel) n acc h =
    ground (arith, h, digits-NoColon fuel (n / 10) ((48 + n % 10) ∷ acc))

format_int-NoColon : (i : ℤ) → NoColon (format_int i)
unfolding format_int
format_int-NoColon (pos n) = digits-NoColon (suc n) n [] tt
format_int-NoColon (negsuc n) = (refl, digits-NoColon (suc (suc n)) (suc n) [] tt)

cut_colon-append : (xs ys : List ℕ) → NoColon xs → cut_colon (xs ++ b':' ∷ ys) ≡ some (xs, ys)
unfolding cut_colon
cut_colon-append [] ys h = refl
cut_colon-append (x ∷ xs) ys h = ground (arith, h.0, cut_colon-append xs ys h.1)

-- The range of an int64.
abbrev pub IsInt64 : ℤ → Type 0
IsInt64 (pos n) = n < int64_limit
IsInt64 (negsuc n) = n < int64_limit

-- Not a sign.
abbrev pub StartsWithDigit : List ℕ → Type 0
StartsWithDigit [] = ⊥
StartsWithDigit (c ∷ cs) = 48 ≤ c

digits_onto_starts :
    (fuel n : ℕ) (acc : List ℕ) → StartsWithDigit acc → StartsWithDigit (digits_onto fuel n acc)
unfolding digits_onto
digits_onto_starts zero n acc h = h
digits_onto_starts (suc fuel) n acc h =
    ground (arith, digits_onto_starts fuel (n / 10) ((48 + n % 10) ∷ acc))

digits_start : (fuel n : ℕ) → StartsWithDigit (digits_onto (suc fuel) n [])
unfolding digits_onto
digits_start fuel n = ground (arith, digits_onto_starts fuel (n / 10) ((48 + n % 10) ∷ []))

parse_int_digits : (xs : List ℕ) → StartsWithDigit xs → parse_int xs ≡ positive (parse_digits 0 xs)
unfolding parse_int parse_nat
parse_int_digits [] h = elim h [ ]
parse_int_digits (c ∷ cs) h = ground (arith, h)

parse_nat_digits : (xs : List ℕ) → StartsWithDigit xs → parse_nat xs ≡ parse_digits 0 xs
unfolding parse_nat
parse_nat_digits [] h = elim h [ ]
parse_nat_digits (c ∷ cs) h = refl

parse_int-format : (i : ℤ) → IsInt64 i → parse_int (format_int i) ≡ some i
unfolding parse_int format_int parse_digits
parse_int-format (pos n) h =
    rw
      (
        parse_int_digits (digits_onto (suc n) n []) (digits_start n n),
        digits-parse (suc n) n [] (omega arith),
      )
      (ground (arith, h))
parse_int-format (negsuc n) h =
    rw
      (
        parse_nat_digits (digits_onto (suc (suc n)) (suc n) []) (digits_start (suc n) (suc n)),
        digits-parse (suc (suc n)) (suc n) [] (omega arith),
      )
      (ground (arith, h))

-- The queue's members decode to the call and the time that they were made of.
pub parse_member-member_for :
    (call_id enqueued_ms : ℤ)
    → IsInt64 call_id
    → IsInt64 enqueued_ms
    → parse_member (member_for call_id enqueued_ms) ≡ some (call_id, enqueued_ms)
unfolding parse_member member_for
parse_member-member_for call_id ms h k = ground (
  arith,
  cut_colon-append (format_int call_id) (format_int ms) (format_int-NoColon call_id),
  parse_int-format call_id h,
  parse_int-format ms k,
)
