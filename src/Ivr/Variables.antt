-- ===== src/Ivr/Variables.antt =====
-- internal/application/ivr/engine.go: Session.Variables, a Go map from names to texts. The list holds
-- the entries in the order in which a range over the map meets them; a name that is not there reads
-- as the empty text.
use ccc.Prelude.{◌≡◌, String, Option, none, some, List, [], ◌∷◌, arith, if◌then◌else◌, value_or}
use ccc.Flow.Names.{◌==◌}
use text.Mathlib.TextEquality.{eq_iff}

abbrev pub Variables : Type 0
Variables = List (String × String)

-- `v, ok := m[name]`
unfoldable pub lookup : String → List (String × String) → Option String
lookup x [] = none
lookup x ((k, v) ∷ m) = if k == x then some v else lookup x m

-- `m[name]`
unfoldable pub get : String → Variables → String
unfolding lookup
get x m = value_or "" (lookup x m)

-- `m[name] = v`
unfoldable pub set : String → String → Variables → Variables
set x v [] = (x, v) ∷ []
set x v ((k, u) ∷ m) = if k == x then (k, v) ∷ m else (k, u) ∷ set x v m

-- Entry by entry: `for k, v := range entries { m[k] = v }`
unfoldable pub set_all : List (String × String) → Variables → Variables
unfolding set
set_all [] m = m
set_all ((k, v) ∷ es) m = set_all es (set k v m)

-- What is written under a name is read under it, and every other name reads as before.
lookup-set :
    (x y v : String) (m : Variables)
    → lookup y (set x v m) ≡ (if x == y then some v else lookup y m)
unfolding lookup set
lookup-set x y v [] = ground arith
lookup-set x y v ((k, u) ∷ m) =
    ground (arith, lookup-set x y v m, eq_iff k x, eq_iff k y, eq_iff x y)
