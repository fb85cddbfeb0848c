-- ===== src/Call/Evolution/Frames.antt =====
-- A row through a chain of actions: all but one of a chain leave the table alone.
use ccc.Prelude.{
  ℕ, ◌≡◌, refl, ◌∙◌, String, Bool, none, some, arith, Result, ok, err, pure, fail_if, ◌>>=◌,
}
use ccc.Call.Entity.{Call, MediaType, EventKind, Text, Error}
use ccc.Call.Table.{find, inserted_row}
use ccc.Call.World.{
  Env, World, Action, Command, next_id, log_event, create_call, get_call, originate_channel,
}
use ccc.Call.Create.{resolve_media_type}
use ccc.Call.Supervise.{
  create_leg, abandon_leg, on_error, join_channel, MonitorMode, mode_type, supervised,
}
use ccc.Call.Lifecycle.{Evolves}
use ccc.Call.Evolution.Rules.{Evolves-refl, Evolves-of_insert}

-- The action leaves the table as it is.
pub record Keeps {A : Type 0} (m : Action A) : Type 0 where
  pub kept : (w : World) → (m w).1.calls ≡ w.calls

-- The action is one step for row `i`.
pub record Grows {A : Type 0} (i : ℕ) (m : Action A) : Type 0 where
  pub grown : (w : World) → Evolves (find i w.calls) (find i (m w).1.calls)

-- The continuation of `>>=` on a result and the state it left.
abbrev resume : {A B : Type 0} → (A → Action B) → Result Error A × World → Result Error B × World
resume f (ok a, w) = f a w
resume f (err e, w) = (err e, w)

pub Grows-after :
    {A B : Type 0} {i : ℕ} {m : Action A} {f : A → Action B}
    → Keeps m
    → ((a : A) → Grows i (f a))
    → Grows i (m >>= f)
Grows-after {i = i} {m = m} {f = f} k g = record { grown = λ w. go w (m w) (k.kept w) }
  where
    go :
        (w : World) (r : Result Error _ × World)
        → r.1.calls ≡ w.calls
        → Evolves (find i w.calls) (find i (◌>>=◌ (λ _. r) f w).1.calls)
    go w (ok a, w') e = rw (← e) ((g a).grown w')
    go w (err x, w') e = rw e (Evolves-refl _)

pub Grows-before :
    {A B : Type 0} {i : ℕ} {m : Action A} {f : A → Action B}
    → Grows i m
    → ((a : A) → Keeps (f a))
    → Grows i (m >>= f)
Grows-before {i = i} {m = m} {f = f} g k = record { grown = λ w. go w (m w) (g.grown w) }
  where
    go :
        (w : World) (r : Result Error _ × World)
        → Evolves (find i w.calls) (find i r.1.calls)
        → Evolves (find i w.calls) (find i (◌>>=◌ (λ _. r) f w).1.calls)
    go w (ok a, w') e = rw ((k a).kept w') e
    go w (err x, w') e = e

Keeps-bind :
    {A B : Type 0} {m : Action A} {f : A → Action B}
    → Keeps m
    → ((a : A) → Keeps (f a))
    → Keeps (m >>= f)
Keeps-bind {m = m} {f = f} k g = record { kept = λ w. go w (m w) (k.kept w) }
  where
    go :
        (w : World) (r : Result Error _ × World)
        → r.1.calls ≡ w.calls
        → (◌>>=◌ (λ _. r) f w).1.calls ≡ w.calls
    go w (ok a, w') e = (g a).kept w' ∙ e
    go w (err x, w') e = e

Grows-on_error :
    {A : Type 0} {i : ℕ} {m : Action A} {cleanup : Action (Unit {0})}
    → Grows i m
    → Keeps cleanup
    → Grows i (on_error m cleanup)
Grows-on_error {A} {i = i} {m = m} {cleanup = cleanup} g k = record {
  grown = λ w. go w (m w) (g.grown w);
}
  where
    go :
        (w : World) (r : Result Error A × World)
        → Evolves (find i w.calls) (find i r.1.calls)
        → Evolves (find i w.calls) (find i (on_error (λ _. r) cleanup w).1.calls)
    go w (ok a, w') e = e
    go w (err x, w') e = rw (k.kept w') e

Keeps-pure : {A : Type 0} (a : A) → Keeps (pure a)
Keeps-pure a = record { kept = λ w. refl }

pub Keeps-fail_if : (b : Bool) (e : Error) → Keeps (fail_if b e)
Keeps-fail_if b e = record { kept = λ w. refl }

pub Keeps-resolve : (mt : MediaType) → Keeps (resolve_media_type mt)
unfolding resolve_media_type
Keeps-resolve mt = record { kept = λ w. ground arith }

pub Keeps-mode : (mode : MonitorMode) → Keeps (mode_type mode)
Keeps-mode mode = record { kept = λ w. ground arith }

module _ (env : Env) where
  pub Keeps-get : (i : ℕ) → Keeps (get_call env i)
  unfolding get_call
  Keeps-get i = record { kept = λ w. refl }

  pub Keeps-next_id : Keeps (next_id env)
  unfolding next_id
  Keeps-next_id = record { kept = λ w. refl }

  Keeps-log :
      (c : Call) (kind : EventKind) (detail : Text) (now : ℕ)
      → Keeps (log_event env c kind detail now)
  unfolding log_event
  Keeps-log c kind detail now = record { kept = λ w. refl }

  pub Keeps-originate : (dest caller_id : Text) → Keeps (originate_channel env dest caller_id)
  unfolding originate_channel
  Keeps-originate dest caller_id = record { kept = λ w. ground arith }

  pub Keeps-supervised :
      (target : Call) (user : ℕ) (caller_id : String) (join : String → Command)
      → Keeps (supervised env target (join_channel env user caller_id join))
  unfolding join_channel
  Keeps-supervised target user caller_id join = record { kept = λ w. ground arith }

  -- A record that may be born is inserted at a free id, or nothing happens.
  pub Grows-create :
      (i : ℕ) (c : Call) → Evolves none (some (inserted_row c)) → Grows i (create_call env c)
  unfolding create_call
  Grows-create i c born = record {
    grown = λ w. Evolves-of_insert i c w.calls _ born (ground arith);
  }

  Keeps-abandon : (c : Call) → Keeps (abandon_leg env c)
  unfolding abandon_leg
  Keeps-abandon c = record { kept = λ w. ground arith }

  pub Grows-leg :
      (i : ℕ) (c : Call) → Evolves none (some (inserted_row c)) → Grows i (create_leg env c)
  unfolding create_leg
  Grows-leg i c born = Grows-on_error (Grows-create i c born) (Keeps-abandon c)

  -- The end of each creating method: the record is inserted and the event logged.
  pub Keeps-end :
      (c : Call) (kind : EventKind) (detail : Text) (now : ℕ)
      → Keeps (log_event env c kind detail now >>= λ _. pure c)
  Keeps-end c kind detail now = Keeps-bind (Keeps-log c kind detail now) (λ _. Keeps-pure c)
