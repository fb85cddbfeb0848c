-- ===== src/Acd/Tick.antt =====
-- internal/application/acd/service.go: one tick of the dispatcher. Its ids in Redis are decimal, as
-- Enqueue writes them.
use ccc.Prelude.{ℕ, ◌+◌, true, false, none, some, List, [], ◌∷◌}
use ccc.Acd.World.{SkillGroup, Backend, Env, World}
use ccc.Acd.Service.{expire_queued, dispatch_one}

module _ {S : Type 0} (b : Backend S) (env : Env) where
  -- The groups that are found, loaded before any is served.
  unfoldable pub load_groups : List ℕ → S → List (ℕ × SkillGroup)
  load_groups [] s = []
  load_groups (id ∷ ids) s =
      let rest = load_groups ids s in
      elim (b.find_group id s) [ none ↦ rest | some g ↦ (id, g) ∷ rest ]

  -- The loop over the groups.
  unfoldable pub serve_groups : List (ℕ × SkillGroup) → ℕ → World S → World S
  unfolding expire_queued dispatch_one
  serve_groups [] now w = w
  serve_groups ((id, g) ∷ rest) now w =
      serve_groups rest now (dispatch_one b env id g now (expire_queued b env id g now w))

  unfoldable pub tick : ℕ → World S → World S
  unfolding load_groups serve_groups
  tick now w =
      let w' : World S = record w { commands = w.commands + 1 } in
      elim (env.redis_fails w.commands) [
        | true ↦ w'
        | false ↦ serve_groups (env.walk (load_groups w.active_groups w.backend)) now w'
      ]
