-- ===== src/Lifecycle/Slots.antt =====
-- internal/application/lifecycle/service.go and internal/infrastructure/redis/concurrency.go: how many
-- calls a tenant may have at once.
use ccc.Prelude.{
  ℕ, zero, suc, ◌+◌, ◌≡◌, ◌≢◌, sym, ◌∙◌, ap, true, false, Option, some, arith, leb, if◌then◌else◌,
  Result-cases, inl, inr, ok, err, ==_refl,
}
use ccc.Prelude.Int.{ℤ, pos, negsuc, ◌+ℤ◌}
use ccc.Call.Entity.{Call, Error, HangupBy, HangupReason, unset_media, valid_media_type}
use ccc.Call.World.{Env as CallEnv, World as CallWorld}
use ccc.Call.Control
use ccc.Call.Create.{CreateCallInput, create_inbound_call, resolve_media_type}
use ccc.Lifecycle.World.{
  Env, World, Outcome, acquire, release, check_concurrency_limit, count_at, call_failed,
}
use ccc.Lifecycle.Service.{continue, after_end, end_call}
use ccc.Lifecycle.Inbound.{Menus, received, handle_inbound_call}
use ccc.Lifecycle.Frame.{after_end-LetGo}

create_inbound_call-bad :
    (env : CallEnv) (input : CreateCallInput) (now : ℕ) (w : CallWorld)
    → valid_media_type input.media_type ≡ false
    → input.media_type ≢ unset_media
    → create_inbound_call env input now w ≡ (err Error.invalid_media_type, w)
unfolding create_inbound_call resolve_media_type
create_inbound_call-bad env input now w bad set = ground (arith, bad, set)

check-calls : (env : Env) (t : ℕ) (w : World) → (check_concurrency_limit env t w).1.calls ≡ w.calls
unfolding check_concurrency_limit acquire
check-calls env t w = ground arith

-- Attempts to admit a call, one after the other, with the number of those that were let in.
unfoldable pub admit_times : Env → ℕ → ℕ → World → ℕ × World
admit_times env tenant zero w = (0, w)
admit_times env tenant (suc n) w =
    let (allowed, w') = check_concurrency_limit env tenant w in
    let (k, w'') = admit_times env tenant n w' in (if allowed then suc k else k, w'')

abbrev pub min : ℕ → ℕ → ℕ
min a b = if leb a b then a else b

module _ (env : Env) (limit_of : ℕ → ℤ) (tenant limit : ℕ) (guarded : env.limit_of ≡ some limit_of)
    (never : (n : ℕ) → env.redis_fails n ≡ false)
    (limited : limit_of tenant ≡ pos (suc limit)) where
  full :
      (w : World)
      → w.slots tenant ≡ pos (suc limit)
      → ((check_concurrency_limit env tenant w).0 ≡ false)
        × ((check_concurrency_limit env tenant w).1.slots tenant ≡ w.slots tenant)
  unfolding check_concurrency_limit acquire ◌+ℤ◌
  full w h = ground (
    arith,
    guarded,
    never w.redis_commands,
    never (w.redis_commands + 1),
    limited,
    ==_refl tenant,
    h,
  )

  room :
      (p : ℕ) (w : World)
      → w.slots tenant +ℤ pos (suc p) ≡ pos (suc limit)
      → ((check_concurrency_limit env tenant w).0 ≡ true)
        × ((check_concurrency_limit env tenant w).1.slots tenant ≡ w.slots tenant +ℤ pos 1)
  unfolding check_concurrency_limit acquire ◌+ℤ◌
  room p w h = ground (
    arith,
    guarded,
    never w.redis_commands,
    never (w.redis_commands + 1),
    limited,
    ==_refl tenant,
    h,
  )

  less :
      (p : ℕ) (z : ℤ) → z +ℤ pos (suc p) ≡ pos (suc limit) → z +ℤ pos 1 +ℤ pos p ≡ pos (suc limit)
  unfolding ◌+ℤ◌
  less p z h = ground (arith, h)

  at_limit : (z : ℤ) → z +ℤ pos 0 ≡ pos (suc limit) → z ≡ pos (suc limit)
  unfolding ◌+ℤ◌
  at_limit z h = ground (arith, h)

  one_more :
      (p : ℕ) (z : ℤ)
      → z +ℤ pos p ≡ pos (suc limit)
      → z +ℤ negsuc 0 +ℤ pos (suc p) ≡ pos (suc limit)
  unfolding ◌+ℤ◌
  one_more p z h = ground (arith, h)

  -- With Redis answering, of any number of calls that arrive one after the other as many are let in
  -- as there are places between the tenant's counter and its limit.
  pub admit_times-min :
      (n p : ℕ) (w : World)
      → w.slots tenant +ℤ pos p ≡ pos (suc limit)
      → (admit_times env tenant n w).0 ≡ min n p
  unfolding admit_times
  admit_times-min zero p w h = ground arith
  admit_times-min (suc n) zero w h =
      let at : w.slots tenant ≡ pos (suc limit) = at_limit (w.slots tenant) h in
      let (refused, same) = full w at in
      let w' : World = (check_concurrency_limit env tenant w).1 in
      let rest = admit_times-min n zero w' (ap (λ z. z +ℤ pos 0) same ∙ h) in
      ground (arith, refused, rest)
  admit_times-min (suc n) (suc p) w h =
      let (allowed, more) = room p w h in
      let w' : World = (check_concurrency_limit env tenant w).1 in
      let rest = admit_times-min n p w' (ap (λ z. z +ℤ pos p) more ∙ less p (w.slots tenant) h) in
      ground (arith, allowed, rest)

  releases : (t : ℕ) (w : World) → (release env t w).slots ≡ count_at t (negsuc 0) w.slots
  unfolding release
  releases t w = ground (arith, guarded, never w.redis_commands)

  end_call-slots :
      (id : ℕ) (reason : HangupReason) (by : Option HangupBy) (now : ℕ) (w : World) (c : Call)
      → (end_call env id reason by now w).0 ≡ ok c
      → (end_call env id reason by now w).1.slots ≡ count_at c.tenant_id (negsuc 0) w.slots
  unfolding end_call continue
  end_call-slots id reason by now w c done =
      let run = Control.end_call env.calls id reason by now w.calls in
      let w1 : World = record w { calls = run.1 } in
      elim (Result-cases run.0) [
        | inr (e, failed) ↦ ground (arith, failed, done)
        | inl (c0, ran) ↦
            let gone = after_end-LetGo env c0 now w1 in
            let eq : end_call env id reason by now w
                ≡ (ok (after_end env c0 now w1).0, (after_end env c0 now w1).1) =
              ground (arith, ran) in
            let same : (after_end env c0 now w1).0 ≡ c = ground (arith, done, ran) in
            ap (λ (r : Outcome Call). r.1.slots) eq
            ∙ gone.released
            ∙ releases c0.tenant_id w1
            ∙ ap (λ t. count_at t (negsuc 0) w.slots)
                (sym gone.alike.same_tenant ∙ ap (λ (d : Call). d.tenant_id) same)
      ]

  end_call-place :
      (id : ℕ) (reason : HangupReason) (by : Option HangupBy) (now : ℕ) (w : World) (c : Call)
      → (end_call env id reason by now w).0 ≡ ok c
      → c.tenant_id ≡ tenant
      → (end_call env id reason by now w).1.slots tenant ≡ w.slots tenant +ℤ negsuc 0
  end_call-place id reason by now w c done mine =
      ap (λ (m : ℕ → ℤ). m tenant) (end_call-slots id reason by now w c done)
      ∙ ground (arith, mine, ==_refl tenant)

  -- With Redis answering, a call that EndCall ends gives a place to its tenant, whether one was taken
  -- for it or not: with `p` places left before, `p + 1` of the calls that then arrive are let in.
  pub end_call-frees :
      (id : ℕ) (reason : HangupReason) (by : Option HangupBy) (now n p : ℕ) (w : World) (c : Call)
      → (end_call env id reason by now w).0 ≡ ok c
      → c.tenant_id ≡ tenant
      → w.slots tenant +ℤ pos p ≡ pos (suc limit)
      → (admit_times env tenant n (end_call env id reason by now w).1).0 ≡ min n (suc p)
  end_call-frees id reason by now n p w c done mine h =
      admit_times-min n (suc p) (end_call env id reason by now w).1 (
        ap (λ z. z +ℤ pos (suc p)) (end_call-place id reason by now w c done mine)
        ∙ one_more p (w.slots tenant) h)

  -- An inbound call with a media type that the service does not know is refused with an error and not
  -- stored, and the place that was taken for it stays taken.
  pub handle_inbound_call-keeps_slot :
      {F : Type 0} (menus : Option (Menus F)) (input : CreateCallInput) (now p : ℕ) (w : World)
      → input.tenant_id ≡ tenant
      → valid_media_type input.media_type ≡ false
      → input.media_type ≢ unset_media
      → w.slots tenant +ℤ pos (suc p) ≡ pos (suc limit)
      → ((handle_inbound_call env menus input now w).0 ≡ err (call_failed Error.invalid_media_type))
        × ((handle_inbound_call env menus input now w).1.calls.calls ≡ w.calls.calls)
        × ((handle_inbound_call env menus input now w).1.slots tenant ≡ w.slots tenant +ℤ pos 1)
  unfolding handle_inbound_call received
  handle_inbound_call-keeps_slot menus input now p w mine bad set h =
      let w1 : World = (check_concurrency_limit env tenant w).1 in
      let (allowed, more) = room p w h in
      let same : check_concurrency_limit env input.tenant_id w
          ≡ check_concurrency_limit env tenant w =
        ap (λ t. check_concurrency_limit env t w) mine in
      let refused = create_inbound_call-bad env.calls input now w1.calls bad set in
      let eq : handle_inbound_call env menus input now w
          ≡ (err (call_failed Error.invalid_media_type), record w1 { calls = w1.calls }) =
        ground (arith, same, allowed, refused) in
      (
        ap (λ (r : Outcome Call). r.0) eq,
        ap (λ (r : Outcome Call). r.1.calls.calls) eq
            ∙ ap (λ (v : CallWorld). v.calls) (check-calls env tenant w),
        ap (λ (r : Outcome Call). r.1.slots tenant) eq ∙ more,
      )
