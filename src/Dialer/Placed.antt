-- ===== src/Dialer/Placed.antt =====
-- The calls that one tick of a dialer places: internal/application/dialer/service.go.
use ccc.Prelude.{
  Option, none, ℕ, zero, suc, ◌+◌, ◌≤◌, ◌≡◌, refl, sym, none, some, List, [], ◌∷◌, ◌++◌, inl, inr,
  arith, Option-cases, ==_refl,
}
use mathlib.Core.Path.{subst, ◌∙◌}
use mathlib.Core.List.{append_assoc, append-nil}
use ccc.Campaign.Entity.{Campaign, CampaignCase}
use ccc.Campaign.World as Campaigns
use ccc.Campaign.Service.{get_next_case}
use ccc.Dialer.World.{Env, World, Spawn}
use ccc.Dialer.Service.{next_case, spawn, dial_slots, one_more}

abbrev pub copies : {A : Type 0} → ℕ → A → List A
copies zero x = []
copies (suc n) x = x ∷ copies n x

abbrev pub spawn_of : Campaign → CampaignCase → Spawn
spawn_of c cs = record { campaign_id = c.id; tenant_id = c.tenant_id; dialed_case = cs }

-- `k` calls for the case found; none without one.
abbrev pub calls_for : ℕ → Campaign → Option CampaignCase → List Spawn
calls_for k c none = []
calls_for k c (some cs) = copies k (spawn_of c cs)

-- `k` calls more, all for the case that is next when the tick begins.
pub record Placed (k : ℕ) (c : Campaign) (state now : ℕ) (w w' : World) : Type 0 where
  pub active_more : (w'.states state).active_calls ≡ (w.states state).active_calls + k
  pub dialed_more : (w'.states state).total_dialed ≡ (w.states state).total_dialed + k
  pub same_case :
      w'.spawned ≡ w.spawned ++ calls_for k c (Campaigns.next_pending c.id now w.store.cases)

calls_for-zero : (c : Campaign) (o : Option CampaignCase) → calls_for 0 c o ≡ []
calls_for-zero c none = refl
calls_for-zero c (some cs) = refl

pub Placed-none :
    (c : Campaign) (state now : ℕ) (w w' : World)
    → w'.states ≡ w.states
    → w'.spawned ≡ w.spawned
    → Placed 0 c state now w w'
Placed-none c state now w w' s t = record {
  active_more = rw s (omega arith);
  dialed_more = rw s (omega arith);
  same_case =
      rw (calls_for-zero c (Campaigns.next_pending c.id now w.store.cases))
        (t ∙ sym (append-nil w.spawned));
}

-- A tick may ask for the campaign first.
pub Placed-asked :
    (k : ℕ) (c : Campaign) (state now q : ℕ) (w x : World)
    → Placed k c state now (record w { store = record w.store { queries = q } }) x
    → Placed k c state now w x
Placed-asked k c state now q w x p = record {
  active_more = p.active_more;
  dialed_more = p.dialed_more;
  same_case = p.same_case;
}

module _ (env : Env) where
  next_case-found :
      (id now : ℕ) (w : World) (cs : CampaignCase)
      → (next_case env id now w).0 ≡ some cs
      → Campaigns.next_pending id now w.store.cases ≡ some cs
  unfolding next_case get_next_case
  next_case-found id now w cs h = ground (arith, h)

  pub dial_slots-Placed :
      (n : ℕ) (c : Campaign) (state now : ℕ) (w : World)
      → (k : ℕ) × (k ≤ n) × Placed k c state now w (dial_slots env n c state now w)
  unfolding dial_slots next_case get_next_case
  dial_slots-Placed zero c state now w = (0, omega arith, Placed-none c state now w w refl refl)
  dial_slots-Placed (suc n) c state now w =
      let w1 = (next_case env c.id now w).1 in
      elim (Option-cases (next_case env c.id now w).0) [
        | inl e ↦
            let same : dial_slots env (suc n) c state now w ≡ w1 = ground (arith, e) in
            (
              0,
              omega arith,
              subst (Placed 0 c state now w) (sym same) (Placed-none c state now w w1 refl refl),
            )
        | inr (cs, e) ↦
            let w2 = spawn env c cs state w1 in
            let next : Campaigns.next_pending c.id now w.store.cases ≡ some cs =
              next_case-found c.id now w cs e in
            let here : w2.states state ≡ one_more (w.states state) = rw (==_refl state) refl in
            let (k, small, rest) = dial_slots-Placed n c state now w2 in
            let same : dial_slots env (suc n) c state now w ≡ dial_slots env n c state now w2 =
              ground (arith, e) in
            (
              suc k,
              omega (arith, small),
              subst (Placed (suc k) c state now w) (sym same) (record {
                active_more = rest.active_more ∙ rw here (omega arith);
                dialed_more = rest.dialed_more ∙ rw here (omega arith);
                same_case = rw next (
                    rest.same_case
                    ∙ rw next
                        (append_assoc w.spawned (spawn_of c cs ∷ []) (copies k (spawn_of c cs))));
              }),
            )
      ]
