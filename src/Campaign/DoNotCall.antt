-- ===== src/Campaign/DoNotCall.antt =====
-- What an import lets through: internal/domain/campaign/service.go, ImportCases.
use ccc.Prelude.{
  ℕ, ◌+◌, String, Bool, true, false, ◌&&◌, ◌||◌, none, some, List, [], ◌∷◌, ◌++◌, ◌≡◌, refl, sym,
  ◌==◌, ltb, is_empty, arith, inl, inr, ◌⊎◌, Bool-cases, Option-cases, length,
}
use text.Mathlib.TextEquality.{eq_iff}
use mathlib.Core.Path.{ap}
use mathlib.Core.List.{append-nil, append_assoc}
use ccc.Flow.Names.{elem, ◌==◌ as same_text}
use ccc.Campaign.Entity.{Campaign, CampaignCase}
use ccc.Campaign.World.{
  Env, World, DncEntry, check_numbers, check_batch, asked_dnc, has_none, insert_all, get_campaign,
  update_campaign, bulk_create, campaign_of,
}
use ccc.Campaign.Service.{CaseInput, numbers_of, valid_cases, import_cases, store_cases, imported}

-- Whether a tenant may not call a number.
abbrev pub is_blocked : ℕ → ℕ → String → List DncEntry → Bool
is_blocked tenant now number [] = false
is_blocked tenant now number (e ∷ es) =
    ((e.tenant_id == tenant)
      && same_text e.number number
      && elim e.expires_at [ none ↦ true | some at ↦ ltb now at ])
    || is_blocked tenant now number es

-- Cases with a number that the tenant may call.
abbrev pub Callable : ℕ → ℕ → List DncEntry → List CampaignCase → Type 0
Callable tenant now es [] = Unit
Callable tenant now es (c ∷ cs) =
    (is_empty c.phone_number ≡ false)
    × (is_blocked tenant now c.phone_number es ≡ false)
    × Callable tenant now es cs

check_numbers-elem :
    (tenant now : ℕ) (numbers : List String) (number : String) (es : List DncEntry)
    → is_blocked tenant now number es ≡ true
    → elem number numbers ≡ true
    → elem number (check_numbers tenant now numbers es) ≡ true
unfolding check_numbers elem
check_numbers-elem tenant now numbers number [] b h = cc
check_numbers-elem tenant now numbers number (e ∷ es) b h = ground (
  arith,
  check_numbers-elem tenant now numbers number es,
  eq_iff e.number number,
  ap (λ n. elem n numbers),
)

numbers_of-elem :
    (n : String) (input : CaseInput) (inputs : List CaseInput)
    → elem n (numbers_of inputs) ≡ true
    → elem n (numbers_of (input ∷ inputs)) ≡ true
unfolding numbers_of elem
numbers_of-elem n input inputs h = ground (arith, h)

numbers_of-here :
    (input : CaseInput) (inputs : List CaseInput)
    → is_empty input.phone_number ≡ false
    → elem input.phone_number (numbers_of (input ∷ inputs)) ≡ true
unfolding numbers_of elem
numbers_of-here input inputs e = rw e (ground (arith, eq_iff input.phone_number input.phone_number))

valid_cases-Callable :
    (env : Env) (c : Campaign) (campaign_id : ℕ) (blocked : List String) (now i : ℕ)
    (es : List DncEntry) (inputs : List CaseInput)
    → ((number : String)
        → elem number (numbers_of inputs) ≡ true
        → is_blocked c.tenant_id now number es ≡ true
        → elem number blocked ≡ true)
    → Callable c.tenant_id now es (valid_cases env c campaign_id blocked now i inputs)
unfolding valid_cases numbers_of elem
valid_cases-Callable env c campaign_id blocked now i es [] h = tt
valid_cases-Callable env c campaign_id blocked now i es (input ∷ inputs) h =
    let rest : (j : ℕ)
        → Callable c.tenant_id now es (valid_cases env c campaign_id blocked now j inputs) =
      λ j.
        valid_cases-Callable env c campaign_id blocked now j es inputs
          (λ n m b. h n (numbers_of-elem n input inputs m) b) in
    elim (Bool-cases (is_empty input.phone_number)) [
      | inl e ↦ rw e (rest i)
      | inr e ↦ elim (Bool-cases (elem input.phone_number blocked)) [
        | inl f ↦ rw (e, f) (rest i)
        | inr f ↦
            rw (e, f)
              (
                e,
                ground (
                  arith,
                  h input.phone_number (numbers_of-here input inputs e),
                  f,
                  Bool-cases (is_blocked c.tenant_id now input.phone_number es),
                ),
                rest (i + 1),
              )
      ]
    ]

insert_all-append : (cs t t' : List CampaignCase) → insert_all cs t ≡ some t' → t' ≡ t ++ cs
unfolding insert_all
insert_all-append [] t t' h = rw (append-nil t) (ground (arith, h))
insert_all-append (c ∷ cs) t t' h =
    rw (sym (append_assoc t (c ∷ []) cs))
      (insert_all-append cs (t ++ c ∷ []) t' (ground (arith, h)))

-- The cases that a transaction leaves.
store_cases-append :
    (env : Env) (c : Campaign) (cs : List CampaignCase) (now : ℕ) (w : World)
    → ((store_cases env c cs now w).1.cases ≡ w.cases)
      ⊎ ((store_cases env c cs now w).1.cases ≡ w.cases ++ cs)
unfolding store_cases bulk_create update_campaign
store_cases-append env c [] now w = inl refl
store_cases-append env c (d ∷ ds) now w = elim (Option-cases (insert_all (d ∷ ds) w.cases)) [
  | inl e ↦ inl (ground (arith, e))
  | inr (t, e) ↦ elim (Bool-cases (env.db_fails w.queries)) [
    | inl f ↦ inl (ground (arith, e, f))
    | inr f ↦ inr (ground (arith, e, f, insert_all-append (d ∷ ds) w.cases t e))
  ]
]

elem-some : (x : String) (xs : List String) → elem x xs ≡ true → has_none xs ≡ false
unfolding elem
elem-some x [] h = cc
elem-some x (y ∷ ys) h = refl

imported-Callable :
    (env : Env) (c : Campaign) (campaign_id : ℕ) (inputs : List CaseInput) (now : ℕ) (w : World)
    → env.has_dnc ≡ true
    → env.db_fails w.queries ≡ false
    → Callable c.tenant_id now w.dnc_list (imported env c campaign_id inputs now w)
unfolding check_batch
imported-Callable env c campaign_id inputs now w has works =
    valid_cases-Callable env c campaign_id _ now w.drawn w.dnc_list inputs (λ number m b.
      rw (has, works, elem-some number (numbers_of inputs) m)
        (check_numbers-elem c.tenant_id now (numbers_of inputs) number w.dnc_list b m))

asked_dnc_cases :
    (env : Env) (numbers : List String) (w : World) → (asked_dnc env numbers w).cases ≡ w.cases
unfolding asked_dnc
asked_dnc_cases env numbers w = ground arith

-- An import adds cases at the end of the table or none; and with a do-not-call service whose query
-- works, none of them has a number that is empty or that the tenant of the campaign may not call.
pub import_cases-Callable :
    (env : Env) (campaign_id : ℕ) (inputs : List CaseInput) (now : ℕ) (w : World) (c : Campaign)
    → env.has_dnc ≡ true
    → env.db_fails (w.queries + 1) ≡ false
    → campaign_of campaign_id w.campaigns ≡ some c
    → (cs : List CampaignCase) × ((import_cases env campaign_id inputs now w).1.cases
        ≡ w.cases ++ cs)
      × Callable c.tenant_id now w.dnc_list cs
unfolding import_cases get_campaign
import_cases-Callable env campaign_id inputs now w c has works e =
    elim (Bool-cases (env.db_fails w.queries)) [
      | inl f ↦ ([], ground (arith, f, append-nil w.cases), tt)
      | inr f ↦
          let w' : World = record w { queries = w.queries + 1 } in
          let cs = imported env c campaign_id inputs now w' in
          let w'' : World = asked_dnc env (numbers_of inputs) w' in
          let same = asked_dnc_cases env (numbers_of inputs) w' in
          elim (store_cases-append env c cs now (record w'' { drawn = w''.drawn + length cs })) [
            | inl kept ↦ ([], ground (arith, f, e, kept, append-nil w.cases, same), tt)
            | inr added ↦ (
              cs,
              ground (arith, f, e, added, same),
              imported-Callable env c campaign_id inputs now w' has works,
            )
          ]
    ]
