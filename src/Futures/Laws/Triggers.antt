-- ===== src/Futures/Laws/Triggers.antt =====
-- Triggers (tpsl.service.ts): a claim is made once.
use mathlib.Core.Path.{ap}
use novacex.Prelude.{
  ℕ, ◌≡◌, refl, sym, ◌∙◌, inl, inr, false, Bool-cases, none, Option-cases, List, [], ◌∷◌, arith,
  ◌&&◌, ◌==◌,
}
use novacex.Prelude.Int.{ℤ}
use novacex.Futures.TpSl.{
  TpSlConfig, TpSlStore, claim_config, is_armed, PlaceOrder, TriggerType, closable, close_position,
  execute_trigger,
}

-- A second claim finds nothing armed.
claim_config_twice :
    (id : ℕ) (cs : List TpSlConfig)
    → claim_config id (claim_config id cs).0 ≡ ((claim_config id cs).0, false)
unfolding claim_config
claim_config_twice id [] = refl
claim_config_twice id (c ∷ cs) =
    let ih = claim_config_twice id cs in
    elim (Bool-cases (c.id == id && is_armed c)) [
      | inl e ↦ rw (e, claim_config) (ground (arith, ih))
      | inr e ↦ rw (e, claim_config) (ground (arith, ih))
    ]

claim_config_idle :
    (id : ℕ) (cs : List TpSlConfig)
    → (claim_config id cs).1 ≡ false
    → claim_config id cs ≡ (cs, false)
unfolding claim_config
claim_config_idle id [] h = refl
claim_config_idle id (c ∷ cs) h = elim (Bool-cases (c.id == id && is_armed c)) [
  | inl e ↦ absurd (ground arith)
  | inr e ↦
      let ih = claim_config_idle id cs (ground arith) in rw (e, claim_config) (ground (arith, ih))
]

close_position-configs :
    (place : PlaceOrder) (c : TpSlConfig) (x : TpSlStore)
    → (close_position place c x).1.configs ≡ x.configs
unfolding close_position
close_position-configs place c x = elim (Option-cases (closable c.position x.positions)) [
  | inl e ↦ rw (e, close_position) refl
  | inr (p, e) ↦ rw (e, close_position) refl
]

-- Where a row is not armed, a trigger does nothing.
execute_trigger_idle :
    (place : PlaceOrder) (c : TpSlConfig) (type : TriggerType) (price mark : ℤ) (x : TpSlStore)
    → (claim_config c.id x.configs).1 ≡ false
    → execute_trigger place c type price mark x ≡ (none, x)
unfolding execute_trigger
execute_trigger_idle place c type price mark x h = rw (h, execute_trigger) refl

executed-configs :
    (place : PlaceOrder) (c : TpSlConfig) (type : TriggerType) (price mark : ℤ) (x : TpSlStore)
    → (execute_trigger place c type price mark x).1.configs ≡ (claim_config c.id x.configs).0
unfolding execute_trigger
executed-configs place c type price mark x = elim (Bool-cases (claim_config c.id x.configs).1) [
  | inl e ↦
      rw (e, execute_trigger)
        (close_position-configs place c (record x { configs = (claim_config c.id x.configs).0 }))
  | inr e ↦ rw (e, execute_trigger) (ap (λ z. z.0) (sym (claim_config_idle c.id x.configs e)))
]

-- A trigger is executed at most once: after an execution that claimed it or found nothing to claim,
-- and whatever the order placement answered, no other caller with a row of the same identifier, for
-- either trigger and at any price, places an order or changes anything. The order may also have
-- failed.
pub execute_trigger_once :
    (place place' : PlaceOrder) (c c' : TpSlConfig) (type type' : TriggerType)
    (price price' mark mark' : ℤ) (x : TpSlStore)
    → c'.id ≡ c.id
    → let y = (execute_trigger place c type price mark x).1 in
      execute_trigger place' c' type' price' mark' y ≡ (none, y)
execute_trigger_once place place' c c' type type' price price' mark mark' x same =
    let y = (execute_trigger place c type price mark x).1 in
    let after = executed-configs place c type price mark x in
    execute_trigger_idle place' c' type' price' mark' y (
      ap (λ i. (claim_config i y.configs).1) same
      ∙ ap (λ l. (claim_config c.id l).1) after
      ∙ ap (λ z. z.1) (claim_config_twice c.id x.configs))
