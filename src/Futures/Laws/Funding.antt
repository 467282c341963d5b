-- ===== src/Futures/Laws/Funding.antt =====
-- Funding (funding.service.ts): the bounds of the rate, what a payer pays, and one settlement for
-- each epoch.
use mathlib.Core.Path.{subst}
use novacex.Prelude.{
  ℕ, ◌≡◌, refl, ◌⊎◌, inl, inr, true, Bool-cases, Option, some, Option-cases, List, [], ◌∷◌, ◌++◌,
  arith, ◌||◌,
}
use novacex.Prelude.Int.{ℤ, pos, neg, ◌+ℤ◌, ◌-ℤ◌, ◌≤ℤ◌, ◌<ℤ◌, ltb_ℤ, leb_ℤ, ltb_ℤ→lt}
use novacex.Prelude.Result.{Result, ok, >>=_passed}
use novacex.Decimal.Value.{div_dec}
use novacex.Futures.{Position, FuturesError}
use novacex.Futures.Funding.{
  FundingRate, funding_cap, funding_floor, clamp_rate, rate_at, calculate_adaptive_funding_rate,
  FundingSurroundings, FundingStore, FundingHistory, is_settled_epoch, open_positions, payments_of,
  applied_rate, history_row, settle_payments, settle_positions, settle_funding_interval,
}

rate_same : {a b : FundingRate} → ◌≡◌ {A = Option FundingRate} (some a) (some b) → a ≡ b
rate_same h = cc

clamp_within : (raw : ℤ) → (funding_floor ≤ℤ clamp_rate raw) × (clamp_rate raw ≤ℤ funding_cap)
unfolding clamp_rate neg
clamp_within raw = (ground arith, ground arith)

clamp-cases : (raw : ℤ) → (clamp_rate raw ≡ raw) ⊎ (funding_cap <ℤ raw) ⊎ (raw <ℤ funding_floor)
unfolding clamp_rate neg
clamp-cases raw = elim (Bool-cases (ltb_ℤ funding_cap raw)) [
  | inl e ↦ inr (inl (ltb_ℤ→lt funding_cap raw e))
  | inr e ↦ elim (Bool-cases (ltb_ℤ raw funding_floor)) [
    | inl k ↦ inr (inr (ltb_ℤ→lt raw funding_floor k))
    | inr k ↦ inl (rw (e, k, clamp_rate) refl)
  ]
]

-- The result of the clamp: within its bounds, and what it is given where that is within them.
abbrev pub IsClamped : ℤ → ℤ → Type 0
IsClamped raw rate =
    (neg (pos 5000000000000000) ≤ℤ rate)
    × (rate ≤ℤ pos 5000000000000000)
    × ((rate ≡ raw) ⊎ (pos 5000000000000000 <ℤ raw) ⊎ (raw <ℤ neg (pos 5000000000000000)))

-- The funding rate for a mark and an index price is never below -0.5 % or above 0.5 %, and is the
-- difference of the mark price from the index price, divided by the index price, plus an interest of
-- 0.01 %, whenever that is within those bounds. It is found for positive prices only.
pub calculate_adaptive_funding_rate_bounds :
    (mark index : ℤ) (r : FundingRate)
    → calculate_adaptive_funding_rate (some mark) (some index) ≡ some r
    → (pos 0 <ℤ mark)
      × (pos 0 <ℤ index)
      × IsClamped (div_dec (mark -ℤ index) index +ℤ pos 100000000000000) r.funding_rate
unfolding calculate_adaptive_funding_rate
calculate_adaptive_funding_rate_bounds mark index r h =
    elim (Bool-cases (leb_ℤ mark (pos 0) || leb_ℤ index (pos 0))) [
      | inl bad ↦ absurd (ground arith)
      | inr good ↦
          let same : rate_at mark index ≡ r =
            rate_same (rw (good, calculate_adaptive_funding_rate) at h) in
          let raw = (rate_at mark index).raw_funding_rate in
          (
            ground arith,
            ground arith,
            subst (λ z. IsClamped raw z.funding_rate) same
                ((clamp_within raw).0, (clamp_within raw).1, clamp-cases raw),
          )
    ]

settled-append :
    (symbol epoch : ℕ) (rate : ℤ) (r : FundingRate) (hs : List FundingHistory)
    → is_settled_epoch symbol epoch (hs ++ history_row symbol epoch rate r ∷ []) ≡ true
unfolding is_settled_epoch
settled-append symbol epoch rate r [] = ground arith
settled-append symbol epoch rate r (h ∷ hs) = ground (arith, settled-append symbol epoch rate r hs)

funding_same :
    {a b : ℕ × FundingStore}
    → ◌≡◌ {A = Result FuturesError (ℕ × FundingStore)} (ok a) (ok b)
    → a ≡ b
funding_same h = cc

settle_positions-history :
    (u : FundingSurroundings) (symbol epoch : ℕ) (r : FundingRate) (p : Position)
    (ps : List Position) (x : FundingStore) (s : ℕ × FundingStore)
    → settle_positions u symbol epoch r (p ∷ ps) x ≡ ok s
    → is_settled_epoch symbol epoch s.1.history ≡ true
unfolding settle_positions
settle_positions-history u symbol epoch r p ps x s h =
    let rate = applied_rate u r in
    let (t, _, last) =
      >>=_passed
        (settle_payments u symbol epoch rate (payments_of r.mark_price rate (p ∷ ps)) (0, x)) _ h in
    subst (λ z. is_settled_epoch symbol epoch z.1.history ≡ true) (funding_same last)
      (settled-append symbol epoch rate r t.1.history)

settled_again :
    (v : FundingSurroundings) (symbol epoch : ℕ) (x : FundingStore)
    → is_settled_epoch symbol epoch x.history ≡ true
    → settle_funding_interval v symbol epoch x ≡ ok (0, x)
unfolding settle_funding_interval
settled_again v symbol epoch x h =
    elim (Option-cases
      (calculate_adaptive_funding_rate (v.mark_prices symbol) (v.index_prices symbol))) [
        | inl none_found ↦ rw (none_found, settle_funding_interval) refl
        | inr (r, found) ↦ rw (found, h, settle_funding_interval) refl
      ]

-- An epoch is settled once: after a settlement that succeeds, of a symbol that has a funding rate
-- and an open position, another for the same symbol and epoch moves nothing and writes nothing,
-- whatever the prices are by then.
pub settle_funding_interval_once :
    (u v : FundingSurroundings) (symbol epoch : ℕ) (x : FundingStore) (s : ℕ × FundingStore)
    (r : FundingRate) (p : Position) (ps : List Position)
    → calculate_adaptive_funding_rate (u.mark_prices symbol) (u.index_prices symbol) ≡ some r
    → open_positions symbol x.positions ≡ p ∷ ps
    → settle_funding_interval u symbol epoch x ≡ ok s
    → settle_funding_interval v symbol epoch s.1 ≡ ok (0, s.1)
unfolding settle_funding_interval
settle_funding_interval_once u v symbol epoch x s r p ps rated some_open h =
    elim (Bool-cases (is_settled_epoch symbol epoch x.history)) [
      | inl before ↦
          let same : (0, x) ≡ s = funding_same (rw (rated, before, settle_funding_interval) at h) in
          subst (λ z. settle_funding_interval v symbol epoch z.1 ≡ ok (0, z.1)) same
            (settled_again v symbol epoch x before)
      | inr new ↦ settled_again v symbol epoch s.1 (
          settle_positions-history u symbol epoch r p ps x s
            (rw (rated, new, some_open, settle_funding_interval) at h))
    ]
