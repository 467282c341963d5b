-- ===== src/Futures/Laws/Recovering.antt =====
-- The loop over the counterparties of `processAdlEvent` (adl.service.ts): nothing is recovered twice.
use mathlib.Core.Path.{subst}
use novacex.Prelude.{◌≡◌, refl, ◌∙◌, inl, inr, Bool-cases, List, [], ◌∷◌, arith}
use novacex.Prelude.Int.{ℤ, pos, ◌+ℤ◌, ◌-ℤ◌, ◌≤ℤ◌, ◌<ℤ◌, ltb_ℤ, leb_ℤ, int_laws, +ℤ_parts}
use novacex.Prelude.Result.{Result, ok, >>=_passed}
use novacex.Decimal.Value.{mul_dec}
use novacex.Futures.{Position, FuturesError}
use novacex.Futures.Positions.{divided}
use novacex.Futures.Evaluation.{AdlEvent}
use novacex.Futures.Adl.{
  AdlSurroundings, Extraction, denied_profit, partial_extraction, without_dust, aligned, extraction,
  post_deleveraging, Recovery, deleverage_one, deleverage_all,
}
use novacex.Futures.Laws.Deleveraging.{denied_nonneg}

partial_nonneg :
    (p : Position) (mark bankruptcy quantity : ℤ)
    → pos 0 <ℤ denied_profit p p.quantity mark bankruptcy
    → pos 0 ≤ℤ (partial_extraction p mark bankruptcy quantity).recovered_deficit
partial_nonneg p mark bankruptcy quantity h = elim (Bool-cases (leb_ℤ p.quantity quantity)) [
  | inl e ↦ rw (e, partial_extraction) (denied_nonneg p p.quantity mark bankruptcy h)
  | inr e ↦ rw (e, partial_extraction) (denied_nonneg p quantity mark bankruptcy h)
]

extraction_same :
    {a b : Extraction} → ◌≡◌ {A = Result FuturesError Extraction} (ok a) (ok b) → a ≡ b
extraction_same h = cc

-- What is recovered from a counterparty is not negative.
extraction_nonneg :
    (p : Position) (mark bankruptcy : ℤ) (pair : ℤ × ℤ) (remaining : ℤ) (t : Extraction)
    → pos 0 <ℤ denied_profit p p.quantity mark bankruptcy
    → extraction p mark bankruptcy pair remaining ≡ ok t
    → pos 0 ≤ℤ t.recovered_deficit
unfolding extraction
extraction_nonneg p mark bankruptcy (lot, least) remaining t h done =
    let denied = denied_profit p p.quantity mark bankruptcy in
    elim (Bool-cases (ltb_ℤ remaining denied)) [
      | inl e ↦
          let (ratio, _, rest) =
            >>=_passed (divided remaining denied) _ (rw (e, extraction) at done) in
          let (lots, _, last) = >>=_passed (divided (mul_dec p.quantity ratio) lot) _ rest in
          subst (λ z. pos 0 ≤ℤ z.recovered_deficit) (extraction_same last)
            (partial_nonneg p mark bankruptcy (without_dust p bankruptcy least (aligned lots lot))
              h)
      | inr e ↦
          subst (λ z. pos 0 ≤ℤ z.recovered_deficit) (extraction_same (rw (e, extraction) at done))
            (denied_nonneg p p.quantity mark bankruptcy h)
    ]

-- A run of the loop only moves what remains into what has been extracted.
pub record Recovers (r s : Recovery) : Type 0 where
  pub grows : r.total_extracted ≤ℤ s.total_extracted
  pub moves : s.remaining_deficit +ℤ s.total_extracted ≡ r.remaining_deficit +ℤ r.total_extracted

untouched : (r : Recovery) → Recovers r r
untouched r = record { grows = omega arith; moves = refl }

chained : (r s t : Recovery) → Recovers r s → Recovers s t → Recovers r t
chained r s t h k = record { grows = omega (arith, h.grows, k.grows); moves = k.moves ∙ h.moves }

recovery_same : {a b : Recovery} → ◌≡◌ {A = Result FuturesError Recovery} (ok a) (ok b) → a ≡ b
recovery_same h = cc

pub add_grows : (a b : ℤ) → pos 0 ≤ℤ b → a ≤ℤ a +ℤ b
add_grows a b h = ground (arith, +ℤ_parts a b)

shifted : (a b x : ℤ) → a -ℤ x +ℤ (b +ℤ x) ≡ a +ℤ b
shifted a b x = omega int_laws

module _ (u : AdlSurroundings) (e : AdlEvent) (mark bankruptcy : ℤ) (pair : ℤ × ℤ) where
  deleverage_one-Recovers :
      (p : Position) (r s : Recovery)
      → pos 0 <ℤ denied_profit p p.quantity mark bankruptcy
      → deleverage_one u e mark bankruptcy pair p r ≡ ok s
      → Recovers r s
  unfolding deleverage_one
  deleverage_one-Recovers p r s denied h =
      let (t, extracted, rest) =
        >>=_passed (extraction p mark bankruptcy pair r.remaining_deficit) _ h in
      let (ratio, _, posting) = >>=_passed (divided t.reduce_quantity p.quantity) _ rest in
      let released = mul_dec p.initial_margin ratio in
      let (db, _, last) =
        >>=_passed (post_deleveraging u e p bankruptcy released t r.db) _ posting in
      let some_taken =
        extraction_nonneg p mark bankruptcy pair r.remaining_deficit t denied extracted in
      subst (Recovers r) (recovery_same last) (record {
        grows = add_grows r.total_extracted t.recovered_deficit some_taken;
        moves = shifted r.remaining_deficit r.total_extracted t.recovered_deficit;
      })

  pub deleverage_all-Recovers :
      (ps : List Position) (r s : Recovery)
      → deleverage_all u e mark bankruptcy pair ps r ≡ ok s
      → Recovers r s
  unfolding deleverage_all
  deleverage_all-Recovers [] r s h = subst (Recovers r) (recovery_same h) (untouched r)
  deleverage_all-Recovers (p ∷ ps) r s h = elim (Bool-cases (leb_ℤ r.remaining_deficit (pos 0))) [
    | inl done ↦ subst (Recovers r) (recovery_same (rw (done, deleverage_all) at h)) (untouched r)
    | inr more ↦ elim (Bool-cases (leb_ℤ (denied_profit p p.quantity mark bankruptcy) (pos 0))) [
      | inl nothing ↦ deleverage_all-Recovers ps r s (rw (more, nothing, deleverage_all) at h)
      | inr denied ↦
          let (t, one, rest) =
            >>=_passed (deleverage_one u e mark bankruptcy pair p r) _
              (rw (more, denied, deleverage_all) at h) in
          chained r t s (deleverage_one-Recovers p r t (ground arith) one)
            (deleverage_all-Recovers ps t s rest)
    ]
  ]
