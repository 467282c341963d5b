-- ===== src/Futures/Laws/Resolution.antt =====
-- `processAdlEvent` (adl.service.ts): what an event says after it has been processed.
use mathlib.Core.Path.{subst}
use novacex.Prelude.{
  ℕ, ◌≡◌, refl, sym, ◌⊎◌, inl, inr, true, false, Bool-cases, Option, some, Option-cases, List, [],
  ◌∷◌, arith,
}
use novacex.Prelude.Int.{
  ℤ, pos, ◌+ℤ◌, ◌-ℤ◌, ◌≤ℤ◌, ◌<ℤ◌, ltb_ℤ, leb_ℤ, -ℤ_parts, +ℤ_parts, +ℤ-zero, ltb_ℤ→lt,
}
use novacex.Prelude.Result.{Result, ok, >>=_passed}
use novacex.Decimal.{Text}
use novacex.Futures.{Position, FuturesError}
use novacex.Futures.Evaluation.{
  AdlStatus, partially_settled, settled, unresolved, AdlEvent, FuturesStore,
}
use novacex.Futures.Adl.{
  AdlSurroundings, find_event, update_event, find_liquidation, opposite_side, ranked_candidates,
  lot_and_notional, Recovery, deleverage_all, current_mark_price, event_columns, mark_event,
  start_recovery, recover_from, recover_deficit, is_event_over, process_adl_event,
}
use novacex.Futures.Laws.Recovering.{deleverage_all-Recovers, add_grows}

-- How an event `e` leaves a round: the deficit that is resolved never falls, and the status says
-- whether it reaches the target, has grown, or is as it was.
pub record Resolution (e f : AdlEvent) : Type 0 where
  pub same_terms : (f.liquidation ≡ e.liquidation) × (f.target_deficit ≡ e.target_deficit)
  pub grows : e.resolved_deficit ≤ℤ f.resolved_deficit
  pub verdict :
      ((f.status ≡ settled) × (f.target_deficit ≤ℤ f.resolved_deficit))
      ⊎ ((f.status ≡ partially_settled)
          × (e.resolved_deficit <ℤ f.resolved_deficit)
          × (f.resolved_deficit <ℤ f.target_deficit))
      ⊎ ((f.status ≡ unresolved)
          × (f.resolved_deficit ≡ e.resolved_deficit)
          × (f.resolved_deficit <ℤ f.target_deficit))

find-update_event :
    (id : ℕ) (set : AdlEvent → AdlEvent) (es : List AdlEvent) (e : AdlEvent)
    → ((f : AdlEvent) → (set f).id ≡ f.id)
    → find_event id es ≡ some e
    → find_event id (update_event id set es) ≡ some (set e)
unfolding find_event update_event
find-update_event id set [] e keeps h = absurd (ground arith)
find-update_event id set (f ∷ fs) e keeps h =
    ground (arith, find-update_event id set fs e keeps, keeps f)

find_event-id : (id : ℕ) (es : List AdlEvent) (e : AdlEvent) → find_event id es ≡ some e → e.id ≡ id
unfolding find_event
find_event-id id [] e h = absurd (ground arith)
find_event-id id (f ∷ fs) e h = ground (arith, find_event-id id fs e)

grown : (a t : ℤ) → pos 0 <ℤ t → a <ℤ a +ℤ t
grown a t h = ground (arith, +ℤ_parts a t)

unmoved : (a t : ℤ) → pos 0 ≤ℤ t → ltb_ℤ (pos 0) t ≡ false → a +ℤ t ≡ a
unmoved a t h k = let zero_total : t ≡ pos 0 = ground arith in rw zero_total (+ℤ-zero a)

below : (a b : ℤ) → leb_ℤ a b ≡ false → b <ℤ a
below a b h = ground arith

event_columns-Resolution :
    (e : AdlEvent) (bankruptcy : ℤ) (r : Recovery)
    → pos 0 ≤ℤ r.total_extracted
    → Resolution e (event_columns e bankruptcy r e)
event_columns-Resolution e bankruptcy r h =
    let total = r.total_extracted in
    let resolved = e.resolved_deficit +ℤ total in
    record {
      same_terms = (refl, refl);
      grows = add_grows e.resolved_deficit total h;
      verdict = elim (Bool-cases (leb_ℤ e.target_deficit resolved)) [
        | inl full ↦ inl (rw full refl, ground arith)
        | inr short ↦ elim (Bool-cases (ltb_ℤ (pos 0) total)) [
          | inl some_taken ↦ inr (
              inl (
                rw (short, some_taken) refl,
                grown e.resolved_deficit total (ltb_ℤ→lt (pos 0) total some_taken),
                below e.target_deficit resolved short,
              ))
          | inr nothing ↦ inr (
              inr (
                rw (short, nothing) refl,
                unmoved e.resolved_deficit total h nothing,
                below e.target_deficit resolved short,
              ))
        ]
      ];
    }

settled-Resolution :
    (e : AdlEvent)
    → leb_ℤ (e.target_deficit -ℤ e.resolved_deficit) (pos 0) ≡ true
    → Resolution e (record e { status = settled })
settled-Resolution e h = record {
  same_terms = (refl, refl);
  grows = omega arith;
  verdict = inl (refl, ground (arith, -ℤ_parts e.target_deficit e.resolved_deficit));
}

unresolved-Resolution :
    (e : AdlEvent)
    → leb_ℤ (e.target_deficit -ℤ e.resolved_deficit) (pos 0) ≡ false
    → Resolution e (record e { status = unresolved })
unresolved-Resolution e h = record {
  same_terms = (refl, refl);
  grows = omega arith;
  verdict = inr (inr (refl, refl, ground (arith, -ℤ_parts e.target_deficit e.resolved_deficit)));
}

-- The event that stands in the table after a round.
abbrev pub Leaves : ℕ → AdlEvent → FuturesStore → Type 0
Leaves id e x = (f : AdlEvent) × (find_event id x.adl_events ≡ some f) × Resolution e f

store_same : {a b : FuturesStore} → ◌≡◌ {A = Result FuturesError FuturesStore} (ok a) (ok b) → a ≡ b
store_same h = cc

module _ (u : AdlSurroundings) (x : FuturesStore) (e : AdlEvent)
    (found : find_event e.id x.adl_events ≡ some e) where
  mark_event-Leaves :
      (status : AdlStatus)
      → Resolution e (record e { status = status })
      → Leaves e.id e (mark_event e.id status x)
  unfolding mark_event
  mark_event-Leaves status h =
      (record e { status = status }, find-update_event e.id _ x.adl_events e (λ f. refl) found, h)

  recover_from-Leaves :
      (mark bankruptcy : ℤ) (ps : List Position) (y : FuturesStore)
      → leb_ℤ (e.target_deficit -ℤ e.resolved_deficit) (pos 0) ≡ false
      → recover_from u e mark bankruptcy ps x ≡ ok y
      → Leaves e.id e y
  unfolding recover_from
  recover_from-Leaves mark bankruptcy [] y more h =
      subst (Leaves e.id e) (store_same h)
        (mark_event-Leaves unresolved (unresolved-Resolution e more))
  recover_from-Leaves mark bankruptcy (p ∷ ps) y more h =
      let pair = lot_and_notional (u.trading_pairs e.symbol) in
      let start = start_recovery (e.target_deficit -ℤ e.resolved_deficit) x in
      let (r, ran, last) =
        >>=_passed (deleverage_all u e mark bankruptcy pair (p ∷ ps) start) _ h in
      let taken = deleverage_all-Recovers u e mark bankruptcy pair (p ∷ ps) start r ran in
      subst (Leaves e.id e) (store_same last) (
        event_columns e bankruptcy r e,
        find-update_event e.id _ x.adl_events e (λ f. refl) found,
        event_columns-Resolution e bankruptcy r taken.grows,
      )

  recover_deficit-Leaves :
      (override : Option Text) (y : FuturesStore)
      → recover_deficit u e override x ≡ ok y
      → Leaves e.id e y
  unfolding recover_deficit
  recover_deficit-Leaves override y h =
      elim (Bool-cases (leb_ℤ (e.target_deficit -ℤ e.resolved_deficit) (pos 0))) [
        | inl done ↦
            subst (Leaves e.id e) (store_same (rw (done, recover_deficit) at h))
              (mark_event-Leaves settled (settled-Resolution e done))
        | inr more ↦ elim (Option-cases (find_liquidation e.liquidation x.liquidations)) [
          | inl missing ↦
              subst (Leaves e.id e) (store_same (rw (more, missing, recover_deficit) at h))
                (mark_event-Leaves unresolved (unresolved-Resolution e more))
          | inr (l, there) ↦
              let (mark, _, rest) =
                >>=_passed (current_mark_price u override e.symbol) _
                  (rw (more, there, recover_deficit) at h) in
              recover_from-Leaves mark l.bankruptcy_price
                (ranked_candidates e.symbol (opposite_side e.side) mark x.positions) y more rest
        ]
      ]

-- A round of auto-deleveraging that succeeds on an event that is not over never lowers the deficit
-- that is resolved. It leaves the event settled when that reaches the target, partially settled when
-- it has grown and does not, and unresolved when nothing was recovered of what remains.
pub process_adl_event-Resolution :
    (u : AdlSurroundings) (id : ℕ) (override : Option Text) (x y : FuturesStore) (e : AdlEvent)
    → find_event id x.adl_events ≡ some e
    → is_event_over e.status ≡ false
    → process_adl_event u id override x ≡ ok y
    → Leaves id e y
unfolding process_adl_event
process_adl_event-Resolution u id override x y e found running h =
    let same = find_event-id id x.adl_events e found in
    let done : recover_deficit u e override x ≡ ok y =
      rw (found, running, process_adl_event) at h in
    subst (λ i. Leaves i e y) same
      (recover_deficit-Leaves u x e
        (subst (λ i. find_event i x.adl_events ≡ some e) (sym same) found) override y done)
