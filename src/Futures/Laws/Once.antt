-- ===== src/Futures/Laws/Once.antt =====
-- The rows after `evaluateAndLiquidate` (liquidation.service.ts).
use mathlib.Core.Path.{ap}
use novacex.Prelude.{ℕ, ◌≡◌, ◌≢◌, refl, sym, ◌∙◌, Option, some, List, [], ◌∷◌, arith}
use novacex.Prelude.Int.{ℤ}
use novacex.Prelude.Result.{Result, ok, err, >>=_passed}
use novacex.Decimal.{Text}
use novacex.Futures.{Position, liquidated, FuturesError, position_already_liquidated}
use novacex.Futures.Positions.{divided}
use novacex.Futures.Waterfall.{
  insurance_fund, Progress, start_progress, liquidation_loop, liquidation_entries,
}
use novacex.Futures.Evaluation.{
  FuturesStore, Surroundings, Evaluation, evaluate_and_liquidate, liquidate_at, check_eligible,
  lock_position, resolve_mark_price, post_liquidation, available_in, loop_fuel, find_position,
  update_position, liquidated_columns, final_status,
}
use novacex.Futures.Laws.Evaluated.{lock_position-Locked}

pub find_position-id :
    (id : ℕ) (ps : List Position) (p : Position) → find_position id ps ≡ some p → p.id ≡ id
unfolding find_position
find_position-id id [] p h = absurd (ground arith)
find_position-id id (q ∷ qs) p h = ground (arith, find_position-id id qs p)

-- An update writes the row that a query finds, and no other.
pub find-update_position :
    (id : ℕ) (set : Position → Position) (ps : List Position) (p : Position)
    → ((q : Position) → (set q).id ≡ q.id)
    → find_position id ps ≡ some p
    → find_position id (update_position id set ps) ≡ some (set p)
unfolding find_position update_position
find-update_position id set [] p keeps h = absurd (ground arith)
find-update_position id set (q ∷ qs) p keeps h =
    ground (arith, find-update_position id set qs p keeps, keeps q)

find-update_other :
    (id other : ℕ) (set : Position → Position) (ps : List Position)
    → ((q : Position) → (set q).id ≡ q.id)
    → other ≢ id
    → find_position other (update_position id set ps) ≡ find_position other ps
unfolding find_position update_position
find-update_other id other set [] keeps ne = refl
find-update_other id other set (q ∷ qs) keeps ne =
    ground (arith, find-update_other id other set qs keeps ne, keeps q)

-- The row that a liquidation writes.
record Rewritten (p : Position) (mark : ℤ) (x : FuturesStore) (r : Evaluation × FuturesStore)
    : Type 0 where
  run : Progress
  rows : r.1.positions ≡ update_position p.id (liquidated_columns p mark run) x.positions
  status : r.0.final_status ≡ final_status run

ok_pair :
    {a b : Evaluation × FuturesStore}
    → ◌≡◌ {A = Result FuturesError (Evaluation × FuturesStore)} (ok a) (ok b)
    → a ≡ b
ok_pair h = cc

liquidate_at-Rewritten :
    (u : Surroundings) (p : Position) (mark : ℤ) (x : FuturesStore) (r : Evaluation × FuturesStore)
    → liquidate_at u p mark x ≡ ok r
    → Rewritten p mark x r
unfolding liquidate_at
liquidate_at-Rewritten u p mark x r h =
    let asset = p.collateral_asset in
    let avail = available_in p.account asset x.db.wallets in
    let vault = available_in insurance_fund asset x.db.wallets in
    let looped =
      liquidation_loop (loop_fuel p) p mark p.maintenance_margin_rate (start_progress p avail) in
    let (s, ran, posting) = >>=_passed looped _ h in
    let post =
      post_liquidation u p (u.settlement_text p.symbol p.side s.total_reduced_quantity mark)
        (liquidation_entries p asset vault s) x.db in
    let (db, posted, dividing) = >>=_passed post _ posting in
    let (per_unit, _, last) = >>=_passed (divided p.initial_margin p.quantity) _ dividing in
    let same = ok_pair last in
    record {
      run = s;
      rows = ap (λ z. z.1.positions) (sym same);
      status = ap (λ z. z.0.final_status) (sym same);
    }

lock_refused :
    (id : ℕ) (authorized : Option ℕ) (rows : List Position) (p : Position)
    → find_position id rows ≡ some p
    → p.status ≡ liquidated
    → lock_position id authorized rows ≡ err (position_already_liquidated id)
unfolding lock_position
lock_refused id authorized rows p found h = rw (found, h, lock_position) refl

module _ (u : Surroundings) (id : ℕ) (override : Option Text) (authorized : Option ℕ)
    (x : FuturesStore) (r : Evaluation × FuturesStore)
    (done : evaluate_and_liquidate u id override authorized x ≡ ok r) where
  -- The position that was liquidated, with its row.
  rewritten :
      (p : Position) × (mark : ℤ) × (find_position id x.positions ≡ some p) × Rewritten p mark x r
  unfolding evaluate_and_liquidate
  rewritten =
      let (p, locking, pricing) = >>=_passed (lock_position id authorized x.positions) _ done in
      let (mark, priced, checking) =
        >>=_passed (resolve_mark_price u.mark_prices override p) _ pricing in
      let avail = available_in p.account p.collateral_asset x.db.wallets in
      let (_, checked, last) =
        >>=_passed (check_eligible (record p { mark_price = mark }) avail) _ checking in
      (
        p,
        mark,
        (lock_position-Locked id authorized x.positions p locking).found,
        liquidate_at-Rewritten u p mark x r last,
      )

  -- A liquidation changes the row of no other position.
  pub evaluate_and_liquidate_others :
      (other : ℕ) → other ≢ id → find_position other r.1.positions ≡ find_position other x.positions
  evaluate_and_liquidate_others other ne =
      let (p, mark, found, w) = rewritten in
      let same = find_position-id id x.positions p found in
      ap (find_position other) w.rows
      ∙ find-update_other p.id other _ x.positions (λ q. refl) (λ e. ne (e ∙ same))

  -- A position that a liquidation has closed is never liquidated again: every later evaluation of
  -- it is refused as already liquidated, at any price and for any caller.
  pub evaluate_and_liquidate_once :
      (v : Surroundings) (override' : Option Text) (authorized' : Option ℕ)
      → r.0.final_status ≡ liquidated
      → evaluate_and_liquidate v id override' authorized' r.1 ≡ err (position_already_liquidated id)
  unfolding evaluate_and_liquidate
  evaluate_and_liquidate_once v override' authorized' closed =
      let (p, mark, found, w) = rewritten in
      let same = find_position-id id x.positions p found in
      let set = liquidated_columns p mark w.run in
      let here = find-update_position id set x.positions p (λ q. refl) found in
      let there : find_position id r.1.positions ≡ some (set p) =
        ap (find_position id) w.rows
        ∙ ap (λ i. find_position id (update_position i set x.positions)) same
        ∙ here in
      rw (lock_refused id authorized' r.1.positions (set p) there (sym w.status ∙ closed)) refl
