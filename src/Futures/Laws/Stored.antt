-- ===== src/Futures/Laws/Stored.antt =====
-- `evaluateAndLiquidate` (liquidation.service.ts) as a whole: which positions it liquidates, and what
-- it leaves of the position's row and of the owner's wallet.
use mathlib.Core.Path.{subst, ap}
use novacex.Prelude.{
  if◌then◌else◌, ℕ, ◌≡◌, ◌≢◌, refl, sym, ◌∙◌, ◌⊎◌, inl, inr, true, false, none, some, Option, List,
  All, Option-cases,
}
use novacex.Prelude.Int.{ltb_ℤ, ℤ, pos, ◌+ℤ◌, ◌-ℤ◌, ◌≤ℤ◌, ◌<ℤ◌, int_laws}
use novacex.Prelude.Result.{ok, >>=_passed}
use novacex.Decimal.{Text}
use novacex.Ledger.{Wallet}
use novacex.Ledger.Wallets.{find_wallet}
use novacex.Ledger.Post.{find_transaction}
use novacex.Ledger.Laws.Maps.{balance_of}
use novacex.Futures.{Position, open_position, liquidated}
use novacex.Futures.Risk.{calculate_position_equity, check_liquidation}
use novacex.Futures.Waterfall.{insurance_fund, adl_suspense, Progress, liquidation_entries}
use novacex.Futures.Evaluation.{
  FuturesStore, Surroundings, Evaluation, evaluate_and_liquidate, check_eligible, lock_position,
  resolve_mark_price, available_in, is_authorized, find_position, liquidation_reference,
  liquidated_columns, Liquidation, evaluation_of, liquidation_row,
}
use novacex.Futures.Laws.Outcome.{evaluation-Outcome, balance_left}
use novacex.Futures.Laws.Evaluated.{
  IsFundedRow, IsCoveredWallet, lock_position-Locked, eligible, found-IsFunded, Run,
  liquidate_at-Run,
}
use novacex.Futures.Laws.Once.{find-update_position, find_position-id}
use novacex.Futures.Laws.Moves.{post_liquidation_moves, owner_available, owner_locked}

abbrev pub locked_in : ℕ → ℕ → List Wallet → ℤ
locked_in account asset ws = (balance_of (find_wallet (account, asset) ws)).1

available_in-balance_of :
    (account asset : ℕ) (ws : List Wallet)
    → available_in account asset ws ≡ (balance_of (find_wallet (account, asset) ws)).0
available_in-balance_of account asset ws = elim (Option-cases (find_wallet (account, asset) ws)) [
  | inl e ↦ rw (e, available_in) refl
  | inr (w, e) ↦ rw (e, available_in) refl
]

-- How a liquidation of `p` that is reported as `e` leaves the tables: the row under the position's
-- identifier, and the wallet of its owner.
pub record Left (p : Position) (before after : FuturesStore) (e : Evaluation) : Type 0 where
  pub row : Position
  pub found : find_position p.id after.positions ≡ some row
  pub reported : (row.status ≡ e.final_status) × (row.mark_price ≡ e.mark_price)
  pub quantities : e.liquidation.quantity +ℤ row.quantity ≡ p.quantity
  pub settled :
      ((row.status ≡ liquidated) × (row.quantity ≡ pos 0))
      ⊎ ((row.status ≡ open_position)
          × (pos 0 <ℤ row.quantity)
          × (check_liquidation row (available_in p.account p.collateral_asset after.db.wallets)
              ≡ false))
  pub margin_left : pos 0 ≤ℤ row.initial_margin
  pub available_after :
      available_in p.account p.collateral_asset after.db.wallets
      ≡ available_in p.account p.collateral_asset before.db.wallets
        +ℤ (p.initial_margin -ℤ row.initial_margin)
        -ℤ e.deficit
  pub locked_after :
      locked_in p.account p.collateral_asset after.db.wallets
      ≡ locked_in p.account p.collateral_asset before.db.wallets
        -ℤ (p.initial_margin -ℤ row.initial_margin)
  pub covered : pos 0 ≤ℤ available_in p.account p.collateral_asset after.db.wallets
  pub fee_paid : e.total_fee ≤ℤ e.deficit
  pub nothing_returned : e.total_return ≡ pos 0

taken_of_loss :
    (credit d : ℤ)
    → credit ≡ pos 0
    → pos 0 ≤ℤ d
    → (if ltb_ℤ (pos 0) (credit -ℤ d) then pos 0 else pos 0 -ℤ (credit -ℤ d)) ≡ d
taken_of_loss credit d gain h = rw gain (grind int_laws)

available_sum :
    (a avail rel d im rest taken : ℤ)
    → a ≡ avail +ℤ (rel -ℤ d)
    → rel +ℤ rest ≡ im
    → taken ≡ d
    → a ≡ avail +ℤ (im -ℤ rest) -ℤ taken
available_sum a avail rel d im rest taken h k t = rw (h, t, sym k) (omega int_laws)

locked_sum :
    (l before rel im rest : ℤ)
    → l ≡ before +ℤ (pos 0 -ℤ rel)
    → rel +ℤ rest ≡ im
    → l ≡ before -ℤ (im -ℤ rest)
locked_sum l before rel im rest h k = rw (h, sym k) (omega int_laws)

same_risk :
    (p : Position) (mark : ℤ) (s : Progress) (row : Liquidation) (b : ℤ)
    → check_liquidation (liquidated_columns p mark s p) b
      ≡ check_liquidation (evaluation_of p mark row s).position b
unfolding check_liquidation calculate_position_equity
same_risk p mark s row b = refl

Run-Left :
    (u : Surroundings) (p : Position) (mark : ℤ) (x : FuturesStore) (r : Evaluation × FuturesStore)
    → find_position p.id x.positions ≡ some p
    → find_transaction p.account (liquidation_reference p.id (u.updated_at p.id)) x.db.transactions
      ≡ none
    → p.account ≢ insurance_fund
    → p.account ≢ adl_suspense
    → Run u p mark x r
    → Left p x r.1 r.0
Run-Left u p mark x r found fresh not_fund not_suspense run =
    let s = run.progress in
    let a = p.account in
    let c = p.collateral_asset in
    let avail = available_in a c x.db.wallets in
    let vault = available_in insurance_fund c x.db.wallets in
    let made = liquidation_row u.liquidation_id p run.bankruptcy s in
    let e = evaluation_of p mark made s in
    let outcome =
      evaluation-Outcome p mark avail run.bankruptcy u.liquidation_id s run.accounts run.settled
        run.no_gain run.fee_taken in
    let moves =
      post_liquidation_moves u p run.description (liquidation_entries p c vault s) x.db r.1.db
        (a, c) fresh run.posted in
    let deficit =
      taken_of_loss s.total_user_credit s.total_user_deduction run.no_gain run.accounts.deduction in
    let after : available_in a c r.1.db.wallets ≡ balance_left p avail e =
      available_sum (available_in a c r.1.db.wallets) avail s.total_released_im
        s.total_user_deduction p.initial_margin s.remaining_im e.deficit
        (available_in-balance_of a c r.1.db.wallets
          ∙ ap (λ b. b.0) moves
          ∙ ap (λ n. (balance_of (find_wallet (a, c) x.db.wallets)).0 +ℤ n)
              (owner_available p vault s not_fund not_suspense run.accounts.margin_freed run.no_gain
                run.accounts.deduction)
          ∙ ap (λ n. n +ℤ (s.total_released_im -ℤ s.total_user_deduction))
              (sym (available_in-balance_of a c x.db.wallets)))
        run.accounts.released deficit in
    subst (Left p x r.1) (sym run.result) (record {
      row = liquidated_columns p mark s p;
      found =
          ap (find_position p.id) run.rows
          ∙ find-update_position p.id (liquidated_columns p mark s) x.positions p (λ q. refl) found;
      reported = (refl, refl);
      quantities = outcome.quantities;
      settled = elim outcome.settled [
        | inl gone ↦ inl gone
        | inr (status, some_left, safe) ↦ inr (
          status,
          some_left,
          same_risk p mark s made (available_in a c r.1.db.wallets)
              ∙ ap (check_liquidation e.position) after
              ∙ safe,
        )
      ];
      margin_left = outcome.margin_left;
      available_after = after;
      locked_after =
          locked_sum (locked_in a c r.1.db.wallets) (locked_in a c x.db.wallets) s.total_released_im
            p.initial_margin s.remaining_im
            (ap (λ b. b.1) moves
              ∙ ap (λ n. locked_in a c x.db.wallets +ℤ n)
                  (owner_locked p vault s not_fund not_suspense run.accounts.margin_freed
                    run.no_gain))
            run.accounts.released;
      covered = subst (λ b. pos 0 ≤ℤ b) (sym after) outcome.covered;
      fee_paid = outcome.fee_paid;
      nothing_returned = outcome.nothing_returned;
    })

some_row : {a b : Position} → ◌≡◌ {A = Option Position} (some a) (some b) → a ≡ b
some_row h = cc

-- A liquidation that succeeds is of an open position that the caller may liquidate and whose equity
-- was below its maintenance margin. The table then has the position as liquidated with no quantity,
-- or as open and, with what the owner's wallet now holds, at or above its maintenance margin; what
-- was liquidated and what is left make up the quantity. The margin that the row has lost has left the
-- owner's locked balance for the available one, out of which the owner has paid the reported amount:
-- at least the fee, never below zero, and nothing is paid to the owner. Open positions have a
-- quantity and a margin, and no wallet is overdrawn, before; the owner is neither system account, and
-- the reference of the settlement has not been used.
pub evaluate_and_liquidate-Left :
    (u : Surroundings) (id : ℕ) (override : Option Text) (authorized : Option ℕ) (x : FuturesStore)
    (r : Evaluation × FuturesStore) (p : Position)
    → All IsFundedRow x.positions
    → All IsCoveredWallet x.db.wallets
    → find_position id x.positions ≡ some p
    → find_transaction p.account (liquidation_reference p.id (u.updated_at p.id)) x.db.transactions
      ≡ none
    → p.account ≢ insurance_fund
    → p.account ≢ adl_suspense
    → evaluate_and_liquidate u id override authorized x ≡ ok r
    → (p.status ≡ open_position)
      × (is_authorized authorized p ≡ true)
      × (check_liquidation
            (record p { mark_price = r.0.mark_price })
            (available_in p.account p.collateral_asset x.db.wallets)
          ≡ true)
      × Left p x r.1 r.0
unfolding evaluate_and_liquidate
evaluate_and_liquidate-Left u id override authorized x r p funded covered found fresh not_fund
      not_suspense h =
    let (q, locking, pricing) = >>=_passed (lock_position id authorized x.positions) _ h in
    let (mark, priced, checking) =
      >>=_passed (resolve_mark_price u.mark_prices override q) _ pricing in
    let avail = available_in q.account q.collateral_asset x.db.wallets in
    let (_, checked, last) =
      >>=_passed (check_eligible (record q { mark_price = mark }) avail) _ checking in
    let held = lock_position-Locked id authorized x.positions q locking in
    let same : q ≡ p = some_row (sym held.found ∙ found) in
    let run =
      liquidate_at-Run u q mark x r (found-IsFunded id x.positions q funded held.found held.running)
        covered last in
    let was_eligible = eligible (record q { mark_price = mark }) avail checked in
    let by_id : find_position p.id x.positions ≡ some p =
      ap (λ i. find_position i x.positions) (find_position-id id x.positions p found) ∙ found in
    let price : mark ≡ r.0.mark_price = sym (ap (λ e. e.mark_price) run.result) in
    (
      subst (λ z. z.status ≡ open_position) same held.running,
      subst (λ z. is_authorized authorized z ≡ true) same held.allowed,
      subst
          (λ z.
            check_liquidation (record z { mark_price = r.0.mark_price })
              (available_in z.account z.collateral_asset x.db.wallets)
            ≡ true)
          same
          (subst (λ m. check_liquidation (record q { mark_price = m }) avail ≡ true) price
            was_eligible),
      Run-Left u p mark x r by_id fresh not_fund not_suspense
          (subst (λ z. Run u z mark x r) same run),
    )
