-- ===== src/Futures/Laws/Moves.antt =====
-- The ledger transaction of a liquidation (liquidation.service.ts): what its entries move, and
-- of the owner's wallet.
use novacex.Prelude.{ℕ, ◌≡◌, ◌≢◌, ◌∙◌, List, [], ◌∷◌, ◌++◌}
use novacex.Prelude.Int.{ℤ, pos, ◌+ℤ◌, ◌-ℤ◌, ◌≤ℤ◌, int_laws}
use novacex.Ledger.{Entry, Pool, available, locked, credit}
use novacex.Ledger.Wallets.{Key}
use novacex.Ledger.Laws.Effect.{net}
use novacex.Spot.Laws.FlowParts.{net-append}
use novacex.Futures.{Position}
use novacex.Futures.Waterfall.{
  insurance_fund, adl_suspense, Progress, fund_entry, if_positive, released_entries,
  deduction_entries, deficit_entries, liquidation_entries,
}
use mathlib.Core.Path.{ap, sym}
use novacex.Prelude.{refl, none, arith}
use novacex.Prelude.Int.{+ℤ-zero}
use novacex.Prelude.Result.{Result, ok, err}
use novacex.Ledger.{Db, LedgerError, TransactionResult}
use novacex.Ledger.Wallets.{find_wallet}
use novacex.Ledger.Post.{find_transaction}
use novacex.Ledger.Laws.Maps.{balance_of}
use novacex.Ledger.Laws.Balances.{moved, post_transaction_balances}
use novacex.Withdrawals.Laws.Posts.{prepared, prepare_all}
use novacex.Futures.Evaluation.{Surroundings, post_liquidation, settled_db, liquidation_reference}

-- Two groups that move `x` and `y`.
joined :
    (b : Pool) (k : Key) (es fs : List Entry) (x y : ℤ)
    → net b k es ≡ x
    → net b k fs ≡ y
    → net b k (es ++ fs) ≡ x +ℤ y
joined b k es fs x y h g = rw (net-append b k es fs, h, g)

module _ (account asset : ℕ) (not_fund : account ≢ insurance_fund)
    (not_suspense : account ≢ adl_suspense) where
  released_available :
      (im : ℤ)
      → pos 0 ≤ℤ im
      → net available (account, asset) (released_entries account asset im) ≡ im
  unfolding net
  released_available im h = grind int_laws

  released_locked :
      (im : ℤ)
      → pos 0 ≤ℤ im
      → net locked (account, asset) (released_entries account asset im) ≡ pos 0 -ℤ im
  unfolding net
  released_locked im h = grind int_laws

  deduction_available :
      (x fee : ℤ)
      → pos 0 ≤ℤ x
      → net available (account, asset) (deduction_entries account asset x fee) ≡ pos 0 -ℤ x
  unfolding net
  deduction_available x fee h = grind int_laws

  deduction_locked :
      (x fee : ℤ) → net locked (account, asset) (deduction_entries account asset x fee) ≡ pos 0
  unfolding net
  deduction_locked x fee = grind int_laws

  fee_move :
      (b : Pool) (fee : ℤ)
      → net b
          (account, asset)
          (if_positive fee (fund_entry insurance_fund asset fee credit available ∷ []))
        ≡ pos 0
  unfolding net
  fee_move b fee = grind int_laws

  deficit_move :
      (b : Pool) (vault deficit : ℤ)
      → net b (account, asset) (deficit_entries asset vault deficit) ≡ pos 0
  unfolding net
  deficit_move b vault deficit = grind int_laws

sum_available : (x y : ℤ) → x +ℤ (pos 0 +ℤ (pos 0 -ℤ y +ℤ (pos 0 +ℤ pos 0))) ≡ x -ℤ y
sum_available x y = omega int_laws

sum_locked : (x : ℤ) → x +ℤ (pos 0 +ℤ (pos 0 +ℤ (pos 0 +ℤ pos 0))) ≡ x
sum_locked x = omega int_laws

no_gain :
    (b : Pool) (k : Key) (account asset : ℕ) (x : ℤ)
    → x ≡ pos 0
    → net b k (if_positive x (fund_entry account asset x credit available ∷ [])) ≡ pos 0
unfolding net
no_gain b k account asset x h = rw h

-- The owner, who is not one of the two system accounts, and who gains nothing.
module _ (p : Position) (vault : ℤ) (s : Progress) (not_fund : p.account ≢ insurance_fund)
    (not_suspense : p.account ≢ adl_suspense) (released : pos 0 ≤ℤ s.total_released_im)
    (gain : s.total_user_credit ≡ pos 0) where
  pub owner_available :
      pos 0 ≤ℤ s.total_user_deduction
      → net available
          (p.account, p.collateral_asset)
          (liquidation_entries p p.collateral_asset vault s)
        ≡ s.total_released_im -ℤ s.total_user_deduction
  unfolding liquidation_entries
  owner_available deducted =
      let a = p.account in
      let c = p.collateral_asset in
      joined available (a, c) _ _ _ _
        (released_available a c not_fund not_suspense s.total_released_im released)
        (joined available (a, c) _ _ _ _ (no_gain available (a, c) a c s.total_user_credit gain)
          (joined available (a, c) _ _ _ _
            (deduction_available a c not_fund not_suspense s.total_user_deduction s.total_fee
              deducted)
            (joined available (a, c) _ _ _ _
              (fee_move a c not_fund not_suspense available s.total_fee)
              (deficit_move a c not_fund not_suspense available vault s.total_deficit))))
      ∙ sum_available s.total_released_im s.total_user_deduction

  pub owner_locked :
      net locked (p.account, p.collateral_asset) (liquidation_entries p p.collateral_asset vault s)
      ≡ pos 0 -ℤ s.total_released_im
  unfolding liquidation_entries
  owner_locked =
      let a = p.account in
      let c = p.collateral_asset in
      joined locked (a, c) _ _ _ _
        (released_locked a c not_fund not_suspense s.total_released_im released)
        (joined locked (a, c) _ _ _ _ (no_gain locked (a, c) a c s.total_user_credit gain)
          (joined locked (a, c) _ _ _ _
            (deduction_locked a c not_fund not_suspense s.total_user_deduction s.total_fee)
            (joined locked (a, c) _ _ _ _ (fee_move a c not_fund not_suspense locked s.total_fee)
              (deficit_move a c not_fund not_suspense locked vault s.total_deficit))))
      ∙ sum_locked (pos 0 -ℤ s.total_released_im)

settled_to :
    (before after : Db) (m : Result LedgerError TransactionResult × Db)
    → settled_db before m ≡ ok after
    → ((t : TransactionResult) × (m.0 ≡ ok t)) × (m.1 ≡ after)
settled_to before after (err e, x) h = absurd (ground arith)
settled_to before after (ok t, x) h = ((t, refl), cc)

unmoved : (k : Key) (b : ℤ × ℤ) → moved k [] b ≡ b
unfolding net
unmoved k (a, l) = rw (+ℤ-zero a, +ℤ-zero l) refl

-- A settlement under a new reference moves every wallet by its entries.
pub post_liquidation_moves :
    (u : Surroundings) (p : Position) (description : ℕ) (es : List Entry) (db after : Db) (k : Key)
    → find_transaction p.account (liquidation_reference p.id (u.updated_at p.id)) db.transactions
      ≡ none
    → post_liquidation u p description es db ≡ ok after
    → balance_of (find_wallet k after.wallets) ≡ moved k es (balance_of (find_wallet k db.wallets))
unfolding post_liquidation
post_liquidation_moves u p description [] db after k fresh h =
    let same : db ≡ after = cc in
    ap (λ d. balance_of (find_wallet k d.wallets)) (sym same) ∙ sym (unmoved k _)
post_liquidation_moves u p description (e ∷ es) db after k fresh h =
    let ((t, done), same) = settled_to db after _ h in
    let (fs, read) = prepared u.transaction_id _ db done in
    let entries = prepare_all p.account _ description _ (e ∷ es) read in
    ap (λ d. balance_of (find_wallet k d.wallets)) (sym same)
    ∙ post_transaction_balances u.transaction_id _ fs db t k read fresh done
    ∙ ap (λ l. moved k l (balance_of (find_wallet k db.wallets))) entries
