-- ===== src/Futures/Laws/Evaluated.antt =====
-- What `evaluateAndLiquidate` (liquidation.service.ts) goes through when it succeeds.
use mathlib.Core.Path.{subst, ap}
use novacex.Prelude.{
  ◌⊎◌, ℕ, ◌≡◌, sym, ◌∙◌, inl, inr, true, false, Bool-cases, Option, some, Option-cases, List, [],
  ◌∷◌, All, arith, ◌==◌,
}
use novacex.Prelude.Int.{ℤ, pos, ◌≤ℤ◌, ◌<ℤ◌}
use novacex.Prelude.Result.{Result, ok, >>=_passed}
use novacex.Ledger.{Wallet}
use novacex.Ledger.Wallets.{key_eq, key_of}
use novacex.Futures.{Position, open_position, FuturesError}
use novacex.Futures.Risk.{check_liquidation}
use novacex.Futures.Positions.{is_open, divided}
use novacex.Futures.Waterfall.{
  insurance_fund, Progress, start_progress, liquidation_loop, liquidation_entries,
}
use novacex.Futures.Evaluation.{
  FuturesStore, Surroundings, Evaluation, liquidate_at, check_eligible, lock_position,
  post_liquidation, available_in, loop_fuel, is_authorized, find_position, bankruptcy_price_of,
  update_position, liquidated_columns, evaluation_of, liquidation_row,
}
use novacex.Futures.Laws.Accounts.{Accounts}
use novacex.Futures.Laws.Waterfall.{IsSettled, liquidation_loop-IsSettled}
use novacex.Futures.Laws.Settlement.{liquidation_entries_excess}
use novacex.Futures.Laws.Outcome.{
  no_excess, shortfall_nonneg, shortfall_none, post_liquidation-balanced,
}

-- A position with a quantity and a margin, and a wallet that is not overdrawn.
abbrev pub IsFunded : Position → Type 0
IsFunded p = (pos 0 <ℤ p.quantity) × (pos 0 ≤ℤ p.initial_margin)

-- A row of the table: what is not open may be empty.
abbrev pub IsFundedRow : Position → Type 0
IsFundedRow p = (is_open p.status ≡ false) ⊎ IsFunded p

abbrev pub IsCoveredWallet : Wallet → Type 0
IsCoveredWallet w = pos 0 ≤ℤ w.available

available_nonneg :
    (account asset : ℕ) (ws : List Wallet)
    → All IsCoveredWallet ws
    → pos 0 ≤ℤ available_in account asset ws
available_nonneg account asset [] h = omega arith
available_nonneg account asset (w ∷ ws) (here, rest) =
    elim (Bool-cases (key_eq (key_of w) (account, asset))) [
      | inl e ↦ rw (e, available_in) here
      | inr e ↦ rw (e, available_in) (available_nonneg account asset ws rest)
    ]

ok_same : {a b : Progress} → ◌≡◌ {A = Result FuturesError Progress} (ok a) (ok b) → a ≡ b
ok_same h = cc

ok_pair :
    {a b : Evaluation × FuturesStore}
    → ◌≡◌ {A = Result FuturesError (Evaluation × FuturesStore)} (ok a) (ok b)
    → a ≡ b
ok_pair h = cc

some_same : {a b : Position} → ◌≡◌ {A = Option Position} (some a) (some b) → a ≡ b
some_same h = cc

pub found-IsFunded :
    (id : ℕ) (ps : List Position) (p : Position)
    → All IsFundedRow ps
    → find_position id ps ≡ some p
    → p.status ≡ open_position
    → IsFunded p
unfolding find_position
found-IsFunded id [] p h found running = absurd (ground arith)
found-IsFunded id (q ∷ qs) p (here, rest) found running = elim (Bool-cases (q.id == id)) [
  | inl e ↦ elim (subst IsFundedRow (some_same (rw e at found)) here) [
    | inl shut ↦ absurd (ground (arith, running))
    | inr funded ↦ funded
  ]
  | inr e ↦ found-IsFunded id qs p rest (rw e at found) running
]

-- What lets a position be liquidated.
pub record Locked (id : ℕ) (authorized : Option ℕ) (rows : List Position) (p : Position)
    : Type 0 where
  pub found : find_position id rows ≡ some p
  pub running : p.status ≡ open_position
  pub allowed : is_authorized authorized p ≡ true

pub lock_position-Locked :
    (id : ℕ) (authorized : Option ℕ) (rows : List Position) (p : Position)
    → lock_position id authorized rows ≡ ok p
    → Locked id authorized rows p
unfolding lock_position
lock_position-Locked id authorized rows p h = elim (Option-cases (find_position id rows)) [
  | inl none_found ↦ absurd (ground arith)
  | inr (q, found) ↦ elim (Bool-cases (is_authorized authorized q)) [
    | inl allowed ↦
        let same : q ≡ p = ground arith in
        record { found = cc; running = ground arith; allowed = cc }
    | inr refused ↦ absurd (ground arith)
  ]
]

pub eligible :
    (p : Position) (avail : ℤ) → check_eligible p avail ≡ ok tt → check_liquidation p avail ≡ true
unfolding check_eligible
eligible p avail h = ground arith

-- The loop's result, from a funded position.
loop-Settled :
    (p : Position) (mark avail : ℤ) (s : Progress)
    → IsFunded p
    → pos 0 ≤ℤ avail
    → liquidation_loop (loop_fuel p) p mark p.maintenance_margin_rate (start_progress p avail)
      ≡ ok s
    → Accounts p avail s × IsSettled p mark p.maintenance_margin_rate s
loop-Settled p mark avail s funded avail_pos h =
    let (t, ran, accounts, settled) =
      liquidation_loop-IsSettled p mark p.maintenance_margin_rate avail (loop_fuel p) funded.0
        funded.1 avail_pos (omega arith) in
    let both : ◌≡◌ {A = Result FuturesError Progress} (ok t) (ok s) = sym ran ∙ h in
    subst (λ z. Accounts p avail z × IsSettled p mark p.maintenance_margin_rate z) (ok_same both)
      (accounts, settled)

-- What a liquidation at a price ran through.
pub record Run (u : Surroundings) (p : Position) (mark : ℤ) (x : FuturesStore)
    (r : Evaluation × FuturesStore) : Type 0 where
  pub progress : Progress
  pub description : ℕ
  pub bankruptcy : ℤ
  pub accounts : Accounts p (available_in p.account p.collateral_asset x.db.wallets) progress
  pub settled : IsSettled p mark p.maintenance_margin_rate progress
  pub no_gain : progress.total_user_credit ≡ pos 0
  pub fee_taken : progress.total_fee ≤ℤ progress.total_user_deduction
  pub posted :
      post_liquidation u p description
        (liquidation_entries p p.collateral_asset
          (available_in insurance_fund p.collateral_asset x.db.wallets)
          progress)
        x.db
      ≡ ok r.1.db
  pub rows : r.1.positions ≡ update_position p.id (liquidated_columns p mark progress) x.positions
  pub result :
      r.0 ≡ evaluation_of p mark (liquidation_row u.liquidation_id p bankruptcy progress) progress

pub liquidate_at-Run :
    (u : Surroundings) (p : Position) (mark : ℤ) (x : FuturesStore) (r : Evaluation × FuturesStore)
    → IsFunded p
    → All IsCoveredWallet x.db.wallets
    → liquidate_at u p mark x ≡ ok r
    → Run u p mark x r
unfolding liquidate_at
liquidate_at-Run u p mark x r funded covered h =
    let asset = p.collateral_asset in
    let avail = available_in p.account asset x.db.wallets in
    let avail_pos = available_nonneg p.account asset x.db.wallets covered in
    let vault_pos = available_nonneg insurance_fund asset x.db.wallets covered in
    let vault = available_in insurance_fund asset x.db.wallets in
    let run =
      liquidation_loop (loop_fuel p) p mark p.maintenance_margin_rate (start_progress p avail) in
    let (s, ran, posting) = >>=_passed run _ h in
    let (accounts, settled) = loop-Settled p mark avail s funded avail_pos ran in
    let text = u.settlement_text p.symbol p.side s.total_reduced_quantity mark in
    let post = post_liquidation u p text (liquidation_entries p asset vault s) x.db in
    let (db, posted, dividing) = >>=_passed post _ posting in
    let (per_unit, _, last) = >>=_passed (divided p.initial_margin p.quantity) _ dividing in
    let balanced = post_liquidation-balanced u p _ _ x.db db asset posted in
    let excess =
      liquidation_entries_excess p asset vault s vault_pos accounts.credit accounts.deduction
        accounts.fee in
    let (gain, short) =
      no_excess _ _ _ _ balanced excess accounts.credit
        (shortfall_nonneg s.total_user_deduction s.total_fee) in
    let same = ok_pair last in
    record {
      progress = s;
      description = text;
      bankruptcy = bankruptcy_price_of p.side p.entry_price per_unit;
      accounts = accounts;
      settled = settled;
      no_gain = gain;
      fee_taken = shortfall_none s.total_user_deduction s.total_fee short;
      posted = subst (λ z. post ≡ ok z.1.db) same posted;
      rows = ap (λ z. z.1.positions) (sym same);
      result = ap (λ z. z.0) (sym same);
    }
