-- ===== src/Futures/FundingTests.antt =====
-- The theorems on funding at concrete positions.
use novacex.Prelude.{ℕ, ◌+◌, ◌*◌, ◌≡◌, refl, Bool, true, false, none, some, [], ◌∷◌, arith}
use novacex.Prelude.Int.{ℤ, pos, neg, ◌+ℤ◌, ◌-ℤ◌, ◌*ℤ◌, ◌/ℤ◌, ◌<ℤ◌}
use novacex.Prelude.Result.{Result, err, ok}
use novacex.Decimal.{to_big_int, from_big_int, trim, is_space, is_decimal, scaled_magnitude}
use novacex.Decimal.Value.{mul_dec, div_dec}
use novacex.Decimal.Ops.{validate_amount}
use novacex.Ledger.{is_external_boundary, TxType-discrete, available, insufficient_balance}
use novacex.Ledger.Wallets.{
  put_wallet, update_row, wallet_keys, sort_keys, lock_wallets, apply_entry, check_entry,
}
use novacex.Ledger.Totals.{per_asset_totals, check_totals}
use novacex.Ledger.Post.{
  read_entry, read_entries, enforce_balance, prepare_entries, prepare, find_transaction, entries_of,
  validate_entries, apply_entries, update_wallets, execute_logic, post_transaction,
}
use novacex.Ledger.Service.{validated, release}
use novacex.Futures.{long, short, isolated, open_position, Position, FuturesError, ledger_error}
use novacex.Futures.Waterfall.{insurance_fund}
use novacex.Futures.Evaluation.{update_position, available_in}
use novacex.Futures.Funding.{
  rate_at, clamp_rate, calculate_adaptive_funding_rate, calculate_estimated_funding,
  calculate_execution_fee, FundingSurroundings, FundingStore, is_settled_epoch, open_positions,
  payments_of, margin_release, funded_amount, release_margin, fund_payment, funding_entries,
  post_funding, try_payment, settle_payments, settle_positions, settle_funding_interval,
}
use novacex.Futures.Laws.Funding.{
  IsClamped, calculate_adaptive_funding_rate_bounds, settle_funding_interval_once,
}

abbrev units : ℕ → ℤ
units n = pos (n * 1000000000000000000)

-- 3 long, whose owner has 1 available.
abbrev payer : Position
payer = record {
  id = 1;
  account = 5;
  symbol = 9;
  side = long;
  quantity = units 3;
  entry_price = units 100;
  mark_price = units 100;
  liquidation_price = units 91;
  leverage = 10;
  margin_mode = isolated;
  initial_margin = units 30;
  maintenance_margin = units 3;
  realized_pnl = pos 0;
  status = open_position;
  collateral_asset = 11;
  maintenance_margin_rate = pos 10000000000000000;
}

abbrev receiver : Position
receiver = record payer { id = 2; account = 6; side = short; quantity = units 2 }

abbrev store : FundingStore
store = record {
  db = record {
    wallets =
        record { account = 5; asset = 11; available = units 1; locked = units 30 }
        ∷ record { account = 6; asset = 11; available = units 1; locked = units 30 }
        ∷ [];
    transactions = [];
    entries = [];
  };
  positions = payer ∷ receiver ∷ [];
  history = [];
}

abbrev surroundings : FundingSurroundings
surroundings = record {
  mark_prices = λ symbol. some (units 101);
  index_prices = λ symbol. some (units 100);
  static_funding_rate = none;
  release_ids = λ id. 100 + id;
  payment_ids = λ id. 200 + id;
  payment_text = λ side symbol rate. symbol;
}

-- What a run opens.
run : ℕ → FundingStore → Result FuturesError (ℕ × FundingStore)
unfolding settle_funding_interval settle_positions settle_payments try_payment post_funding
    funding_entries fund_payment release_margin margin_release funded_amount payments_of
    open_positions is_settled_epoch calculate_estimated_funding calculate_adaptive_funding_rate
    clamp_rate update_position validated release neg mul_dec div_dec ◌*ℤ◌ ◌/ℤ◌ ◌+ℤ◌ ◌-ℤ◌
    from_big_int post_transaction execute_logic prepare prepare_entries read_entries read_entry
    enforce_balance is_external_boundary per_asset_totals check_totals validate_amount to_big_int
    trim is_space is_decimal scaled_magnitude find_transaction lock_wallets sort_keys wallet_keys
    validate_entries apply_entries put_wallet check_entry apply_entry update_wallets update_row
    entries_of TxType-discrete calculate_execution_fee
run epoch x = settle_funding_interval surroundings 9 epoch x

abbrev result_of : Result FuturesError (ℕ × FundingStore) → ℕ × FundingStore
result_of (ok s) = s
result_of (err e) = (0, store)

abbrev after : ℕ × FundingStore
after = result_of (settle_funding_interval surroundings 9 700 store)

abbrev is_done : Result FuturesError (ℕ × FundingStore) → Bool
is_done (ok s) = true
is_done (err e) = false

done_result : (m : Result FuturesError (ℕ × FundingStore)) → is_done m ≡ true → m ≡ ok (result_of m)
done_result (ok s) h = refl
done_result (err e) h = absurd (ground arith)

is_settled : is_done (settle_funding_interval surroundings 9 700 store) ≡ true
unfolding run
is_settled = refl

settled_run : settle_funding_interval surroundings 9 700 store ≡ ok after
settled_run = done_result (settle_funding_interval surroundings 9 700 store) is_settled

-- 1.515 is paid, 0.515 of it out of the margin, and 1.01 received.
balances_after :
    (available_in 5 11 after.1.db.wallets ≡ pos 0)
    × (available_in 6 11 after.1.db.wallets ≡ pos 2010000000000000000)
    × (available_in insurance_fund 11 after.1.db.wallets ≡ pos 505000000000000000)
unfolding run
balances_after = (refl, refl, refl)

-- With the receiver's row first the empty insurance fund cannot pay, and nothing is settled.
receiver_first_refused :
    settle_funding_interval surroundings 9 700 (record store { positions = receiver ∷ payer ∷ [] })
    ≡ err (ledger_error (insufficient_balance available 11 (pos 1010000000000000000) (pos 0)))
unfolding run
receiver_first_refused = refl

rated :
    calculate_adaptive_funding_rate (some (units 101)) (some (units 100))
    ≡ some (rate_at (units 101) (units 100))
unfolding run
rated = refl

both_open : open_positions 9 store.positions ≡ payer ∷ receiver ∷ []
unfolding run
both_open = refl

taker_fee : calculate_execution_fee (units 2) (units 100) false ≡ pos 100000000000000000
unfolding run
taker_fee = refl

calculate_adaptive_funding_rate_bounds_example :
    (pos 0 <ℤ units 101)
    × (pos 0 <ℤ units 100)
    × IsClamped
        (div_dec (units 101 -ℤ units 100) (units 100) +ℤ pos 100000000000000)
        (rate_at (units 101) (units 100)).funding_rate
calculate_adaptive_funding_rate_bounds_example =
    calculate_adaptive_funding_rate_bounds (units 101) (units 100) (rate_at (units 101) (units 100))
      rated

settle_funding_interval_once_example :
    settle_funding_interval surroundings 9 700 after.1 ≡ ok (0, after.1)
settle_funding_interval_once_example =
    settle_funding_interval_once surroundings surroundings 9 700 store after
      (rate_at (units 101) (units 100)) payer (receiver ∷ []) rated both_open settled_run
