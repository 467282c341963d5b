-- ===== src/Spot/Tests.antt =====
-- The spot market's theorems on concrete orders.
use novacex.Prelude.{
  ℕ, ◌+◌, ◌*◌, ◌≡◌, refl, inl, inr, true, Option, none, some, List, [], ◌∷◌, arith, All, IsIn,
}
use novacex.Prelude.Int.{ℤ, pos, ◌+ℤ◌, ◌-ℤ◌, ◌≤ℤ◌, ◌*ℤ◌, ◌/ℤ◌}
use novacex.Prelude.Result.{Result, err, ok}
use novacex.Decimal.{to_big_int, from_big_int, trim, is_space, is_decimal, scaled_magnitude}
use novacex.Decimal.Ops.{validate_amount}
use novacex.Decimal.Value.{mul_dec, min_dec}
use novacex.Ledger.{is_external_boundary, TxType-discrete}
use novacex.Ledger.Wallets.{
  find_wallet, put_wallet, update_row, wallet_keys, sort_keys, lock_wallets, apply_entry,
  check_entry,
}
use novacex.Ledger.Totals.{per_asset_totals, check_totals}
use novacex.Ledger.Post.{
  read_entry, read_entries, enforce_balance, prepare_entries, prepare, find_transaction, entries_of,
  validate_entries, apply_entries, update_wallets, execute_logic, post_transaction,
}
use novacex.Ledger.Service.{reserve, validated, release}
use novacex.Ledger.Laws.Maps.{balance_of}
use novacex.Ledger.Laws.Enforcement.{debits, credits}
use novacex.Spot.{
  Side, buy, sell, stop_limit, limit, market, new, partially_filled, filled, Order, TradingPair,
  Match, Trade,
}
use novacex.Spot.Matching.{
  match_order, match_loop, next_action, makers, sort_orders, insert_order, resting_orders,
  is_resting, match_of,
}
use novacex.Spot.Settlement.{
  Exchange, SpotError, settle_all, settle_match, settle_entries, terms_of, update_order, trades_of,
}
use novacex.Spot.Intake.{CreateOrder, Account, find_account}
use novacex.Spot.Service.{lock_of, buy_cost, market_cost, finish_order}
use novacex.Spot.Operations.{
  open_order, cancel_order, find_order, cancel_by_status, cancel_open, check_owner,
  release_cancelled,
}
use novacex.Spot.Laws.Fills.{total_matched, match_order-IsFill, IsFill}
use novacex.Spot.Laws.Loop.{full_match}
use novacex.Spot.Laws.Priority.{match_order_complete}
use novacex.Spot.Laws.NoPrice.{match_order_no_price}
use novacex.Spot.Laws.Flows.{Flows, settle_entries-Flows}
use novacex.Prelude.{◌⊎◌}
use novacex.Spot.Laws.Progress.{settle_all-match_order, finish_order-match_order}
use novacex.Spot.Laws.Opening.{open_order-cancel_order}
use novacex.Decimal.Ops.{codes}

abbrev units : ℕ → ℤ
units n = pos (n * 1000000000000000000)

abbrev test_order : ℕ → ℕ → Side → Option ℤ → ℤ → Order
test_order id account side price quantity = record {
  id = id;
  client_order_id = none;
  account = account;
  symbol = 1;
  side = side;
  type = limit;
  price = price;
  stop_price = none;
  quantity = quantity;
  filled_quantity = pos 0;
  remaining_quantity = quantity;
  locked_amount = pos 0;
  locked_asset = 10;
  status = new;
  created_at = id;
}

-- A buy of 10 at 5 against asks of 4 at 3, of 9 at 6, and one of its own.
abbrev incoming : Order
incoming = test_order 100 1 buy (some (units 5)) (units 10)

abbrev book : List Order
book =
    test_order 1 2 sell (some (units 6)) (units 9)
    ∷ test_order 2 1 sell (some (units 2)) (units 7)
    ∷ test_order 3 2 sell (some (units 3)) (units 4)
    ∷ []

-- What a run of the match opens.
run_match : Order → List Order → List Match × Order
unfolding match_order match_loop next_action makers sort_orders insert_order resting_orders min_dec
    ◌+ℤ◌ ◌-ℤ◌
run_match o b = match_order o b

matched :
    (run_match incoming book).0
    ≡ match_of (units 10) (test_order 3 2 sell (some (units 3)) (units 4)) ∷ []
unfolding run_match
matched = refl

match_order-IsFill_example :
    All
      (λ m. (IsIn m.maker book × (is_resting incoming m.maker ≡ true)) × IsFill incoming m)
      (match_order incoming book).0
    × (pos 0 ≤ℤ (match_order incoming book).1.remaining_quantity)
match_order-IsFill_example =
    match_order-IsFill incoming book (omega arith) (omega arith, (omega arith, (omega arith, tt)))

-- Asks of 9 at 4 and of 4 at 3, of which the first is the worse and is not taken in full.
abbrev two_asks : List Order
two_asks =
    test_order 6 2 sell (some (units 4)) (units 9)
    ∷ test_order 3 2 sell (some (units 3)) (units 4)
    ∷ []

match_order_complete_example :
    IsIn
      (full_match (test_order 3 2 sell (some (units 3)) (units 4)))
      (match_order incoming two_asks).0
unfolding run_match
match_order_complete_example =
    match_order_complete incoming two_asks (test_order 3 2 sell (some (units 3)) (units 4))
      (inr (units 4, refl), (inr (units 3, refl), tt))
      (inr (
        match_of (units 6) (test_order 6 2 sell (some (units 4)) (units 9)),
        inr (inl refl),
        inl (omega arith),
      ))
      (inr (inl refl)) refl (omega arith) refl

-- A limit sale at 1, with a bid at 9, and a market buy that is partially filled.
abbrev selling : Order
selling = test_order 101 1 sell (some (units 1)) (units 3)

abbrev unpriced : Order
unpriced = record (test_order 4 2 buy none (units 5)) { type = market; status = partially_filled }

match_order_no_price_example :
    (match_order selling (test_order 5 3 buy (some (units 9)) (units 3) ∷ unpriced ∷ [])).0 ≡ []
match_order_no_price_example =
    match_order_no_price selling (test_order 5 3 buy (some (units 9)) (units 3) ∷ unpriced ∷ [])
      unpriced (units 1) refl refl refl (omega arith) (inr (inl refl)) refl refl (omega arith)

abbrev pair : TradingPair
pair = record {
  symbol = 1;
  base_asset = 10;
  quote_asset = 11;
  maker_fee_rate = pos 1000000000000000;
  taker_fee_rate = pos 2000000000000000;
  is_active = true;
}

abbrev one_match : Match
one_match = match_of (units 10) (test_order 3 2 sell (some (units 3)) (units 4))

settle_entries-Flows_example :
    (((incoming.side ≡ buy)
        × Flows pair one_match incoming one_match.maker pair.taker_fee_rate pair.maker_fee_rate
            (settle_entries pair incoming one_match))
      ⊎ ((incoming.side ≡ sell)
          × Flows pair one_match one_match.maker incoming pair.maker_fee_rate pair.taker_fee_rate
              (settle_entries pair incoming one_match)))
    × (debits 11 (settle_entries pair incoming one_match)
        ≡ credits 11 (settle_entries pair incoming one_match))
unfolding run_match
settle_entries-Flows_example =
    settle_entries-Flows pair incoming one_match 11 (omega arith) (omega arith) (omega arith)
      (omega arith) (omega arith) (omega arith) (omega arith) (omega arith) (omega arith)

-- The buyer has locked 40, the seller 4.
abbrev exchange : Exchange
exchange = record {
  db = record {
    wallets =
        record { account = 1; asset = 11; available = pos 0; locked = units 40 }
        ∷ record { account = 2; asset = 10; available = pos 0; locked = units 4 }
        ∷ [];
    transactions = [];
    entries = [];
  };
  orders = book;
  trades = [];
}

abbrev buy_eight : Order
buy_eight = test_order 100 1 buy (some (units 5)) (units 8)

-- The value of a run that succeeds.
abbrev value_or {ℓ} : {A : Type ℓ} → A → Result SpotError A → A
value_or d (ok a) = a
value_or d (err e) = d

abbrev settle_run : List Trade × Order × Exchange
settle_run =
    value_or ([], buy_eight, exchange)
      (settle_all (λ n. 1000 + n) 3 pair (match_order buy_eight book).0
        (match_order buy_eight book).1 exchange)

-- What a run of the ledger and the settlement opens.
run_settle : Order → Result SpotError (List Trade × Order × Exchange)
unfolding run_match settle_all settle_match settle_entries terms_of update_order trades_of mul_dec
    ◌*ℤ◌ ◌/ℤ◌ from_big_int post_transaction execute_logic prepare prepare_entries read_entries
    read_entry enforce_balance is_external_boundary per_asset_totals check_totals validate_amount
    to_big_int trim is_space is_decimal scaled_magnitude find_transaction lock_wallets sort_keys
    wallet_keys validate_entries apply_entries put_wallet check_entry apply_entry update_wallets
    update_row entries_of TxType-discrete release validated cancel_order find_order cancel_by_status
    cancel_open check_owner release_cancelled find_account finish_order
run_settle o =
    settle_all (λ n. 1000 + n) 3 pair (match_order o book).0 (match_order o book).1 exchange

settled :
    settle_all
      (λ n. 1000 + n)
      3
      pair
      (match_order buy_eight book).0
      (match_order buy_eight book).1
      exchange
    ≡ ok settle_run
unfolding run_settle
settled = refl

settle_all-match_order_example :
    (settle_run.1.filled_quantity ≡ pos 0 +ℤ total_matched (match_order buy_eight book).0)
    × (settle_run.1.remaining_quantity
        ≡ units 8
          -ℤ total_matched (match_order buy_eight book).0
          -ℤ total_matched (match_order buy_eight book).0)
settle_all-match_order_example =
    settle_all-match_order (λ n. 1000 + n) 3 pair buy_eight exchange settle_run settled

finish_order-match_order_example :
    ((finish_order settle_run.1).status ≡ filled)
    × ((finish_order settle_run.1).filled_quantity ≡ units 8)
unfolding run_settle
finish_order-match_order_example =
    finish_order-match_order (λ n. 1000 + n) 3 pair buy_eight exchange settle_run settled
      (omega arith)

-- An ask of 4 whose base is locked, cancelled by its user.
abbrev resting : Exchange
resting = record exchange { orders = test_order 3 2 sell (some (units 3)) (units 4) ∷ [] }

abbrev owners : List Account
owners = record { id = 2; user = 20; is_spot = true } ∷ []

abbrev cancel_run : Order × Exchange
cancel_run = value_or (buy_eight, resting) (cancel_order 2000 owners 20 3 resting)

-- A stop order to buy 2 at 5, placed with 40 available and cancelled.
abbrev funded : Exchange
funded = record {
  db = record {
    wallets = record { account = 1; asset = 11; available = units 40; locked = pos 0 } ∷ [];
    transactions = [];
    entries = [];
  };
  orders = [];
  trades = [];
}

abbrev stop_buy : CreateOrder
stop_buy = record {
  account = 1;
  user = 10;
  symbol = 1;
  side = buy;
  type = stop_limit;
  quantity = codes "2";
  price = some (codes "5");
  stop_price = some (codes "6");
  client_order_id = none;
}

abbrev buyers : List Account
buyers = record { id = 1; user = 10; is_spot = true } ∷ []

abbrev opened_or : {A : Type 0} → A → Result SpotError (A × Exchange) → A × Exchange
opened_or d r = value_or (d, funded) r

abbrev open_run : (Order × List Trade) × Exchange
open_run =
    opened_or (buy_eight, [])
      (open_order (λ n. 1000 + n) 7 pair stop_buy (units 2, some (units 5), some (units 6)) funded)

run_open : Order → Result SpotError (List Trade × Order × Exchange)
unfolding run_settle open_order lock_of buy_cost market_cost reserve
run_open o = run_settle o

opened_run :
    open_order (λ n. 1000 + n) 7 pair stop_buy (units 2, some (units 5), some (units 6)) funded
    ≡ ok open_run
unfolding run_open
opened_run = refl

abbrev undone : Order × Exchange
undone = opened_or buy_eight (cancel_order 2000 buyers 10 1000 open_run.1)

was_undone : cancel_order 2000 buyers 10 1000 open_run.1 ≡ ok undone
unfolding run_open
was_undone = refl

open_order-cancel_order_example :
    balance_of (find_wallet (1, 11) undone.1.db.wallets) ≡ (units 40, pos 0)
unfolding run_open
open_order-cancel_order_example =
    open_order-cancel_order (λ n. 1000 + n) 7 2000 pair stop_buy (units 2) (units 5)
      (some (units 6)) buyers 10 funded open_run undone (1, 11) refl refl opened_run refl
      (omega arith) refl was_undone
