-- ===== src/Withdrawals/Tests.antt =====
-- The theorems on withdrawals on concrete tables.
use novacex.Prelude.{ℕ, ◌+◌, ◌*◌, ◌≡◌, refl, true, false, none, some, List, [], ◌∷◌, arith}
use novacex.Prelude.Int.{ℤ, pos, ◌+ℤ◌, ◌-ℤ◌, ◌≤ℤ◌}
use novacex.Prelude.Result.{Result, err, ok}
use novacex.Decimal.{to_big_int, from_big_int, trim, is_space, is_decimal, scaled_magnitude}
use novacex.Decimal.Ops.{codes, validate_amount}
use novacex.Ledger.{is_external_boundary, TxType-discrete, withdrawal}
use novacex.Ledger.Wallets.{
  put_wallet, update_row, wallet_keys, sort_keys, lock_wallets, apply_entry, check_entry,
}
use novacex.Ledger.Totals.{per_asset_totals, check_totals}
use novacex.Ledger.Post.{
  read_entry, read_entries, enforce_balance, prepare_entries, prepare, find_transaction, entries_of,
  validate_entries, apply_entries, update_wallets, execute_logic, post_transaction,
}
use novacex.Withdrawals.{
  pending, completed, submitted, crypto_completed, Withdrawal, FundingAccount, AssetNetwork, Reason,
  tier_1, Store, WithdrawalError,
}
use novacex.Withdrawals.Policy.{evaluate, validate_withdrawal_compliance}
use novacex.Withdrawals.Funds.{
  find_withdrawal, update_withdrawal, write, post_settle, post_fee, settle_completed_withdrawal,
}
use novacex.Withdrawals.Service.{
  excess_of, CryptoWithdraw, requested_amount, funding_account, find_network, check_request,
  reserve_funds, crypto_withdraw,
}
use novacex.Withdrawals.Review.{complete_withdrawal}
use novacex.Withdrawals.Operations.{Operation, request, complete, perform}
use novacex.Withdrawals.Laws.Rows.{reserved_by}
use novacex.Withdrawals.Laws.Changes.{SameTerms, Change}
use novacex.Withdrawals.Laws.Requests.{IsSound, IsNew}
use novacex.Withdrawals.Laws.Steps.{perform-Change}
use novacex.Withdrawals.Laws.Locked.{unreserved, perform-unreserved}
use novacex.Withdrawals.Laws.Sound.{perform-IsSound, perform_final}
use novacex.Withdrawals.Laws.Reuse.{Unbacked, crypto_withdraw_reused}

abbrev units : ℕ → ℤ
units n = pos (n * 1000000000000000000)

-- A withdrawal of 5 with a fee of 1, handed to the custody provider.
abbrev sent : Withdrawal
sent = record {
  id = 3;
  account = 1;
  asset = 10;
  network = 2;
  amount = units 5;
  fee = units 1;
  status = pending;
  crypto_status = submitted;
  destination_address = 77;
  destination_memo = none;
  ledger_tx_id = 50;
  provider_id = some 8;
  provider_withdrawal_id = none;
  tx_hash = none;
  network_nonce = none;
  failure_reason = none;
  review_reason = [];
  reviewed_by = none;
  confirmed_by = none;
  created_at = 1;
  updated_at = 2;
}

abbrev over : Withdrawal
over = record sent { id = 4; status = completed; crypto_status = crypto_completed }

abbrev store : Store
store = record {
  db = record {
    wallets = record { account = 1; asset = 10; available = units 20; locked = units 6 } ∷ [];
    transactions = [];
    entries = [];
  };
  withdrawals = sent ∷ over ∷ [];
  users = record { id = 7; is_active = true } ∷ [];
  accounts = record { id = 1; user = 7; is_funding = true } ∷ [];
  networks =
      record {
        asset = 10;
        network = 2;
        is_active = true;
        min_withdrawal = units 1;
        withdrawal_fee = units 1;
        requires_memo = false;
      }
      ∷ [];
  sanctioned_addresses = 99 ∷ [];
  profiles = record { user = 7; tier = tier_1; is_verified = true } ∷ [];
}

abbrev dto : CryptoWithdraw
dto = record {
  user = 7;
  asset = 10;
  network = 2;
  amount = codes "4.5";
  destination_address = 78;
  destination_memo = none;
  reference = 9;
}

-- What a run opens.
run : Operation → Result WithdrawalError Store
unfolding perform excess_of crypto_withdraw check_request reserve_funds requested_amount
    funding_account find_network evaluate validate_withdrawal_compliance complete_withdrawal
    settle_completed_withdrawal post_settle post_fee find_withdrawal update_withdrawal write
    reserved_by ◌+ℤ◌ ◌-ℤ◌ from_big_int post_transaction execute_logic prepare prepare_entries
    read_entries read_entry enforce_balance is_external_boundary per_asset_totals check_totals
    validate_amount to_big_int trim is_space is_decimal scaled_magnitude find_transaction
    lock_wallets sort_keys wallet_keys validate_entries apply_entries put_wallet check_entry
    apply_entry update_wallets update_row entries_of TxType-discrete
run o = perform o store

abbrev result_of : Store → Result WithdrawalError Store → Store
result_of d (ok x) = x
result_of d (err e) = d

abbrev completion : Operation
completion = complete (λ n. 1000 + n) 30 3 (codes "0xab")

abbrev after_completion : Store
after_completion = result_of store (perform completion store)

completed_run : perform completion store ≡ ok after_completion
unfolding run
completed_run = refl

abbrev a_request : Operation
a_request = request (λ n. 1000 + n) 30 (some (units 100)) (pos 0) dto

abbrev after_request : Store
after_request = result_of store (perform a_request store)

requested_run : perform a_request store ≡ ok after_request
unfolding run
requested_run = refl

fee_of : (id : ℕ) (w : Withdrawal) → find_withdrawal id (sent ∷ over ∷ []) ≡ some w → pos 0 ≤ℤ w.fee
unfolding find_withdrawal
fee_of id w found = ground (arith, found)

store-IsSound : IsSound store
unfolding find_transaction
store-IsSound = record {
  keyed = ((omega arith, tt), (tt, tt));
  open_rows = λ id w found is_open. ((refl, refl, refl, refl, refl), fee_of id w found);
  fees = (omega arith, tt);
}

request-IsNew : IsNew a_request store
unfolding find_transaction find_withdrawal
request-IsNew = (refl, λ a found. (refl, (refl, refl, refl, refl, refl)))

-- The nineteenth decimal decides.
decimals :
    (excess_of (codes "1.0000000000000000005") ≡ pos 1)
    × (excess_of (codes "1.0000000000000000004") ≡ pos 0)
    × (excess_of (codes "1.5") ≡ pos 0)
unfolding run
decimals = (refl, refl, refl)

perform-unreserved_example : unreserved (1, 10) after_request ≡ unreserved (1, 10) store
unfolding run
perform-unreserved_example =
    perform-unreserved a_request store after_request (1, 10) store-IsSound request-IsNew refl
      requested_run

perform-IsSound_example : IsSound after_request
perform-IsSound_example =
    perform-IsSound a_request store after_request store-IsSound request-IsNew requested_run

perform-Change_example : Change (pos 0) store after_request
unfolding run
perform-Change_example =
    perform-Change a_request store after_request store-IsSound request-IsNew requested_run

over_found : find_withdrawal 4 store.withdrawals ≡ some over
unfolding run
over_found = refl

perform_final_example :
    (v : Withdrawal) × (find_withdrawal 4 after_completion.withdrawals ≡ some v) × SameTerms over v
perform_final_example =
    perform_final completion store after_completion 4 over store-IsSound tt over_found refl
      completed_run

abbrev checks_or :
    Result WithdrawalError (FundingAccount × AssetNetwork × ℤ × List Reason)
    → FundingAccount × AssetNetwork × ℤ × List Reason
checks_or (ok c) = c
checks_or (err e) = (
  record { id = 0; user = 0; is_funding = false },
  record {
    asset = 0;
    network = 0;
    is_active = false;
    min_withdrawal = pos 0;
    withdrawal_fee = pos 0;
    requires_memo = false;
  },
  pos 0,
  [],
)

-- The same tables with the reservation of an earlier withdrawal under the client's reference 9.
abbrev reused : Store
reused = record store {
  db = record store.db {
    transactions =
        record {
          id = 50;
          account = 1;
          transaction_type = withdrawal;
          reference = 72;
          description = 80;
        }
        ∷ [];
  };
}

abbrev checks : FundingAccount × AssetNetwork × ℤ × List Reason
checks = checks_or (check_request (some (units 100)) (pos 0) dto reused)

checked_run : check_request (some (units 100)) (pos 0) dto reused ≡ ok checks
unfolding run
checked_run = refl

crypto_withdraw_reused_example :
    (r : Withdrawal × Store) × (crypto_withdraw
        (λ n. 1000 + n)
        30
        (some (units 100))
        (pos 0)
        dto
        reused
      ≡ ok r)
    × Unbacked dto checks reused r
unfolding run
crypto_withdraw_reused_example =
    crypto_withdraw_reused (λ n. 1000 + n) 30 (some (units 100)) (pos 0) dto reused checks
      (record {
        id = 50;
        account = 1;
        transaction_type = withdrawal;
        reference = 72;
        description = 80;
      })
      checked_run (omega arith) refl refl refl
