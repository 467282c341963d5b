-- ===== src/Lib.antt =====
-- Novacex is an exchange. Its server keeps what customers own in a double-entry ledger on decimal
-- strings; the spot market, the futures market and withdrawals move it by posting ledger
-- transactions, and orders for external liquidity run through a state machine. This library models
-- that core and proves what keeps it correct. A module has the name of the part it models:
--
-- - Decimal (server/src/services/ledger/decimal.ts): decimal strings over scaled BigInt integers.
--   Every function of the file, on strings as lists of UTF-16 code units. Decimal/Ops has the
--   functions on strings, Decimal/Value the same arithmetic on the scaled integers, which every
--   other module computes with.
-- - Ledger (server/src/services/ledger/ledger.service.ts and errors.ts, models/ledger.model.ts):
--   the tables wallet_balances, ledger_transactions and ledger_entries as lists of rows in a
--   record. Ledger/Post is `postTransaction`, in the order of the source: validation, balance
--   enforcement, idempotency, row locks, the check of every debit, the new rows, the new balances.
--   Ledger/Wallets has its maps of wallets, Ledger/Totals its sums by asset, Ledger/Service the
--   movements, the balance query and the reconciliation.
-- - Spot (server/src/services/spot/matching.engine.ts and spot.service.ts): Spot/Matching is
--   `match` with its SQL query as a filter and a stable sort, Spot/Settlement `settleMatch`,
--   Spot/Intake the checks of a new order, Spot/Service the lock and the end of an order,
--   Spot/Operations `placeOrder`, `triggerOrder` and `cancelOrder`. They call Ledger/Service and
--   Ledger/Post for the money that an order moves. `match` and `settleMatch` change one order
--   object; here it is passed from one to the other.
-- - Futures (server/src/services/futures/risk.service.ts, position.service.ts,
--   liquidation.service.ts, adl.service.ts, funding.service.ts, fee.service.ts and
--   tpsl.service.ts): Futures/Risk has the margin arithmetic, Futures/Positions the operations on
--   the rows of futures_positions, Futures/Waterfall the loop that liquidates a position step by
--   step and the entries that settle it, Futures/Evaluation `evaluateAndLiquidate` around them.
--   The loop runs on fuel, one round for each unit of the quantity: a round closes everything or
--   at least one unit. Futures/Adl has `processAdlEvent`, which recovers from profitable positions
--   what the insurance fund could not pay, Futures/Funding the funding rate and the settlement of
--   an epoch, and Futures/TpSl take-profit and stop-loss, with the placement of the closing order
--   as an argument.
-- - Withdrawals (server/src/services/wallet/withdrawal.service.ts and
--   withdrawal-policy.service.ts, services/compliance/aml.service.ts,
--   workers/WithdrawalProcessingWorker.ts and WithdrawalStatusWorker.ts): Withdrawals/Policy has
--   the policy and the compliance checks, Withdrawals/Funds the posts, Withdrawals/Service
--   `cryptoWithdraw`, Withdrawals/Review the review and the ends of a withdrawal,
--   Withdrawals/Queue the claims and one round of each worker. Withdrawals/Operations lists the
--   operations, so that theorems can be about all of them. The custody provider, the verification
--   on the chain and the withdrawn total of the last 24 hours are arguments.
-- - Liquidity (server/src/domain/liquidity/stateMachine.ts and executionState.ts): the states of
--   an external execution and `applyEvent`. JavaScript's numbers are a parameter there, the record
--   Numbers; no law of theirs is assumed.
-- - Breaker (server/src/services/system/circuit-breaker.service.ts): the switch that halts the
--   exchange, on one server with its cache and the row that all servers share.
-- - Prelude: the names that all share, Boolean tests, lists, integers over the native numbers, and
--   results that may be errors.
--
-- Conventions. A UUID, an asset, a symbol and a reference are numbers, since they are only
-- compared. A database transaction that throws leaves the tables as they were. Random UUIDs and
-- the clock are arguments. Amounts are integers, units of 10^-18. Of the columns NUMERIC(36,18)
-- only the rounding of a withdrawal is modelled, since no other caller passes an amount of more
-- than eighteen decimals; their upper bound and the foreign keys are not, so what the database
-- throws when they are violated is no error of the model. Recursion is on lists, but for the
-- liquidation loop and the decimal printer, which runs on fuel: the number itself, which its
-- digits never exceed.
--
-- Not modelled: queries that only read (history, lists of orders and positions), events and
-- logging, futures orders, the routing of external liquidity, deposits and transfers, custody,
-- treasury, compliance, authentication, market data, the HTTP and socket layer, the web client and
-- the Solidity contracts. They are further services around this core, or input and output.
pub mod Prelude
pub mod Breaker
pub mod Decimal
pub mod Futures
pub mod Ledger
pub mod Liquidity
pub mod Spot
pub mod Withdrawals
