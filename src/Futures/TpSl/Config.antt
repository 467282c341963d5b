-- ===== src/Futures/TpSl/Config.antt =====
-- The configuration of a position (`setConfig`, tpsl.service.ts).
use novacex.Prelude.{ℕ, Bool, not, Option, none, some, List, [], ◌∷◌, ◌++◌, ◌==◌, if◌then◌else◌}
use novacex.Prelude.Int.{ℤ}
use novacex.Prelude.Result.{Result, err, ok, ◌>>=◌}
use novacex.Decimal.{Text, to_big_int}
use novacex.Futures.{PositionSide, Position}
use novacex.Futures.Positions.{is_open}
use novacex.Futures.Evaluation.{find_position}

-- `FuturesTpSlConfigEntity`, less its times.
pub record TpSlConfig : Type 0 where
  pub id : ℕ
  pub position : ℕ
  pub account : ℕ
  pub symbol : ℕ
  pub position_side : PositionSide
  pub take_profit_enabled : Bool
  pub take_profit_price : Option ℤ
  pub stop_loss_enabled : Bool
  pub stop_loss_price : Option ℤ

-- A row of accounts: its identifier and its user.
pub record Owner : Type 0 where
  pub account : ℕ
  pub user : ℕ

-- The tables that the service reads or writes.
pub record TpSlStore : Type 0 where
  pub configs : List TpSlConfig
  pub positions : List Position
  pub accounts : List Owner

pub data TpSlError : Type 0 where
  position_not_found : ℕ → TpSlError
  account_ownership_denied : ℕ → TpSlError
  invalid_price : Text → TpSlError

-- `SetTpSlDto`
pub record SetTpSl : Type 0 where
  pub user : ℕ
  pub position : ℕ
  pub take_profit_enabled : Bool
  pub take_profit_price : Option Text
  pub stop_loss_enabled : Bool
  pub stop_loss_price : Option Text

unfoldable pub find_owner : ℕ → List Owner → Option ℕ
find_owner account [] = none
find_owner account (o ∷ os) = if o.account == account then some o.user else find_owner account os

unfoldable pub config_of_position : ℕ → List TpSlConfig → Option TpSlConfig
config_of_position position [] = none
config_of_position position (c ∷ cs) =
    if c.position == position then some c else config_of_position position cs

-- `UPDATE futures_tpsl_configs SET … WHERE id = …`
unfoldable pub update_config : ℕ → (TpSlConfig → TpSlConfig) → List TpSlConfig → List TpSlConfig
update_config id set [] = []
update_config id set (c ∷ cs) = (if c.id == id then set c else c) ∷ update_config id set cs

-- `price ? decimalNormalize(price) : undefined`
abbrev pub read_price : Option Text → Result TpSlError (Option ℤ)
read_price none = ok none
read_price (some []) = ok none
read_price (some (c ∷ text)) = elim (to_big_int (c ∷ text)) [
  | none ↦ err (invalid_price (c ∷ text))
  | some x ↦ ok (some x)
]

-- The open position, if the user owns its account.
unfoldable pub owned_position : SetTpSl → TpSlStore → Result TpSlError Position
unfolding find_owner
owned_position dto x = elim (find_position dto.position x.positions) [
  | none ↦ err (position_not_found dto.position)
  | some p ↦
      if not (is_open p.status)
      then err (position_not_found dto.position)
      else elim (find_owner p.account x.accounts) [
        | none ↦ err (account_ownership_denied p.account)
        | some user ↦ if user == dto.user then ok p else err (account_ownership_denied p.account)
      ]
]

-- The configuration that is stored, under the identifier of an earlier one or a fresh one.
abbrev pub configured : ℕ → SetTpSl → Position → Option ℤ → Option ℤ → TpSlConfig
configured id dto p take stop = record {
  id = id;
  position = dto.position;
  account = p.account;
  symbol = p.symbol;
  position_side = p.side;
  take_profit_enabled = dto.take_profit_enabled;
  take_profit_price = take;
  stop_loss_enabled = dto.stop_loss_enabled;
  stop_loss_price = stop;
}

abbrev pub price_columns : SetTpSl → Option ℤ → Option ℤ → TpSlConfig → TpSlConfig
price_columns dto take stop row = record row {
  take_profit_enabled = dto.take_profit_enabled;
  take_profit_price = take;
  stop_loss_enabled = dto.stop_loss_enabled;
  stop_loss_price = stop;
}

abbrev pub stored_config :
    ℕ → SetTpSl → Position → Option ℤ → Option ℤ → TpSlStore → TpSlConfig × TpSlStore
stored_config fresh dto p take stop x = elim (config_of_position dto.position x.configs) [
  | some c ↦ (
    configured c.id dto p take stop,
    record x { configs = update_config c.id (price_columns dto take stop) x.configs },
  )
  | none ↦ (
    configured fresh dto p take stop,
    record x { configs = x.configs ++ configured fresh dto p take stop ∷ [] },
  )
]

-- `setConfig`; `fresh` is the new UUID.
unfoldable pub set_config : ℕ → SetTpSl → TpSlStore → Result TpSlError (TpSlConfig × TpSlStore)
unfolding owned_position config_of_position update_config
set_config fresh dto x = do
  p ← owned_position dto x
  take ← read_price dto.take_profit_price
  stop ← read_price dto.stop_loss_price
  ok (stored_config fresh dto p take stop x)
