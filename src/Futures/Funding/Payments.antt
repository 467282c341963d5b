-- ===== src/Futures/Funding/Payments.antt =====
-- The tables of funding and the payments that are due (funding.service.ts).
use novacex.Prelude.{
  ℕ, ◌+◌, ◌*◌, ◌^◌, Bool, false, ◌&&◌, ◌||◌, Option, List, [], ◌∷◌, ◌==◌, if◌then◌else◌,
}
use novacex.Prelude.Int.{ℤ, pos, ◌-ℤ◌, ltb_ℤ, eqb_ℤ}
use novacex.Ledger.{Db}
use novacex.Futures.{PositionSide, Position}
use novacex.Futures.Positions.{is_open}
use novacex.Futures.Funding.Rate.{calculate_estimated_funding}

-- A row of futures_funding_history, less its identifier and its time.
pub record FundingHistory : Type 0 where
  pub symbol : ℕ
  pub funding_rate : ℤ
  pub mark_price : ℤ
  pub index_price : ℤ
  pub epoch : ℕ

-- The tables that funding reads or writes.
pub record FundingStore : Type 0 where
  pub db : Db
  pub positions : List Position
  pub history : List FundingHistory

-- What comes from outside: the two prices, the static rate of a test, the fresh UUIDs of a release
-- and of a payment, and the text of a payment as a number.
pub record FundingSurroundings : Type 0 where
  pub mark_prices : ℕ → Option ℤ
  pub index_prices : ℕ → Option ℤ
  pub static_funding_rate : Option ℤ
  pub release_ids : ℕ → ℕ
  pub payment_ids : ℕ → ℕ
  pub payment_text : PositionSide → ℕ → ℤ → ℕ

-- `SELECT id FROM futures_funding_history WHERE symbol = $1 AND epoch = $2`
unfoldable pub is_settled_epoch : ℕ → ℕ → List FundingHistory → Bool
is_settled_epoch symbol epoch [] = false
is_settled_epoch symbol epoch (h ∷ hs) =
    (h.symbol == symbol && h.epoch == epoch) || is_settled_epoch symbol epoch hs

-- `SELECT * FROM futures_positions WHERE symbol = $1 AND status = 'OPEN'`
unfoldable pub open_positions : ℕ → List Position → List Position
open_positions symbol [] = []
open_positions symbol (p ∷ ps) =
    let rest = open_positions symbol ps in
    if p.symbol == symbol && is_open p.status then p ∷ rest else rest

-- `FUNDING-`, with the symbol, the epoch and the position, and the same with `-RELEASE`.
abbrev pub funding_reference : ℕ → ℕ → ℕ → ℕ
funding_reference symbol epoch position =
    (((symbol * 2 ^ 64 + epoch) * 2 ^ 128 + position) * 2 + 0) * 2 + 1

abbrev pub release_of : ℕ → ℕ → ℕ → ℕ
release_of symbol epoch position =
    (((symbol * 2 ^ 64 + epoch) * 2 ^ 128 + position) * 2 + 1) * 2 + 1

-- `Margin release for funding`
abbrev pub release_text : ℕ
release_text = 1

-- A payment that is due: the position's row, whether it receives, and the amount.
pub record Payment : Type 0 where
  pub row : Position
  pub is_credit : Bool
  pub absolute_amount : ℤ

unfoldable pub payments_of : ℤ → ℤ → List Position → List Payment
payments_of mark rate [] = []
payments_of mark rate (p ∷ ps) =
    let payment = calculate_estimated_funding p mark rate in
    let rest = payments_of mark rate ps in
    if eqb_ℤ payment (pos 0)
    then rest
    else record {
      row = p;
      is_credit = ltb_ℤ (pos 0) payment;
      absolute_amount = if ltb_ℤ (pos 0) payment then payment else pos 0 -ℤ payment;
    }
      ∷ rest

-- What a payer's margin has to give, and what the payer can pay with it.
unfoldable pub margin_release : ℤ → ℤ → ℤ → ℤ
margin_release amount avail im =
    let shortfall = amount -ℤ avail in if ltb_ℤ im shortfall then im else shortfall

unfoldable pub funded_amount : ℤ → ℤ → ℤ
funded_amount amount avail = if ltb_ℤ avail amount then avail else amount
