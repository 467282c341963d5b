-- ===== src/Futures/Evaluation/Guards.antt =====
-- The mark price and the position of a liquidation (liquidation.service.ts).
use novacex.Prelude.{
  ℕ, ◌^◌, Bool, true, false, not, Option, none, some, List, [], ◌∷◌, ◌==◌, if◌then◌else◌,
}
use novacex.Prelude.Int.{ℤ, pos, ltb_ℤ, leb_ℤ}
use novacex.Prelude.Result.{Result, err, ok}
use novacex.Decimal.{Text, trim, to_big_int}
use novacex.Futures.{
  Position, FuturesError, position_already_liquidated, position_not_found,
  liquidation_not_authorized, invalid_mark_price, mark_price_unavailable,
}
use novacex.Futures.Risk.{whole}
use novacex.Futures.Positions.{is_open}
use novacex.Futures.Evaluation.Tables.{find_position}

abbrev pub is_blank_price : Text → Bool
is_blank_price raw = elim (trim raw) [ [] ↦ true | _ ∷ _ ↦ false ]

-- `validateMarkPrice`
unfoldable pub validate_mark_price : Text → ℕ → Result FuturesError ℤ
validate_mark_price raw id = elim (to_big_int (trim raw)) [
  | none ↦ err (invalid_mark_price id)
  | some x ↦
      if leb_ℤ x (pos 0)
      then err (invalid_mark_price id)
      else if ltb_ℤ (whole (10 ^ 17)) x
      then err (invalid_mark_price id)
      else if ltb_ℤ x (pos 1)
      then err (invalid_mark_price id)
      else ok x
]

-- `fetchAuthoritativeMarkPrice`
unfoldable pub fetch_mark_price : (ℕ → Option Text) → ℕ → ℕ → Result FuturesError ℤ
fetch_mark_price provider symbol id = elim (provider symbol) [
  | none ↦ err (mark_price_unavailable symbol)
  | some raw ↦
      if is_blank_price raw then err (mark_price_unavailable symbol) else validate_mark_price raw id
]

-- The price of an override that is not blank, else the provider's.
abbrev pub resolve_mark_price : (ℕ → Option Text) → Option Text → Position → Result FuturesError ℤ
resolve_mark_price provider none p = fetch_mark_price provider p.symbol p.id
resolve_mark_price provider (some raw) p =
    if is_blank_price raw
    then fetch_mark_price provider p.symbol p.id
    else validate_mark_price raw p.id

abbrev pub is_authorized : Option ℕ → Position → Bool
is_authorized none p = true
is_authorized (some account) p = p.account == account

-- The locked row, if it is open and the caller may liquidate it.
unfoldable pub lock_position : ℕ → Option ℕ → List Position → Result FuturesError Position
lock_position id authorized rows = elim (find_position id rows) [
  | none ↦ err (position_not_found id)
  | some p ↦
      if not (is_open p.status)
      then err (position_already_liquidated id)
      else if is_authorized authorized p
      then ok p
      else err (liquidation_not_authorized id)
]
