-- ===== src/Futures/Adl/Candidates.antt =====
-- The events of auto-deleveraging and the ranked counterparties of one (adl.service.ts).
use novacex.Prelude.{
  ℕ, Bool, true, false, ◌&&◌, ◌||◌, leb, Option, none, some, List, [], ◌∷◌, ◌==◌, if◌then◌else◌,
}
use novacex.Prelude.Int.{ℤ, pos, ltb_ℤ, eqb_ℤ}
use novacex.Decimal.Value.{div_dec}
use novacex.Futures.{PositionSide, long, short, Position}
use novacex.Futures.Risk.{calculate_unrealized_pnl}
use novacex.Futures.Positions.{is_open}
use novacex.Futures.Evaluation.{Liquidation, AdlEvent}

-- What comes from outside: the price provider (none where it throws), the last close of k_lines,
-- the lot size and the least notional of a trading pair, the last update of a position's row, the
-- fresh UUID of the post for a position, and the text of that post as a number.
pub record AdlSurroundings : Type 0 where
  pub mark_prices : ℕ → Option ℤ
  pub close_prices : ℕ → Option ℤ
  pub trading_pairs : ℕ → Option (ℤ × ℤ)
  pub updated_at : ℕ → ℕ
  pub transaction_ids : ℕ → ℕ
  pub settlement_text : ℕ → PositionSide → ℤ → ℤ → ℕ

-- `SELECT * FROM futures_adl_events WHERE id = $1 FOR UPDATE`
unfoldable pub find_event : ℕ → List AdlEvent → Option AdlEvent
find_event id [] = none
find_event id (e ∷ es) = if e.id == id then some e else find_event id es

-- `UPDATE futures_adl_events SET … WHERE id = …`
unfoldable pub update_event : ℕ → (AdlEvent → AdlEvent) → List AdlEvent → List AdlEvent
update_event id set [] = []
update_event id set (e ∷ es) = (if e.id == id then set e else e) ∷ update_event id set es

unfoldable pub find_liquidation : ℕ → List Liquidation → Option Liquidation
find_liquidation id [] = none
find_liquidation id (l ∷ ls) = if l.id == id then some l else find_liquidation id ls

abbrev pub opposite_side : PositionSide → PositionSide
opposite_side long = short
opposite_side short = long

abbrev pub side_eq : PositionSide → PositionSide → Bool
side_eq long long = true
side_eq short short = true
side_eq _ _ = false

-- `roe`
abbrev pub return_on_equity : ℤ → Position → ℤ
return_on_equity mark p =
    if ltb_ℤ (pos 0) p.initial_margin
    then div_dec (calculate_unrealized_pnl p.side p.quantity p.entry_price mark) p.initial_margin
    else pos 0

abbrev pub is_profitable : ℤ → Position → Bool
is_profitable mark p = ltb_ℤ (pos 0) (calculate_unrealized_pnl p.side p.quantity p.entry_price mark)

abbrev pub is_counterparty : ℕ → PositionSide → ℤ → Position → Bool
is_counterparty symbol side mark p =
    p.symbol == symbol && side_eq p.side side && is_open p.status && is_profitable mark p

-- The higher return first, then the lower identifier.
abbrev pub ranks_before : ℤ → Position → Position → Bool
ranks_before mark a b =
    ltb_ℤ (return_on_equity mark b) (return_on_equity mark a)
    || (eqb_ℤ (return_on_equity mark b) (return_on_equity mark a) && leb a.id b.id)

unfoldable pub insert_ranked : ℤ → Position → List Position → List Position
insert_ranked mark p [] = p ∷ []
insert_ranked mark p (q ∷ qs) =
    if ranks_before mark p q then p ∷ q ∷ qs else q ∷ insert_ranked mark p qs

-- `rankedCandidates`
unfoldable pub ranked_candidates : ℕ → PositionSide → ℤ → List Position → List Position
unfolding insert_ranked
ranked_candidates symbol side mark [] = []
ranked_candidates symbol side mark (p ∷ ps) =
    let rest = ranked_candidates symbol side mark ps in
    if is_counterparty symbol side mark p then insert_ranked mark p rest else rest
