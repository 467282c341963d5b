-- ===== src/Spot/Laws/Progress.antt =====
-- How the incoming order's quantities move through `match` and `settleMatch` (matching.engine.ts and
-- spot.service.ts), which change the same object.
use novacex.Prelude.{ℕ, ◌+◌, ◌≡◌, refl, sym, ap, ◌∙◌, List, [], ◌∷◌, arith}
use novacex.Prelude.Int.{ℤ, pos, ◌+ℤ◌, ◌-ℤ◌, ◌≤ℤ◌, int_laws, +ℤ-zero, +ℤ_assoc, pos_part, neg_part}
use novacex.Prelude.Result.{Result, ok, >>=_passed}
use novacex.Ledger.Post.{post_transaction}
use novacex.Spot.{Order, TradingPair, Match, Trade, filled}
use novacex.Spot.Matching.{match_order}
use novacex.Spot.Settlement.{
  Exchange, SpotError, posted, settle_input, fill_order, settle_match, settle_all,
}
use novacex.Spot.Service.{finish_order}
use novacex.Spot.Laws.Fills.{total_matched, match_order-conserves}

ok_order :
    {t : List Trade × Order × Exchange} {r : List Trade × Order × Exchange}
    → ◌≡◌ {A = Result SpotError (List Trade × Order × Exchange)} (ok t) (ok r)
    → t.1 ≡ r.1
ok_order h = cc

settle_match_fills :
    (fresh : ℕ → ℕ) (n : ℕ) (pair : TradingPair) (m : Match) (taker : Order) (x : Exchange)
    {r : List Trade × Order × Exchange}
    → settle_match fresh n pair m taker x ≡ ok r
    → r.1 ≡ fill_order m.exec_qty taker
unfolding settle_match
settle_match_fills fresh n pair m taker x h =
    let (y, done, same) =
      >>=_passed
        (posted x (post_transaction (fresh (n + 2)) (settle_input (fresh n) pair taker m) x.db)) _
        h in
    sym (ok_order same)

-- What an order has filled and left after matches.
abbrev pub filled_by : List Match → Order → Order
filled_by [] o = o
filled_by (m ∷ ms) o = filled_by ms (fill_order m.exec_qty o)

pub settle_all_fills :
    (fresh : ℕ → ℕ) (n : ℕ) (pair : TradingPair) (ms : List Match) (taker : Order) (x : Exchange)
    {r : List Trade × Order × Exchange}
    → settle_all fresh n pair ms taker x ≡ ok r
    → r.1 ≡ filled_by ms taker
unfolding settle_all
settle_all_fills fresh n pair [] taker x h = sym (ok_order h)
settle_all_fills fresh n pair (m ∷ ms) taker x {r} h =
    let (one, first, more) = >>=_passed (settle_match fresh n pair m taker x) _ h in
    let (rest, second, same) = >>=_passed (settle_all fresh (n + 3) pair ms one.1 one.2) _ more in
    sym (ok_order same)
    ∙ settle_all_fills fresh (n + 3) pair ms one.1 one.2 second
    ∙ ap (filled_by ms) (settle_match_fills fresh n pair m taker x first)

-ℤ-zero : (a : ℤ) → a -ℤ pos 0 ≡ a
-ℤ-zero a = omega int_laws

take_both : (a b c : ℤ) → a -ℤ b -ℤ c ≡ a -ℤ (b +ℤ c)
take_both a b c = omega int_laws

filled_by_totals :
    (ms : List Match) (o : Order)
    → ((filled_by ms o).filled_quantity ≡ o.filled_quantity +ℤ total_matched ms)
      × ((filled_by ms o).remaining_quantity ≡ o.remaining_quantity -ℤ total_matched ms)
      × ((filled_by ms o).quantity ≡ o.quantity)
filled_by_totals [] o = (sym (+ℤ-zero _), sym (-ℤ-zero _), refl)
filled_by_totals (m ∷ ms) o =
    let ih = filled_by_totals ms (fill_order m.exec_qty o) in
    (
      ih.0 ∙ +ℤ_assoc _ m.exec_qty (total_matched ms),
      ih.1 ∙ take_both _ m.exec_qty (total_matched ms),
      ih.2,
    )

twice : (rem left total : ℤ) → total +ℤ left ≡ rem → left -ℤ total ≡ rem -ℤ total -ℤ total
twice rem left total h = omega (int_laws, ap pos_part h, ap neg_part h)

-- The settlement of what `match` found takes the matched quantity off the incoming order a second
-- time: the order object that comes out of it has filled what was matched, and has twice that less
-- remaining than it came in with.
pub settle_all-match_order :
    (fresh : ℕ → ℕ) (n : ℕ) (pair : TradingPair) (incoming : Order) (x : Exchange)
    (r : List Trade × Order × Exchange)
    → settle_all fresh n pair (match_order incoming x.orders).0 (match_order incoming x.orders).1 x
      ≡ ok r
    → let total = total_matched (match_order incoming x.orders).0 in
      (r.1.filled_quantity ≡ incoming.filled_quantity +ℤ total)
      × (r.1.remaining_quantity ≡ incoming.remaining_quantity -ℤ total -ℤ total)
unfolding match_order
settle_all-match_order fresh n pair incoming x r h =
    let found = match_order incoming x.orders in
    let total = total_matched found.0 in
    let same = settle_all_fills fresh n pair found.0 found.1 x h in
    let sums = filled_by_totals found.0 found.1 in
    (
      ap (λ o. o.filled_quantity) same ∙ sums.0,
      ap (λ o. o.remaining_quantity) same
          ∙ sums.1
          ∙ twice incoming.remaining_quantity found.1.remaining_quantity total
              (match_order-conserves incoming x.orders),
    )

finish_order-filled :
    (o : Order)
    → o.remaining_quantity ≤ℤ pos 0
    → ((finish_order o).status ≡ filled) × ((finish_order o).filled_quantity ≡ o.quantity)
unfolding finish_order
finish_order-filled o h = ground arith

no_more :
    (rem total : ℤ) {left : ℤ}
    → left ≡ rem -ℤ total -ℤ total
    → rem ≤ℤ total +ℤ total
    → left ≤ℤ pos 0
no_more rem total e h = omega (int_laws, ap pos_part e, ap neg_part e)

-- So an incoming order that is matched for at least half of what it had left ends up as filled, and
-- is recorded as filled in its whole quantity.
pub finish_order-match_order :
    (fresh : ℕ → ℕ) (n : ℕ) (pair : TradingPair) (incoming : Order) (x : Exchange)
    (r : List Trade × Order × Exchange)
    → settle_all fresh n pair (match_order incoming x.orders).0 (match_order incoming x.orders).1 x
      ≡ ok r
    → incoming.remaining_quantity
      ≤ℤ total_matched (match_order incoming x.orders).0
        +ℤ total_matched (match_order incoming x.orders).0
    → ((finish_order r.1).status ≡ filled)
      × ((finish_order r.1).filled_quantity ≡ incoming.quantity)
unfolding match_order
finish_order-match_order fresh n pair incoming x r h half =
    let found = match_order incoming x.orders in
    let counted = settle_all-match_order fresh n pair incoming x r h in
    let done = finish_order-filled r.1 (no_more incoming.remaining_quantity _ counted.1 half) in
    let same = settle_all_fills fresh n pair found.0 found.1 x h in
    (done.0, done.1 ∙ ap (λ o. o.quantity) same ∙ (filled_by_totals found.0 found.1).2)
