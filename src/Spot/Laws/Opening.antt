-- ===== src/Spot/Laws/Opening.antt =====
-- What a new order locks (spot.service.ts), and its cancellation.
use mathlib.Core.Path.{subst}
use novacex.Prelude.{
  ℕ, ◌≡◌, refl, sym, ap, ◌∙◌, inr, true, Option, none, some, List, [], ◌∷◌, ◌++◌, arith,
  if◌then◌else◌,
}
use novacex.Prelude.Int.{ℤ, pos, ◌+ℤ◌, ◌-ℤ◌, ◌<ℤ◌}
use novacex.Prelude.Result.{Result, ok, >>=_passed}
use novacex.Decimal.RoundTrip.{to_big_int-from_big_int}
use novacex.Ledger.{spot_order_lock}
use novacex.Ledger.Wallets.{Key, key_eq, find_wallet}
use novacex.Ledger.Post.{find_transaction}
use novacex.Ledger.Service.{reserve}
use novacex.Ledger.Laws.Maps.{balance_of}
use novacex.Ledger.Laws.Movements.{reserve_moves, put_back}
use novacex.Spot.{Side, buy, sell, Order, OrderType, TradingPair, Trade, untriggered, new}
use novacex.Spot.Settlement.{Exchange, SpotError, posted}
use novacex.Spot.Intake.{Account, CreateOrder, is_conditional}
use novacex.Spot.Service.{lock_of, movement, lock_reference, unlock_reference, run_order, buy_cost}
use novacex.Spot.Operations.{new_order, open_order, find_order, release_amount, cancel_order}
use novacex.Spot.Laws.Cancel.{posted_ok, cancel_order-release}

-- The amount that an order with a price locks is what it releases when nothing was filled.
lock_is_release :
    (side : Side) (type : OrderType) (quantity p : ℤ) (stop : Option ℤ) (pair : TradingPair)
    (orders : List Order) (id now : ℕ) (dto : CreateOrder) (lock : ℕ × ℤ)
    → dto.side ≡ side
    → is_conditional dto.type ≡ true
    → lock_of side dto.type quantity (some p) pair orders ≡ ok lock
    → release_amount (new_order id now dto (quantity, some p, stop) lock) ≡ lock.1
unfolding lock_of buy_cost
lock_is_release buy type quantity p stop pair orders id now dto lock s c h = ground arith
lock_is_release sell type quantity p stop pair orders id now dto lock s c h = ground arith

opened_result :
    (o : Order) (z : Exchange) {r : (Order × List Trade) × Exchange}
    → ◌≡◌ {A = Result SpotError ((Order × List Trade) × Exchange)} (ok ((o, []), z)) (ok r)
    → (r.0.0 ≡ o) × (r.1 ≡ z)
opened_result o z h = (cc, cc)

-- The state after a conditional order has locked its funds and been inserted.
abbrev pub IsOpened : Exchange → Order → (Order × List Trade) × Exchange → Key → Type 0
IsOpened x o r k =
    let b = balance_of (find_wallet k x.db.wallets) in
    (r.0.0 ≡ o)
    × (balance_of (find_wallet k r.1.db.wallets) ≡ (
        if key_eq (o.account, o.locked_asset) k
        then (b.0 -ℤ o.locked_amount, b.1 +ℤ o.locked_amount)
        else b))

waits :
    (type : OrderType) (o : Order) (z : Exchange)
    (run : Result SpotError ((Order × List Trade) × Exchange)) {r : (Order × List Trade) × Exchange}
    → is_conditional type ≡ true
    → (if is_conditional type then ok ((o, []), z) else run) ≡ ok r
    → ◌≡◌ {A = Result SpotError ((Order × List Trade) × Exchange)} (ok ((o, []), z)) (ok r)
waits type o z run {r} cond h = subst (λ b. (if b then ok ((o, []), z) else run) ≡ ok r) cond h

waiting :
    (type : OrderType)
    → is_conditional type ≡ true
    → (if is_conditional type then untriggered else new) ≡ untriggered
waiting type h = rw h refl

-- The release at an order that is the one opened, of the amount that was locked.
put_back_as :
    (o o' : Order) (k : Key) (x : ℤ) (b : ℤ × ℤ) {b' : ℤ × ℤ}
    → o' ≡ o
    → release_amount o' ≡ x
    → b' ≡ (if key_eq (o.account, o.locked_asset) k then (b.0 -ℤ x, b.1 +ℤ x) else b)
    → (if key_eq (o'.account, o'.locked_asset) k
        then (b'.0 +ℤ release_amount o', b'.1 -ℤ release_amount o')
        else b')
      ≡ b
put_back_as o o' k x b {b'} same amount after =
    subst (λ y. (if key_eq (o'.account, o'.locked_asset) k then (b'.0 +ℤ y, b'.1 -ℤ y) else b') ≡ b)
      (sym amount)
      (put_back (o.account, o.locked_asset) (o'.account, o'.locked_asset) k x b
        (ap (λ q. (q.account, q.locked_asset)) same) after)

open_order-IsOpened :
    (fresh : ℕ → ℕ) (now : ℕ) (pair : TradingPair) (dto : CreateOrder)
    (numbers : ℤ × Option ℤ × Option ℤ) (x : Exchange) (r : (Order × List Trade) × Exchange)
    (k : Key)
    → is_conditional dto.type ≡ true
    → find_transaction dto.account (lock_reference (fresh 0)) x.db.transactions ≡ none
    → open_order fresh now pair dto numbers x ≡ ok r
    → (lock : ℕ × ℤ) × (lock_of dto.side dto.type numbers.0 numbers.1 pair x.orders ≡ ok lock)
      × IsOpened x (new_order (fresh 0) now dto numbers lock) r k
unfolding open_order
open_order-IsOpened fresh now pair dto numbers x r k cond unused h =
    let (lock, locks, more) =
      >>=_passed (lock_of dto.side dto.type numbers.0 numbers.1 pair x.orders) _ h in
    let o = new_order (fresh 0) now dto numbers lock in
    let m = movement o o.locked_asset o.locked_amount spot_order_lock (lock_reference o.id) 0 in
    let (y, reserved, rest) = >>=_passed (posted x (reserve (fresh 1) m x.db)) _ more in
    let ((t, moved), same) = posted_ok x (reserve (fresh 1) m x.db) reserved in
    let z = record y { orders = y.orders ++ o ∷ [] } in
    let done = opened_result o z (waits dto.type o z (run_order fresh pair o z) cond rest) in
    (
      lock,
      locks,
      (
        done.0,
        ap (λ e. balance_of (find_wallet k e.db.wallets)) done.1
            ∙ ap (λ e. balance_of (find_wallet k e.db.wallets)) same
            ∙ reserve_moves (fresh 1) m x.db t o.locked_amount k
                (to_big_int-from_big_int o.locked_amount) unused moved,
      ),
    )

-- A conditional order that is placed at a price and cancelled before its trigger leaves every
-- balance of every wallet as it was before. (Both postings are under new references, the order's
-- identifier is fresh, and its lock is positive.)
pub open_order-cancel_order :
    (fresh : ℕ → ℕ) (now id : ℕ) (pair : TradingPair) (dto : CreateOrder) (quantity p : ℤ)
    (stop : Option ℤ) (accounts : List Account) (user : ℕ) (x : Exchange)
    (r : (Order × List Trade) × Exchange) (r' : Order × Exchange) (k : Key)
    → is_conditional dto.type ≡ true
    → find_transaction dto.account (lock_reference (fresh 0)) x.db.transactions ≡ none
    → open_order fresh now pair dto (quantity, some p, stop) x ≡ ok r
    → find_order (fresh 0) r.1.orders ≡ some r.0.0
    → pos 0 <ℤ release_amount r.0.0
    → find_transaction r.0.0.account (unlock_reference r.0.0.id) r.1.db.transactions ≡ none
    → cancel_order id accounts user (fresh 0) r.1 ≡ ok r'
    → balance_of (find_wallet k r'.1.db.wallets) ≡ balance_of (find_wallet k x.db.wallets)
open_order-cancel_order fresh now id pair dto quantity p stop accounts user x r r' k cond unused
      opened at positive unused' gone =
    let (lock, locks, (same, after)) =
      open_order-IsOpened fresh now pair dto (quantity, some p, stop) x r k cond unused opened in
    let o = new_order (fresh 0) now dto (quantity, some p, stop) lock in
    let released =
      cancel_order-release id accounts user (fresh 0) r.0.0 r.1 r' k at
        (inr (inr (ap (λ q. q.status) same ∙ waiting dto.type cond))) positive unused' gone in
    let amount =
      ap release_amount same
      ∙ lock_is_release dto.side dto.type quantity p stop pair x.orders (fresh 0) now dto lock refl
          cond locks in
    released.1
    ∙ put_back_as o r.0.0 k lock.1 (balance_of (find_wallet k x.db.wallets)) same amount after
