-- ===== src/Spot/Laws/Cancel.antt =====
-- `cancelOrder` (spot.service.ts) and the funds that an order had locked.
use novacex.Prelude.{
  ℕ, ◌≡◌, refl, sym, ap, ◌∙◌, ◌⊎◌, inl, inr, true, none, some, List, arith, if◌then◌else◌,
}
use novacex.Prelude.Int.{ℤ, pos, ◌+ℤ◌, ◌-ℤ◌, ◌<ℤ◌, ltb_ℤ}
use novacex.Prelude.Result.{Result, err, ok, ◌>>=◌, >>=_passed}
use novacex.Decimal.RoundTrip.{to_big_int-from_big_int}
use novacex.Ledger.{LedgerError, Db, TransactionResult, spot_order_unlock}
use novacex.Ledger.Wallets.{Key, key_eq, find_wallet}
use novacex.Ledger.Post.{find_transaction}
use novacex.Ledger.Service.{release}
use novacex.Ledger.Laws.Maps.{balance_of}
use novacex.Ledger.Laws.Movements.{release_moves}
use novacex.Spot.{Order, OrderStatus, new, partially_filled, untriggered, cancelled}
use novacex.Spot.Settlement.{Exchange, SpotError, posted, update_order}
use novacex.Spot.Intake.{Account, find_account}
use novacex.Spot.Service.{movement, unlock_reference}
use novacex.Spot.Operations.{
  find_order, release_amount, release_cancelled, cancel_open, cancel_by_status, check_owner,
  cancel_order,
}

pub posted_ok :
    (x : Exchange) (m : Result LedgerError TransactionResult × Db) {y : Exchange}
    → posted x m ≡ ok y
    → ((r : TransactionResult) × (m.0 ≡ ok r)) × (y ≡ record x { db = m.1 })
posted_ok x (err e, db) h = absurd (ground arith)
posted_ok x (ok r, db) h = ((r, refl), cc)

lt→ltb_ℤ : (a b : ℤ) → a <ℤ b → ltb_ℤ a b ≡ true
lt→ltb_ℤ a b h = ground arith

release_posts :
    (id : ℕ) (o : Order) (x : Exchange)
    → pos 0 <ℤ release_amount o
    → release_cancelled id o x
      ≡ posted x (
          release id
            (movement o o.locked_asset
              (release_amount o)
              spot_order_unlock
              (unlock_reference o.id)
              1)
            x.db)
unfolding release_cancelled
release_posts id o x p = rw (lt→ltb_ℤ (pos 0) (release_amount o) p) refl

-- A release of an order's funds, at the exact amount.
release_exact :
    (id : ℕ) (o : Order) (x y : Exchange) (k : Key)
    → pos 0 <ℤ release_amount o
    → find_transaction o.account (unlock_reference o.id) x.db.transactions ≡ none
    → release_cancelled id o x ≡ ok y
    → let b = balance_of (find_wallet k x.db.wallets) in
      balance_of (find_wallet k y.db.wallets) ≡ (
        if key_eq (o.account, o.locked_asset) k
        then (b.0 +ℤ release_amount o, b.1 -ℤ release_amount o)
        else b)
unfolding release_cancelled
release_exact id o x y k p fresh h =
    let amount = release_amount o in
    let m = movement o o.locked_asset amount spot_order_unlock (unlock_reference o.id) 1 in
    let ((r, released), same) =
      posted_ok x (release id m x.db) (sym (release_posts id o x p) ∙ h) in
    ap (λ z. balance_of (find_wallet k z.db.wallets)) same
    ∙ release_moves id m x.db r amount k (to_big_int-from_big_int amount) fresh released

-- The statuses that can be cancelled.
abbrev pub IsCancellable : OrderStatus → Type 0
IsCancellable s = (s ≡ new) ⊎ (s ≡ partially_filled) ⊎ (s ≡ untriggered)

by_status :
    (s : OrderStatus) (id : ℕ) (o : Order) (x : Exchange)
    → IsCancellable s
    → cancel_by_status s id o x ≡ cancel_open id o x
unfolding cancel_by_status
by_status s id o x (inl e) = rw e refl
by_status s id o x (inr (inl e)) = rw e refl
by_status s id o x (inr (inr e)) = rw e refl

cancel_found :
    (id : ℕ) (accounts : List Account) (user order_id : ℕ) (o : Order) (x : Exchange)
    → find_order order_id x.orders ≡ some o
    → cancel_order id accounts user order_id x ≡ (
        check_owner user (find_account o.account accounts) >>= λ _.
        cancel_by_status o.status id o x)
unfolding cancel_order
cancel_found id accounts user order_id o x found = rw (found, cancel_order) refl

cancelled_result :
    (y : Exchange) (o : Order) {r : Order × Exchange}
    → ◌≡◌ {A = Result SpotError (Order × Exchange)}
        (ok (
          record o { status = cancelled },
          record y { orders = update_order (record o { status = cancelled }) y.orders },
        ))
        (ok r)
    → (r.0.status ≡ cancelled) × (r.1.db ≡ y.db)
cancelled_result y o h = (cc, cc)

pub cancel_order-release :
    (id : ℕ) (accounts : List Account) (user order_id : ℕ) (o : Order) (x : Exchange)
    (r : Order × Exchange) (k : Key)
    → find_order order_id x.orders ≡ some o
    → IsCancellable o.status
    → pos 0 <ℤ release_amount o
    → find_transaction o.account (unlock_reference o.id) x.db.transactions ≡ none
    → cancel_order id accounts user order_id x ≡ ok r
    → let b = balance_of (find_wallet k x.db.wallets) in
      (r.0.status ≡ cancelled)
      × (balance_of (find_wallet k r.1.db.wallets) ≡ (
          if key_eq (o.account, o.locked_asset) k
          then (b.0 +ℤ release_amount o, b.1 -ℤ release_amount o)
          else b))
unfolding cancel_order cancel_open
cancel_order-release id accounts user order_id o x r k found can p fresh h =
    let owner = check_owner user (find_account o.account accounts) in
    let (_, _, by) =
      >>=_passed owner _ (sym (cancel_found id accounts user order_id o x found) ∙ h) in
    let (y, released, done) =
      >>=_passed (release_cancelled id o x) _ (sym (by_status o.status id o x can) ∙ by) in
    let same = cancelled_result y o done in
    (
      same.0,
      ap (λ d. balance_of (find_wallet k d.wallets)) same.1
          ∙ release_exact id o x y k p fresh released,
    )
