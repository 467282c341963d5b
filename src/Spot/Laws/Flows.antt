-- ===== src/Spot/Laws/Flows.antt =====
-- The settlement of a match (spot.service.ts): what its ledger entries move, wallet by wallet.
use mathlib.Core.Path.{subst}
use novacex.Prelude.{
  ℕ, ◌≡◌, ◌≢◌, refl, sym, ◌∙◌, ◌⊎◌, inl, inr, true, false, List, ◌++◌, arith, ◌==◌,
}
use novacex.Prelude.Int.{ℤ, pos, ◌+ℤ◌, ◌-ℤ◌, ◌≤ℤ◌, int_laws}
use novacex.Decimal.Value.{mul_dec}
use novacex.Ledger.{available, Entry}
use novacex.Ledger.Laws.Effect.{net}
use novacex.Ledger.Laws.Enforcement.{debits, credits, net_key}
use novacex.Spot.{Side, buy, sell, Order, TradingPair, Match}
use novacex.Spot.Settlement.{fee_account, terms_of, fee_entry, refund_entries, settle_entries}
use novacex.Spot.Laws.Settlement.{mul_dec_nonneg, settle_entries_balance}
use novacex.Spot.Laws.FlowParts.{
  fee_net, fee_net_elsewhere, fee_net_of_others, fee_available_of_others, refund_net, refund_due,
  refund_available, groups_net, groups_available, trade_entries, trade_net,
}

-- The fees of a trade at a rate, in what each side receives.
abbrev base_fee : Match → ℤ → ℤ
base_fee m rate = mul_dec m.exec_qty rate

abbrev quote_fee : Match → ℤ → ℤ
quote_fee m rate = mul_dec (mul_dec m.exec_qty m.exec_price) rate

-- What the entries of a settlement move, for a buyer and a seller and their fee rates: in available
-- and locked together, and in the buyer's available quote.
abbrev pub Flows : TradingPair → Match → Order → Order → ℤ → ℤ → List Entry → Type 0
Flows pair m buyer seller buyer_rate seller_rate es =
    let paid = mul_dec m.exec_qty m.exec_price in
    let base = pair.base_asset in
    let quote = pair.quote_asset in
    (net_key (buyer.account, quote) es ≡ pos 0 -ℤ paid)
    × (net_key (buyer.account, base) es ≡ m.exec_qty -ℤ mul_dec m.exec_qty buyer_rate)
    × (net_key (seller.account, base) es ≡ pos 0 -ℤ m.exec_qty)
    × (net_key (seller.account, quote) es ≡ paid -ℤ mul_dec paid seller_rate)
    × (net_key (fee_account, base) es ≡ mul_dec m.exec_qty buyer_rate)
    × (net_key (fee_account, quote) es ≡ mul_dec paid seller_rate)
    × (net available (buyer.account, quote) es ≡ refund_due buyer m)

entries_between : TradingPair → Match → Order → Order → ℤ → ℤ → List Entry
entries_between pair m buyer seller buyer_rate seller_rate =
    trade_entries pair.base_asset pair.quote_asset buyer.account seller.account
      (m.exec_qty -ℤ base_fee m buyer_rate) (mul_dec m.exec_qty m.exec_price) m.exec_qty
      (mul_dec m.exec_qty m.exec_price -ℤ quote_fee m seller_rate)
    ++ fee_entry pair.base_asset (base_fee m buyer_rate)
    ++ fee_entry pair.quote_asset (quote_fee m seller_rate)
    ++ refund_entries buyer pair.quote_asset m

sum_first : (x : ℤ) → x +ℤ pos 0 +ℤ pos 0 ≡ x
sum_first x = omega int_laws

sum_second : (x : ℤ) → pos 0 +ℤ x +ℤ pos 0 ≡ x
sum_second x = omega int_laws

sum_third : (x : ℤ) → pos 0 +ℤ pos 0 +ℤ x ≡ x
sum_third x = omega int_laws

trader_net :
    (b q : ℕ) (fb fq : ℤ) (buyer : Order) (m : Match) (trade : List Entry) (a s : ℕ) (x : ℤ)
    → a ≢ fee_account
    → net_key (a, s) trade ≡ x
    → net_key (a, s) (trade ++ fee_entry b fb ++ fee_entry q fq ++ refund_entries buyer q m) ≡ x
trader_net b q fb fq buyer m trade a s x other t =
    groups_net (a, s) trade (fee_entry b fb) (fee_entry q fq) (refund_entries buyer q m) x (pos 0)
      (pos 0) t (fee_net_of_others a s b fb other) (fee_net_of_others a s q fq other)
      (refund_net (a, s) buyer q m)
    ∙ sum_first x

between-Flows :
    (pair : TradingPair) (m : Match) (buyer seller : Order) (rb rs : ℤ)
    → pair.base_asset ≢ pair.quote_asset
    → buyer.account ≢ seller.account
    → buyer.account ≢ fee_account
    → seller.account ≢ fee_account
    → pos 0 ≤ℤ rb
    → pos 0 ≤ℤ rs
    → pos 0 ≤ℤ m.exec_qty
    → pos 0 ≤ℤ m.exec_price
    → Flows pair m buyer seller rb rs (entries_between pair m buyer seller rb rs)
unfolding entries_between
between-Flows pair m buyer seller rb rs bq uv uf vf b_rate s_rate qty price =
    let b = pair.base_asset in
    let q = pair.quote_asset in
    let fb = base_fee m rb in
    let fq = quote_fee m rs in
    let fb_nonneg = mul_dec_nonneg m.exec_qty rb qty b_rate in
    let fq_nonneg =
      mul_dec_nonneg (mul_dec m.exec_qty m.exec_price) rs
        (mul_dec_nonneg m.exec_qty m.exec_price qty price) s_rate in
    let (buyer_quote, buyer_base, seller_base, seller_quote, fee_base, fee_quote, none_yet) =
      trade_net b q buyer.account seller.account (m.exec_qty -ℤ fb)
        (mul_dec m.exec_qty m.exec_price) m.exec_qty (mul_dec m.exec_qty m.exec_price -ℤ fq) bq uv
        uf vf in
    let refund = refund_entries buyer q m in
    let trade =
      trade_entries b q buyer.account seller.account (m.exec_qty -ℤ fb)
        (mul_dec m.exec_qty m.exec_price) m.exec_qty (mul_dec m.exec_qty m.exec_price -ℤ fq) in
    (
      trader_net b q fb fq buyer m trade buyer.account q _ uf buyer_quote,
      trader_net b q fb fq buyer m trade buyer.account b _ uf buyer_base,
      trader_net b q fb fq buyer m trade seller.account b _ vf seller_base,
      trader_net b q fb fq buyer m trade seller.account q _ vf seller_quote,
      groups_net (fee_account, b) trade (fee_entry b fb) (fee_entry q fq) refund (pos 0) fb (pos 0)
            fee_base (fee_net b fb fb_nonneg) (fee_net_elsewhere q b fq (λ e. bq (sym e)))
            (refund_net (fee_account, b) buyer q m)
          ∙ sum_second fb,
      groups_net (fee_account, q) trade (fee_entry b fb) (fee_entry q fq) refund (pos 0) (pos 0) fq
            fee_quote (fee_net_elsewhere b q fb bq) (fee_net q fq fq_nonneg)
            (refund_net (fee_account, q) buyer q m)
          ∙ sum_third fq,
      groups_available (buyer.account, q) trade (fee_entry b fb) (fee_entry q fq) refund
          (refund_due buyer m) none_yet (fee_available_of_others buyer.account q b fb uf)
          (fee_available_of_others buyer.account q q fq uf) (refund_available buyer q m qty),
    )

Side-cases : (side : Side) → (side ≡ buy) ⊎ (side ≡ sell)
Side-cases buy = inl refl
Side-cases sell = inr refl

different : (a b : ℕ) → a ≢ b → (a == b) ≡ false
different a b h = ground arith

same_id : (a : ℕ) → (a == a) ≡ true
same_id a = ground arith

settled_between :
    (pair : TradingPair) (taker : Order) (m : Match)
    → taker.id ≢ m.maker.id
    → ((taker.side ≡ buy)
        × (settle_entries pair taker m
            ≡ entries_between pair m taker m.maker pair.taker_fee_rate pair.maker_fee_rate))
      ⊎ ((taker.side ≡ sell)
          × (settle_entries pair taker m
              ≡ entries_between pair m m.maker taker pair.maker_fee_rate pair.taker_fee_rate))
unfolding settle_entries terms_of entries_between
settled_between pair taker m other =
    let differ = different taker.id m.maker.id other in
    elim (Side-cases taker.side) [
      | inl e ↦ inl (e, rw (e, differ, same_id m.maker.id) refl)
      | inr e ↦ inr (e, rw (e, differ, same_id m.maker.id) refl)
    ]

-- What the settlement of a match moves, where the two orders and their accounts differ and neither
-- account is the exchange's, the pair has two assets, and quantity, price and fee rates are not
-- negative. The buyer pays quantity times price in the quote asset and receives the quantity in the
-- base asset less its fee; the seller delivers the quantity and receives quantity times price less
-- its fee; the fee account receives both fees; the taker pays the taker's rate and the maker the
-- maker's. A limit buyer gets what it locked above the price of the match back into its available
-- balance, and the two sides of the entries are equal in every asset.
pub settle_entries-Flows :
    (pair : TradingPair) (taker : Order) (m : Match) (s : ℕ)
    → taker.id ≢ m.maker.id
    → taker.account ≢ m.maker.account
    → taker.account ≢ fee_account
    → m.maker.account ≢ fee_account
    → pair.base_asset ≢ pair.quote_asset
    → pos 0 ≤ℤ pair.maker_fee_rate
    → pos 0 ≤ℤ pair.taker_fee_rate
    → pos 0 ≤ℤ m.exec_qty
    → pos 0 ≤ℤ m.exec_price
    → (((taker.side ≡ buy)
          × Flows pair m taker m.maker pair.taker_fee_rate pair.maker_fee_rate
              (settle_entries pair taker m))
        ⊎ ((taker.side ≡ sell)
            × Flows pair m m.maker taker pair.maker_fee_rate pair.taker_fee_rate
                (settle_entries pair taker m)))
      × (debits s (settle_entries pair taker m) ≡ credits s (settle_entries pair taker m))
settle_entries-Flows pair taker m s ids accounts tf mf assets mk tk q p = (
  elim (settled_between pair taker m ids) [
    | inl (side, e) ↦ inl (
      side,
      subst (Flows pair m taker m.maker pair.taker_fee_rate pair.maker_fee_rate) (sym e) (
          between-Flows pair m taker m.maker pair.taker_fee_rate pair.maker_fee_rate assets accounts
            tf mf tk mk q p),
    )
    | inr (side, e) ↦ inr (
      side,
      subst (Flows pair m m.maker taker pair.maker_fee_rate pair.taker_fee_rate) (sym e) (
          between-Flows pair m m.maker taker pair.maker_fee_rate pair.taker_fee_rate assets
            (λ same. accounts (sym same)) mf tf mk tk q p),
    )
  ],
  settle_entries_balance pair taker m s mk tk q p,
)
