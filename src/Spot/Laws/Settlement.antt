-- ===== src/Spot/Laws/Settlement.antt =====
-- The settlement of a match (spot.service.ts): the two sides of its ledger entries.
use novacex.Prelude.{
  ℕ, ◌≡◌, refl, sym, inl, inr, Bool, true, false, Bool-cases, Option, none, some, List, [], ◌∷◌,
  ◌++◌, arith, if◌then◌else◌, ◌==◌,
}
use novacex.Prelude.Int.{
  ℤ, pos, ◌+ℤ◌, ◌-ℤ◌, ◌*ℤ◌, ◌/ℤ◌, ◌≤ℤ◌, int_laws, zero-+ℤ, +ℤ-zero, +ℤ_assoc, ltb_ℤ,
}
use novacex.Decimal.Value.{mul_dec}
use novacex.Ledger.{credit, debit, available, locked, Entry}
use novacex.Ledger.Laws.Enforcement.{debits, credits}
use novacex.Spot.{Order, TradingPair, Match}
use novacex.Spot.Matching.{is_limit}
use novacex.Spot.Settlement.{
  fee_rate, terms_of, entry, fee_entry, refund_pair, refund_at, refund_entries, settle_entries,
}

pub mul_dec_nonneg : (a b : ℤ) → pos 0 ≤ℤ a → pos 0 ≤ℤ b → pos 0 ≤ℤ mul_dec a b
unfolding mul_dec ◌*ℤ◌ ◌/ℤ◌
mul_dec_nonneg (pos a) (pos b) h k = ground arith
mul_dec_nonneg a b h k = ground arith

pub debits-append : (s : ℕ) (es fs : List Entry) → debits s (es ++ fs) ≡ debits s es +ℤ debits s fs
unfolding debits
debits-append s [] fs = sym (zero-+ℤ (debits s fs))
debits-append s (e ∷ es) fs =
    rw (debits-append s es fs) (sym (+ℤ_assoc _ (debits s es) (debits s fs)))

pub credits-append :
    (s : ℕ) (es fs : List Entry) → credits s (es ++ fs) ≡ credits s es +ℤ credits s fs
unfolding credits
credits-append s [] fs = sym (zero-+ℤ (credits s fs))
credits-append s (e ∷ es) fs =
    rw (credits-append s es fs) (sym (+ℤ_assoc _ (credits s es) (credits s fs)))

-- What an amount adds to the side of one asset.
abbrev at_asset : ℕ → ℕ → ℤ → ℤ
at_asset s asset x = if asset == s then x else pos 0

fee_credits :
    (s asset : ℕ) (fee : ℤ) → pos 0 ≤ℤ fee → credits s (fee_entry asset fee) ≡ at_asset s asset fee
unfolding credits
fee_credits s asset fee h = grind (int_laws, +ℤ-zero fee, +ℤ-zero (pos 0))

fee_debits : (s asset : ℕ) (fee : ℤ) → debits s (fee_entry asset fee) ≡ pos 0
unfolding debits
fee_debits s asset fee = grind (int_laws, +ℤ-zero (pos 0))

refund_pair_balances :
    (s asset : ℕ) (buyer : Order) (x : ℤ)
    → debits s (refund_pair buyer asset x) ≡ credits s (refund_pair buyer asset x)
unfolding debits credits
refund_pair_balances s asset buyer x = grind (int_laws, +ℤ-zero x)

refund_at_balances :
    (s asset : ℕ) (buyer : Order) (m : Match) (price : Option ℤ)
    → debits s (refund_at buyer asset m price) ≡ credits s (refund_at buyer asset m price)
unfolding debits credits
refund_at_balances s asset buyer m none = refl
refund_at_balances s asset buyer m (some p) = elim (Bool-cases (ltb_ℤ m.exec_price p)) [
  | inl e ↦
      rw (e, refund_at)
        (refund_pair_balances s asset buyer (mul_dec m.exec_qty (p -ℤ m.exec_price)))
  | inr e ↦ rw (e, refund_at) refl
]

refund_balances :
    (s asset : ℕ) (buyer : Order) (m : Match)
    → debits s (refund_entries buyer asset m) ≡ credits s (refund_entries buyer asset m)
unfolding debits credits
refund_balances s asset buyer m = elim (Bool-cases (is_limit buyer.type)) [
  | inl e ↦ rw (e, refund_entries) (refund_at_balances s asset buyer m buyer.price)
  | inr e ↦ rw (e, refund_entries) refl
]

-- The four entries of the trade itself.
trade_debits :
    (s b q u v : ℕ) (base quote qty got : ℤ)
    → debits s (
        entry u q quote debit locked
        ∷ entry u b base credit available
        ∷ entry v b qty debit locked
        ∷ entry v q got credit available
        ∷ [])
      ≡ at_asset s q quote +ℤ at_asset s b qty
unfolding debits
trade_debits s b q u v base quote qty got = grind int_laws

trade_credits :
    (s b q u v : ℕ) (base quote qty got : ℤ)
    → credits s (
        entry u q quote debit locked
        ∷ entry u b base credit available
        ∷ entry v b qty debit locked
        ∷ entry v q got credit available
        ∷ [])
      ≡ at_asset s b base +ℤ at_asset s q got
unfolding credits
trade_credits s b q u v base quote qty got = grind int_laws

sum_sides :
    (s q b : ℕ) (quote qty f g d : ℤ)
    → at_asset s q quote +ℤ at_asset s b qty +ℤ pos 0 +ℤ pos 0 +ℤ d
      ≡ at_asset s b (qty -ℤ f)
        +ℤ at_asset s q (quote -ℤ g)
        +ℤ at_asset s b f
        +ℤ at_asset s q g
        +ℤ d
sum_sides s q b quote qty f g d = grind int_laws

-- Four groups of entries balance when their parts do.
groups_balance :
    (s q b : ℕ) (quote qty f g : ℤ) (trade fee_b fee_q refund : List Entry)
    → debits s trade ≡ at_asset s q quote +ℤ at_asset s b qty
    → credits s trade ≡ at_asset s b (qty -ℤ f) +ℤ at_asset s q (quote -ℤ g)
    → debits s fee_b ≡ pos 0
    → credits s fee_b ≡ at_asset s b f
    → debits s fee_q ≡ pos 0
    → credits s fee_q ≡ at_asset s q g
    → debits s refund ≡ credits s refund
    → debits s (trade ++ fee_b ++ fee_q ++ refund) ≡ credits s (trade ++ fee_b ++ fee_q ++ refund)
groups_balance s q b quote qty f g trade fee_b fee_q refund td tc bd bc qd qc rr =
    rw
      (
        debits-append s (trade ++ fee_b ++ fee_q) refund,
        debits-append s (trade ++ fee_b) fee_q,
        debits-append s trade fee_b,
        credits-append s (trade ++ fee_b ++ fee_q) refund,
        credits-append s (trade ++ fee_b) fee_q,
        credits-append s trade fee_b,
        td,
        tc,
        bd,
        bc,
        qd,
        qc,
        rr,
      )
      (sum_sides s q b quote qty f g (credits s refund))

pub fee_rate_nonneg :
    (pair : TradingPair) (is_maker : Bool)
    → pos 0 ≤ℤ pair.maker_fee_rate
    → pos 0 ≤ℤ pair.taker_fee_rate
    → pos 0 ≤ℤ fee_rate pair is_maker
fee_rate_nonneg pair true h k = h
fee_rate_nonneg pair false h k = k

-- With fee rates, a quantity and a price that are not negative, the entries of a settlement balance
-- in every asset: what the buyer pays and the seller delivers is what the two receive, plus the fees
-- that the exchange collects; a refund moves within the buyer's wallet.
pub settle_entries_balance :
    (pair : TradingPair) (taker : Order) (m : Match) (s : ℕ)
    → pos 0 ≤ℤ pair.maker_fee_rate
    → pos 0 ≤ℤ pair.taker_fee_rate
    → pos 0 ≤ℤ m.exec_qty
    → pos 0 ≤ℤ m.exec_price
    → debits s (settle_entries pair taker m) ≡ credits s (settle_entries pair taker m)
unfolding settle_entries terms_of
settle_entries_balance pair taker m s mk tk q p =
    let t = terms_of pair taker m in
    let quote = mul_dec_nonneg m.exec_qty m.exec_price q p in
    groups_balance s pair.quote_asset pair.base_asset t.quote_qty m.exec_qty t.buyer_fee
      t.seller_fee _ (fee_entry pair.base_asset t.buyer_fee)
      (fee_entry pair.quote_asset t.seller_fee) (refund_entries t.buyer pair.quote_asset m)
      (trade_debits s pair.base_asset pair.quote_asset t.buyer.account t.seller.account
        t.buyer_received_base t.quote_qty m.exec_qty t.seller_received_quote)
      (trade_credits s pair.base_asset pair.quote_asset t.buyer.account t.seller.account
        t.buyer_received_base t.quote_qty m.exec_qty t.seller_received_quote)
      (fee_debits s pair.base_asset t.buyer_fee)
      (fee_credits s pair.base_asset t.buyer_fee (
        mul_dec_nonneg m.exec_qty (fee_rate pair (t.buyer.id == m.maker.id)) q
          (fee_rate_nonneg pair (t.buyer.id == m.maker.id) mk tk)))
      (fee_debits s pair.quote_asset t.seller_fee)
      (fee_credits s pair.quote_asset t.seller_fee (
        mul_dec_nonneg t.quote_qty (fee_rate pair (t.seller.id == m.maker.id)) quote
          (fee_rate_nonneg pair (t.seller.id == m.maker.id) mk tk)))
      (refund_balances s pair.quote_asset t.buyer m)
