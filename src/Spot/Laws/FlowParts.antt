-- ===== src/Spot/Laws/FlowParts.antt =====
-- The groups of entries of a settlement (spot.service.ts): trade, fees and refund.
use novacex.Prelude.{
  ℕ, ◌≡◌, ◌≢◌, refl, sym, inl, inr, true, Bool-cases, Option, none, some, List, [], ◌∷◌, ◌++◌,
  if◌then◌else◌,
}
use novacex.Prelude.Int.{ℤ, pos, ◌+ℤ◌, ◌-ℤ◌, ◌≤ℤ◌, int_laws, zero-+ℤ, +ℤ-zero, +ℤ_assoc, ltb_ℤ}
use novacex.Decimal.Value.{mul_dec}
use novacex.Ledger.{Pool, credit, debit, available, locked, Entry}
use novacex.Ledger.Wallets.{Key}
use novacex.Ledger.Laws.Effect.{net}
use novacex.Ledger.Laws.Enforcement.{net_key}
use novacex.Spot.{Order, Match}
use novacex.Spot.Matching.{is_limit}
use novacex.Spot.Settlement.{fee_account, entry, fee_entry, refund_pair, refund_at, refund_entries}
use novacex.Spot.Laws.Settlement.{mul_dec_nonneg}

net_key-append :
    (k : Key) (es fs : List Entry) → net_key k (es ++ fs) ≡ net_key k es +ℤ net_key k fs
unfolding net_key
net_key-append k [] fs = sym (zero-+ℤ (net_key k fs))
net_key-append k (e ∷ es) fs =
    rw (net_key-append k es fs) (sym (+ℤ_assoc _ (net_key k es) (net_key k fs)))

pub net-append :
    (b : Pool) (k : Key) (es fs : List Entry) → net b k (es ++ fs) ≡ net b k es +ℤ net b k fs
unfolding net
net-append b k [] fs = sym (zero-+ℤ (net b k fs))
net-append b k (e ∷ es) fs = rw (net-append b k es fs) (sym (+ℤ_assoc _ (net b k es) (net b k fs)))

pub fee_net :
    (asset : ℕ) (fee : ℤ) → pos 0 ≤ℤ fee → net_key (fee_account, asset) (fee_entry asset fee) ≡ fee
unfolding net_key
fee_net asset fee h = grind int_laws

pub fee_net_elsewhere :
    (asset other : ℕ) (fee : ℤ)
    → asset ≢ other
    → net_key (fee_account, other) (fee_entry asset fee) ≡ pos 0
unfolding net_key
fee_net_elsewhere asset other fee h = grind int_laws

pub fee_net_of_others :
    (a s asset : ℕ) (fee : ℤ) → a ≢ fee_account → net_key (a, s) (fee_entry asset fee) ≡ pos 0
unfolding net_key
fee_net_of_others a s asset fee h = grind int_laws

pub fee_available_of_others :
    (a s asset : ℕ) (fee : ℤ) → a ≢ fee_account → net available (a, s) (fee_entry asset fee) ≡ pos 0
unfolding net
fee_available_of_others a s asset fee h = grind int_laws

refund_pair_net :
    (k : Key) (buyer : Order) (asset : ℕ) (x : ℤ) → net_key k (refund_pair buyer asset x) ≡ pos 0
unfolding net_key
refund_pair_net k buyer asset x = grind int_laws

refund_at_net :
    (k : Key) (buyer : Order) (asset : ℕ) (m : Match) (price : Option ℤ)
    → net_key k (refund_at buyer asset m price) ≡ pos 0
unfolding net_key
refund_at_net k buyer asset m none = refl
refund_at_net k buyer asset m (some p) = elim (Bool-cases (ltb_ℤ m.exec_price p)) [
  | inl e ↦
      rw (e, refund_at) (refund_pair_net k buyer asset (mul_dec m.exec_qty (p -ℤ m.exec_price)))
  | inr e ↦ rw (e, refund_at) refl
]

-- A refund stays within one wallet.
pub refund_net :
    (k : Key) (buyer : Order) (asset : ℕ) (m : Match)
    → net_key k (refund_entries buyer asset m) ≡ pos 0
unfolding net_key
refund_net k buyer asset m = elim (Bool-cases (is_limit buyer.type)) [
  | inr e ↦ rw (e, refund_entries) refl
  | inl e ↦ rw (e, refund_entries) (refund_at_net k buyer asset m buyer.price)
]

-- What a limit buyer gets back: the quantity at the difference of its price and the match's.
abbrev pub above : Match → Option ℤ → ℤ
above m none = pos 0
above m (some p) = if ltb_ℤ m.exec_price p then mul_dec m.exec_qty (p -ℤ m.exec_price) else pos 0

abbrev pub refund_due : Order → Match → ℤ
refund_due buyer m = if is_limit buyer.type then above m buyer.price else pos 0

refund_pair_available :
    (buyer : Order) (asset : ℕ) (x : ℤ)
    → pos 0 ≤ℤ x
    → net available (buyer.account, asset) (refund_pair buyer asset x) ≡ x
unfolding net
refund_pair_available buyer asset x h = grind int_laws

gap_nonneg : (a b : ℤ) → ltb_ℤ a b ≡ true → pos 0 ≤ℤ b -ℤ a
gap_nonneg a b h = grind int_laws

refund_at_available :
    (buyer : Order) (asset : ℕ) (m : Match) (price : Option ℤ)
    → pos 0 ≤ℤ m.exec_qty
    → net available (buyer.account, asset) (refund_at buyer asset m price) ≡ above m price
unfolding net
refund_at_available buyer asset m none q = refl
refund_at_available buyer asset m (some p) q = elim (Bool-cases (ltb_ℤ m.exec_price p)) [
  | inl e ↦
      rw (e, refund_at)
        (refund_pair_available buyer asset (mul_dec m.exec_qty (p -ℤ m.exec_price))
          (mul_dec_nonneg m.exec_qty (p -ℤ m.exec_price) q (gap_nonneg m.exec_price p e)))
  | inr e ↦ rw (e, refund_at) refl
]

pub refund_available :
    (buyer : Order) (asset : ℕ) (m : Match)
    → pos 0 ≤ℤ m.exec_qty
    → net available (buyer.account, asset) (refund_entries buyer asset m) ≡ refund_due buyer m
unfolding net
refund_available buyer asset m q = elim (Bool-cases (is_limit buyer.type)) [
  | inr e ↦ rw (e, refund_entries) refl
  | inl e ↦ rw (e, refund_entries) (refund_at_available buyer asset m buyer.price q)
]

-- The four groups of entries, added up.
pub groups_net :
    (k : Key) (trade fee_b fee_q refund : List Entry) (x y z : ℤ)
    → net_key k trade ≡ x
    → net_key k fee_b ≡ y
    → net_key k fee_q ≡ z
    → net_key k refund ≡ pos 0
    → net_key k (trade ++ fee_b ++ fee_q ++ refund) ≡ x +ℤ y +ℤ z
groups_net k trade fee_b fee_q refund x y z t b q r =
    rw
      (
        net_key-append k (trade ++ fee_b ++ fee_q) refund,
        net_key-append k (trade ++ fee_b) fee_q,
        net_key-append k trade fee_b,
        t,
        b,
        q,
        r,
      )
      (+ℤ-zero (x +ℤ y +ℤ z))

pub groups_available :
    (k : Key) (trade fee_b fee_q refund : List Entry) (x : ℤ)
    → net available k trade ≡ pos 0
    → net available k fee_b ≡ pos 0
    → net available k fee_q ≡ pos 0
    → net available k refund ≡ x
    → net available k (trade ++ fee_b ++ fee_q ++ refund) ≡ x
groups_available k trade fee_b fee_q refund x t b q r =
    rw
      (
        net-append available k (trade ++ fee_b ++ fee_q) refund,
        net-append available k (trade ++ fee_b) fee_q,
        net-append available k trade fee_b,
        t,
        b,
        q,
        r,
      )
      (omega int_laws)

-- The four entries of the trade itself.
abbrev pub trade_entries : ℕ → ℕ → ℕ → ℕ → ℤ → ℤ → ℤ → ℤ → List Entry
trade_entries b q u v base quote qty got =
    entry u q quote debit locked
    ∷ entry u b base credit available
    ∷ entry v b qty debit locked
    ∷ entry v q got credit available
    ∷ []

pub trade_net :
    (b q u v : ℕ) (base quote qty got : ℤ)
    → b ≢ q
    → u ≢ v
    → u ≢ fee_account
    → v ≢ fee_account
    → let es = trade_entries b q u v base quote qty got in
      (net_key (u, q) es ≡ pos 0 -ℤ quote)
      × (net_key (u, b) es ≡ base)
      × (net_key (v, b) es ≡ pos 0 -ℤ qty)
      × (net_key (v, q) es ≡ got)
      × (net_key (fee_account, b) es ≡ pos 0)
      × (net_key (fee_account, q) es ≡ pos 0)
      × (net available (u, q) es ≡ pos 0)
unfolding net_key net
trade_net b q u v base quote qty got bq uv uf vf = (
  grind int_laws,
  grind int_laws,
  grind int_laws,
  grind int_laws,
  grind int_laws,
  grind int_laws,
  grind int_laws,
)
