-- ===== src/Spot/Laws/Fills.antt =====
-- What `match` fills (matching.engine.ts): quantities, and the conditions on each fill.
use novacex.Prelude.{
  ◌≡◌, ap, ◌≢◌, ◌⊎◌, inl, inr, true, false, List, [], ◌∷◌, arith, All, IsIn, All-IsIn, All-of,
}
use novacex.Prelude.Int.{
  ℤ, pos, ◌+ℤ◌, ◌-ℤ◌, ◌≤ℤ◌, ◌<ℤ◌, int_laws, -ℤ_parts, zero-+ℤ, pos_part, neg_part,
}
use novacex.Decimal.Value.{min_dec}
use novacex.Spot.{Order, Match}
use novacex.Spot.Matching.{
  Action, stop, skip, fill, next_action, match_of, match_loop, match_order, makers, is_resting,
  beyond_limit, price_or_zero,
}
use novacex.Spot.Laws.Order.{IsIn-makers}

abbrev pub total_matched : List Match → ℤ
total_matched [] = pos 0
total_matched (m ∷ ms) = m.exec_qty +ℤ total_matched ms

take_one : (rem q total left : ℤ) → total +ℤ left ≡ rem -ℤ q → q +ℤ total +ℤ left ≡ rem
take_one rem q total left h = omega (int_laws, ap pos_part h, ap neg_part h)

pub Action-cases : (a : Action) → (a ≡ stop) ⊎ (a ≡ skip) ⊎ (a ≡ fill)
Action-cases stop = ground arith
Action-cases skip = ground arith
Action-cases fill = ground arith

pub match_loop-conserves :
    (incoming : Order) (rem : ℤ) (ms : List Order)
    → total_matched (match_loop incoming rem ms).0 +ℤ (match_loop incoming rem ms).1 ≡ rem
unfolding match_loop
match_loop-conserves incoming rem [] = zero-+ℤ rem
match_loop-conserves incoming rem (m ∷ ms) = elim (Action-cases (next_action incoming rem m)) [
  | inl e ↦ rw (e, match_loop) (zero-+ℤ rem)
  | inr (inl e) ↦ rw (e, match_loop) (match_loop-conserves incoming rem ms)
  | inr (inr e) ↦
      rw (e, match_loop)
        (take_one rem (min_dec rem m.remaining_quantity) _ _
          (match_loop-conserves incoming (rem -ℤ min_dec rem m.remaining_quantity) ms))
]

-- A fill of the incoming order: on its conditions, and within what the maker has left.
abbrev pub IsFill : Order → Match → Type 0
IsFill incoming m =
    (m.maker.account ≢ incoming.account)
    × (beyond_limit incoming m.maker ≡ false)
    × (m.exec_price ≡ price_or_zero m.maker.price)
    × (pos 0 <ℤ m.exec_qty)
    × (m.exec_qty ≤ℤ m.maker.remaining_quantity)

fill_conditions :
    (incoming : Order) (rem : ℤ) (m : Order)
    → next_action incoming rem m ≡ fill
    → pos 0 <ℤ m.remaining_quantity
    → IsFill incoming (match_of rem m)
unfolding next_action min_dec
fill_conditions incoming rem m h p = ground arith

fill_leaves :
    (incoming : Order) (rem : ℤ) (m : Order)
    → next_action incoming rem m ≡ fill
    → pos 0 ≤ℤ rem -ℤ min_dec rem m.remaining_quantity
unfolding next_action min_dec
fill_leaves incoming rem m h = ground (arith, -ℤ_parts rem m.remaining_quantity, -ℤ_parts rem rem)

pub match_loop-IsFill :
    (incoming : Order) (P : Order → Type 0) (rem : ℤ) (ms : List Order)
    → pos 0 ≤ℤ rem
    → All (λ o. (pos 0 <ℤ o.remaining_quantity) × P o) ms
    → All (λ m. P m.maker × IsFill incoming m) (match_loop incoming rem ms).0
      × (pos 0 ≤ℤ (match_loop incoming rem ms).1)
unfolding match_loop
match_loop-IsFill incoming P rem [] r h = (tt, r)
match_loop-IsFill incoming P rem (m ∷ ms) r h = elim (Action-cases (next_action incoming rem m)) [
  | inl e ↦ rw (e, match_loop) (tt, r)
  | inr (inl e) ↦ rw (e, match_loop) (match_loop-IsFill incoming P rem ms r h.1)
  | inr (inr e) ↦
      let rest =
        match_loop-IsFill incoming P (rem -ℤ min_dec rem m.remaining_quantity) ms
          (fill_leaves incoming rem m e) h.1 in
      rw (e, match_loop) (((h.0.1, fill_conditions incoming rem m e h.0.0), rest.0), rest.1)
]

-- What is matched and what the incoming order is left with add up to what remained of it.
pub match_order-conserves :
    (incoming : Order) (book : List Order)
    → total_matched (match_order incoming book).0
        +ℤ (match_order incoming book).1.remaining_quantity
      ≡ incoming.remaining_quantity
unfolding match_order
match_order-conserves incoming book =
    match_loop-conserves incoming incoming.remaining_quantity (makers incoming book)

-- When every order of the book has something left, each match is with an order of the book that
-- rests on the other side, is not the incoming account's own, and lies within a limit order's
-- price; it is made at that order's price, for a positive quantity that the order has left. An
-- incoming order that is not overfilled is not overfilled afterwards.
pub match_order-IsFill :
    (incoming : Order) (book : List Order)
    → pos 0 ≤ℤ incoming.remaining_quantity
    → All (λ o. pos 0 <ℤ o.remaining_quantity) book
    → All
        (λ m. (IsIn m.maker book × (is_resting incoming m.maker ≡ true)) × IsFill incoming m)
        (match_order incoming book).0
      × (pos 0 ≤ℤ (match_order incoming book).1.remaining_quantity)
unfolding match_order
match_order-IsFill incoming book some_left h =
    match_loop-IsFill incoming (λ o. IsIn o book × (is_resting incoming o ≡ true))
      incoming.remaining_quantity (makers incoming book) some_left
      (All-of _ (makers incoming book)
        (λ o m. let at = (IsIn-makers incoming o book).0 m in (All-IsIn _ book o h at.0, at)))
