-- ===== src/Spot/Laws/Priority.antt =====
-- The orders that `match` takes in full (matching.engine.ts).
use novacex.Prelude.{
  ◌≡◌, refl, sym, ap, ◌≢◌, ◌⊎◌, inl, inr, Bool, true, false, some, List, [], ◌∷◌, arith, All, IsIn,
  All-IsIn, All-of, ◌∙◌, ◌<◌,
}
use novacex.Prelude.Int.{ℤ, pos, ◌-ℤ◌, ◌≤ℤ◌, ◌<ℤ◌}
use mathlib.Core.Path.{subst}
use novacex.Decimal.Value.{min_dec}
use novacex.Spot.{Side, buy, sell, Order, Match}
use novacex.Spot.Matching.{
  next_action, match_of, match_loop, match_order, makers, is_resting, beyond_limit, price_or_zero,
  order_before, opposite,
}
use novacex.Spot.Laws.Order.{IsIn-makers, IsOrdered, makers-IsOrdered}
use novacex.Spot.Laws.Loop.{
  full_match, stopped, skipped, match_loop_done, full_or_done, loop_stop, loop_skip, loop_fill,
}
use novacex.Spot.Laws.Fills.{Action-cases}

abbrev pub HasPrice : Order → Type 0
HasPrice o = (p : ℤ) × (o.price ≡ some p)

-- A price that the incoming order would rather take: the lower ask, the higher bid.
abbrev IsBetter : Side → ℤ → ℤ → Type 0
IsBetter sell p q = p <ℤ q
IsBetter buy p q = q <ℤ p

-- Price and time priority of an order on that side over another: a better price, or the same price
-- and an earlier time.
abbrev pub IsAhead : Side → Order → Order → Type 0
IsAhead side a b =
    IsBetter side (price_or_zero a.price) (price_or_zero b.price)
    ⊎ ((price_or_zero a.price ≡ price_or_zero b.price) × (a.created_at < b.created_at))

before-IsAhead :
    (side : Side) (a b : Order)
    → HasPrice a
    → HasPrice b
    → order_before side a b ≡ false
    → ¬ IsAhead side a b
before-IsAhead buy a b pa pb h k = ground arith
before-IsAhead sell a b pa pb h k = ground arith

never-IsAhead : (side : Side) (o : Order) → ¬ IsAhead side o o
never-IsAhead buy o h = ground arith
never-IsAhead sell o h = ground arith

-- An order that the price check refuses hides only worse ones.
beyond_later :
    (incoming a b : Order)
    → HasPrice a
    → HasPrice b
    → beyond_limit incoming a ≡ true
    → order_before (opposite incoming.side) b a ≡ false
    → beyond_limit incoming b ≡ true
beyond_later incoming a b pa pb h k = ground arith

-- The orders that the incoming one may take.
abbrev pub IsTakeable : Order → Order → Type 0
IsTakeable incoming o = (o.account ≢ incoming.account) × (beyond_limit incoming o ≡ false)

not_left : (rem : ℤ) → rem ≤ℤ pos 0 → ¬ (pos 0 <ℤ rem)
not_left rem done h = omega arith

-- A reason to have taken an order on that side in full: something is left, or one that it is ahead
-- of was matched.
abbrev pub IsDue : Side → Order → List Match × ℤ → Type 0
IsDue side o r = (pos 0 <ℤ r.1) ⊎ ((m : Match) × IsIn m r.0 × IsAhead side o m.maker)

-- The outcome of a loop for one order: matched in full, if that is due.
TakesAll : Side → Order → List Match × ℤ → Type 0
TakesAll side o r = IsDue side o r → IsIn (full_match o) r.0

complete_nothing_left :
    (side : Side) (o : Order) (rem : ℤ) → rem ≤ℤ pos 0 → TakesAll side o ([], rem)
unfolding TakesAll
complete_nothing_left side o rem done (inl h) = absurd (not_left rem done h)
complete_nothing_left side o rem done (inr (m, at, h)) = absurd at

-- With one match by the order itself, and nothing left, nothing was due.
complete_last :
    (side : Side) (o : Order) (x : Match) (rem : ℤ)
    → x.maker ≡ o
    → rem ≤ℤ pos 0
    → TakesAll side o (x ∷ [], rem)
unfolding TakesAll
complete_last side o x rem e done (inl h) = absurd (not_left rem done h)
complete_last side o x rem e done (inr (m, inl same, h)) =
    absurd (never-IsAhead side o (subst (IsAhead side o) (ap (λ z. z.maker) same ∙ e) h))
complete_last side o x rem e done (inr (m, inr at, h)) = absurd at

complete_none_left :
    (incoming : Order) (o : Order) (x : Match) (rem : ℤ) (ms : List Order)
    → x.maker ≡ o
    → rem ≤ℤ pos 0
    → TakesAll
        (opposite incoming.side)
        o
        (x ∷ (match_loop incoming rem ms).0, (match_loop incoming rem ms).1)
complete_none_left incoming o x rem ms e done =
    subst (λ r. TakesAll (opposite incoming.side) o (x ∷ r.0, r.1))
      (sym (match_loop_done incoming rem ms done))
      (complete_last (opposite incoming.side) o x rem e done)

complete_here :
    (side : Side) (o : Order) (x : Match) (r : List Match × ℤ)
    → full_match o ≡ x
    → TakesAll side o (x ∷ r.0, r.1)
unfolding TakesAll
complete_here side o x r e h = inl e

complete_later :
    (side : Side) (o : Order) (x : Match) (r : List Match × ℤ)
    → ¬ IsAhead side o x.maker
    → TakesAll side o r
    → TakesAll side o (x ∷ r.0, r.1)
unfolding TakesAll
complete_later side o x r first c (inl h) = inr (c (inl h))
complete_later side o x r first c (inr (m, inl same, h)) =
    absurd (first (subst (λ z. IsAhead side o z.maker) same h))
complete_later side o x r first c (inr (m, inr at, h)) = inr (c (inr (m, at, h)))

complete_first :
    (incoming : Order) (rem : ℤ) (m : Order) (ms : List Order)
    → IsTakeable incoming m
    → TakesAll (opposite incoming.side) m (match_loop incoming rem (m ∷ ms))
complete_first incoming rem m ms can = elim (Action-cases (next_action incoming rem m)) [
  | inl e ↦
      subst (TakesAll (opposite incoming.side) m) (sym (loop_stop incoming rem m ms e))
        (elim (stopped incoming rem m e) [
          | inl done ↦ complete_nothing_left (opposite incoming.side) m rem done
          | inr beyond ↦ absurd (ground arith)
        ])
  | inr (inl e) ↦ absurd (can.0 (skipped incoming rem m e))
  | inr (inr e) ↦
      let left = rem -ℤ min_dec rem m.remaining_quantity in
      subst (TakesAll (opposite incoming.side) m) (sym (loop_fill incoming rem m ms e))
        (elim (full_or_done rem m) [
          | inl done ↦ complete_none_left incoming m (match_of rem m) left ms refl done
          | inr full ↦
              complete_here (opposite incoming.side) m (match_of rem m)
                (match_loop incoming left ms) full
        ])
]

shown : {b : Bool} → b ≡ true → b ≡ false → ⊥
shown h k = ground arith

match_loop_complete :
    (incoming : Order) (rem : ℤ) (ms : List Order) (o : Order)
    → IsOrdered (opposite incoming.side) ms
    → All HasPrice ms
    → IsIn o ms
    → IsTakeable incoming o
    → TakesAll (opposite incoming.side) o (match_loop incoming rem ms)
match_loop_complete incoming rem [] o sorted priced at can = absurd at
match_loop_complete incoming rem (m ∷ ms) o sorted priced (inl e) can =
    subst (λ p. TakesAll (opposite incoming.side) o (match_loop incoming rem (p ∷ ms))) e
      (complete_first incoming rem o ms can)
match_loop_complete incoming rem (m ∷ ms) o sorted priced (inr at) can =
    elim (Action-cases (next_action incoming rem m)) [
      | inl e ↦
          subst (TakesAll (opposite incoming.side) o) (sym (loop_stop incoming rem m ms e))
            (elim (stopped incoming rem m e) [
              | inl done ↦ complete_nothing_left (opposite incoming.side) o rem done
              | inr beyond ↦ absurd (
                  shown
                    (beyond_later incoming m o priced.0 (All-IsIn HasPrice ms o priced.1 at) beyond
                      (All-IsIn _ ms o sorted.0 at))
                    can.1)
            ])
      | inr (inl e) ↦
          subst (TakesAll (opposite incoming.side) o) (sym (loop_skip incoming rem m ms e))
            (match_loop_complete incoming rem ms o sorted.1 priced.1 at can)
      | inr (inr e) ↦
          subst (TakesAll (opposite incoming.side) o) (sym (loop_fill incoming rem m ms e)) (
            complete_later (opposite incoming.side) o (match_of rem m)
              (match_loop incoming (rem -ℤ min_dec rem m.remaining_quantity) ms)
              (before-IsAhead (opposite incoming.side) o m (All-IsIn HasPrice ms o priced.1 at)
                priced.0 (All-IsIn _ ms o sorted.0 at))
              (match_loop_complete incoming (rem -ℤ min_dec rem m.remaining_quantity) ms o sorted.1
                priced.1 at can))
    ]

-- A resting order has a price, as a market order that was left partially filled has not.
abbrev pub IsPriced : Order → Order → Type 0
IsPriced incoming p = (is_resting incoming p ≡ false) ⊎ HasPrice p

makers-HasPrice :
    (incoming : Order) (book : List Order)
    → All (IsPriced incoming) book
    → All HasPrice (makers incoming book)
makers-HasPrice incoming book priced = All-of HasPrice (makers incoming book) (λ p m.
    let (at, rests) = (IsIn-makers incoming p book).0 m in
    elim (All-IsIn (IsPriced incoming) book p priced at) [
      | inl other ↦ absurd (shown rests other)
      | inr price ↦ price
    ])

-- When the orders that rest on the other side have a price each, one of another account within the
-- limit of the incoming order is matched for all that it had left, if the incoming order has
-- something left after the match or if some order is matched that it is ahead of: one with a worse
-- price, or with the same price and a later time. So no order is passed over for a worse or later
-- one.
pub match_order_complete :
    (incoming : Order) (book : List Order) (o : Order)
    → All (IsPriced incoming) book
    → (pos 0 <ℤ (match_order incoming book).1.remaining_quantity)
      ⊎ ((m : Match) × IsIn m (match_order incoming book).0
          × IsAhead (opposite incoming.side) o m.maker)
    → IsIn o book
    → is_resting incoming o ≡ true
    → o.account ≢ incoming.account
    → beyond_limit incoming o ≡ false
    → IsIn (full_match o) (match_order incoming book).0
unfolding match_order TakesAll
match_order_complete incoming book o priced due at rests other within =
    match_loop_complete incoming incoming.remaining_quantity (makers incoming book) o
      (makers-IsOrdered incoming book) (makers-HasPrice incoming book priced)
      ((IsIn-makers incoming o book).1 (at, rests)) (other, within) due
