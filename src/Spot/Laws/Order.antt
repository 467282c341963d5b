-- ===== src/Spot/Laws/Order.antt =====
-- The rows that `match` walks (matching.engine.ts): the resting orders, in price and time order.
use novacex.Prelude.{
  ◌≡◌, ◌↔◌, ◌⊎◌, inl, inr, true, false, Bool-cases, List, [], ◌∷◌, arith, All, IsIn, All-IsIn,
  All-of,
}
use novacex.Spot.{Side, buy, sell, Order}
use novacex.Spot.Matching.{
  order_before, is_resting, opposite, insert_order, sort_orders, resting_orders, makers,
}

-- No order is before one that stands earlier.
abbrev pub IsOrdered : Side → List Order → Type 0
IsOrdered side [] = Unit
IsOrdered side (o ∷ os) = All (λ p. order_before side p o ≡ false) os × IsOrdered side os

before_asym :
    (side : Side) (a b : Order) → order_before side a b ≡ true → order_before side b a ≡ false
before_asym buy a b h = ground arith
before_asym sell a b h = ground arith

before_trans :
    (side : Side) (a b c : Order)
    → order_before side a b ≡ false
    → order_before side b c ≡ false
    → order_before side a c ≡ false
before_trans buy a b c h k = ground arith
before_trans sell a b c h k = ground arith

-- A predicate on the members of a list is one on the list with an order put in.
All-insert :
    (P : Order → Type 0) (side : Side) (o : Order) (ps : List Order)
    → P o
    → All P ps
    → All P (insert_order side o ps)
unfolding insert_order
All-insert P side o [] h hs = (h, tt)
All-insert P side o (p ∷ ps) h hs = elim (Bool-cases (order_before side p o)) [
  | inl e ↦ rw e (hs.0, All-insert P side o ps h hs.1)
  | inr e ↦ rw e (h, hs)
]

insert-IsOrdered :
    (side : Side) (o : Order) (ps : List Order)
    → IsOrdered side ps
    → IsOrdered side (insert_order side o ps)
unfolding insert_order
insert-IsOrdered side o [] h = (tt, tt)
insert-IsOrdered side o (p ∷ ps) h = elim (Bool-cases (order_before side p o)) [
  | inl e ↦ rw e (
    All-insert (λ q. order_before side q p ≡ false) side o ps (before_asym side p o e) h.0,
    insert-IsOrdered side o ps h.1,
  )
  | inr e ↦ rw e (
    (
      e,
      All-of (λ q. order_before side q o ≡ false) ps
          (λ q m. before_trans side q p o (All-IsIn _ ps q h.0 m) e),
    ),
    h,
  )
]

sort-IsOrdered : (side : Side) (os : List Order) → IsOrdered side (sort_orders side os)
unfolding sort_orders
sort-IsOrdered side [] = tt
sort-IsOrdered side (o ∷ os) =
    insert-IsOrdered side o (sort_orders side os) (sort-IsOrdered side os)

pub makers-IsOrdered :
    (incoming : Order) (book : List Order)
    → IsOrdered (opposite incoming.side) (makers incoming book)
unfolding makers
makers-IsOrdered incoming book = sort-IsOrdered _ (resting_orders incoming book)

IsIn-insert :
    (side : Side) (x o : Order) (ps : List Order)
    → IsIn x (insert_order side o ps) ↔ ((x ≡ o) ⊎ IsIn x ps)
unfolding insert_order
IsIn-insert side x o [] = (λ h. h, λ h. h)
IsIn-insert side x o (p ∷ ps) = let ih = IsIn-insert side x o ps in ground (arith, ih)

IsIn-sort : (side : Side) (x : Order) (os : List Order) → IsIn x (sort_orders side os) ↔ IsIn x os
unfolding sort_orders
IsIn-sort side x [] = (λ h. h, λ h. h)
IsIn-sort side x (o ∷ os) =
    let ih = IsIn-sort side x os in
    let one = IsIn-insert side x o (sort_orders side os) in ground (arith, ih, one)

IsIn-resting :
    (incoming x : Order) (book : List Order)
    → IsIn x (resting_orders incoming book) ↔ (IsIn x book × (is_resting incoming x ≡ true))
unfolding resting_orders
IsIn-resting incoming x [] = (λ h. absurd h, λ h. h.0)
IsIn-resting incoming x (o ∷ os) = let ih = IsIn-resting incoming x os in ground (arith, ih)

-- The rows are the orders of the book that rest on the other side, in its symbol and open.
pub IsIn-makers :
    (incoming x : Order) (book : List Order)
    → IsIn x (makers incoming book) ↔ (IsIn x book × (is_resting incoming x ≡ true))
unfolding makers
IsIn-makers incoming x book =
    let a = IsIn-sort (opposite incoming.side) x (resting_orders incoming book) in
    let b = IsIn-resting incoming x book in (λ h. b.0 (a.0 h), λ h. a.1 (b.1 h))
