-- ===== src/Spot/Laws/Loop.antt =====
-- One iteration of the loop in `match` (matching.engine.ts).
use novacex.Prelude.{◌≡◌, refl, sym, ap, ◌⊎◌, inl, inr, true, List, [], ◌∷◌, arith}
use novacex.Prelude.Int.{ℤ, pos, ◌-ℤ◌, ◌≤ℤ◌, -ℤ_parts}
use novacex.Decimal.Value.{min_dec}
use novacex.Spot.{Order, Match}
use novacex.Spot.Matching.{
  stop, skip, fill, next_action, match_of, match_loop, beyond_limit, price_or_zero, is_buy,
}

-- The match that takes all that an order has left.
abbrev pub full_match : Order → Match
full_match o = record {
  maker = o;
  exec_price = price_or_zero o.price;
  exec_qty = o.remaining_quantity;
  is_buyer_maker = is_buy o.side;
}

pub stopped :
    (incoming : Order) (rem : ℤ) (m : Order)
    → next_action incoming rem m ≡ stop
    → (rem ≤ℤ pos 0) ⊎ (beyond_limit incoming m ≡ true)
unfolding next_action
stopped incoming rem m h = ground arith

pub skipped :
    (incoming : Order) (rem : ℤ) (m : Order)
    → next_action incoming rem m ≡ skip
    → m.account ≡ incoming.account
unfolding next_action
skipped incoming rem m h = ground arith

-- With nothing left the loop ends.
pub match_loop_done :
    (incoming : Order) (rem : ℤ) (ms : List Order)
    → rem ≤ℤ pos 0
    → match_loop incoming rem ms ≡ ([], rem)
unfolding match_loop next_action
match_loop_done incoming rem [] h = refl
match_loop_done incoming rem (m ∷ ms) h = ground arith

min_or_done : (rem q : ℤ) → (rem -ℤ min_dec rem q ≤ℤ pos 0) ⊎ (min_dec rem q ≡ q)
unfolding min_dec
min_or_done rem q = ground (arith, -ℤ_parts rem rem)

pub full_or_done :
    (rem : ℤ) (m : Order)
    → (rem -ℤ min_dec rem m.remaining_quantity ≤ℤ pos 0) ⊎ (full_match m ≡ match_of rem m)
full_or_done rem m = elim (min_or_done rem m.remaining_quantity) [
  | inl done ↦ inl done
  | inr e ↦ inr (ap (λ q. record (full_match m) { exec_qty = q }) (sym e))
]

pub loop_stop :
    (incoming : Order) (rem : ℤ) (m : Order) (ms : List Order)
    → next_action incoming rem m ≡ stop
    → match_loop incoming rem (m ∷ ms) ≡ ([], rem)
unfolding match_loop
loop_stop incoming rem m ms e = rw (e, match_loop) refl

pub loop_skip :
    (incoming : Order) (rem : ℤ) (m : Order) (ms : List Order)
    → next_action incoming rem m ≡ skip
    → match_loop incoming rem (m ∷ ms) ≡ match_loop incoming rem ms
unfolding match_loop
loop_skip incoming rem m ms e = rw (e, match_loop) refl

pub loop_fill :
    (incoming : Order) (rem : ℤ) (m : Order) (ms : List Order)
    → next_action incoming rem m ≡ fill
    → let rest = match_loop incoming (rem -ℤ min_dec rem m.remaining_quantity) ms in
      match_loop incoming rem (m ∷ ms) ≡ (match_of rem m ∷ rest.0, rest.1)
unfolding match_loop
loop_fill incoming rem m ms e = rw (e, match_loop) refl
