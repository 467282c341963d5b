-- ===== src/Spot/Laws/NoPrice.antt =====
-- What a resting order without a price does to the match of limit orders (matching.engine.ts). A
-- partially filled market order is such a row.
use mathlib.Core.Path.{subst}
use novacex.Prelude.{
  ◌≡◌, refl, sym, ap, ◌∙◌, ◌≢◌, ◌⊎◌, inl, inr, none, some, List, [], ◌∷◌, arith, IsIn, All-IsIn,
  true, false,
}
use novacex.Prelude.Int.{ℤ, pos, ◌<ℤ◌}
use novacex.Spot.{buy, sell, Order, limit}
use novacex.Spot.Matching.{
  stop, skip, next_action, match_loop, match_order, makers, is_resting, order_before, opposite,
}
use novacex.Spot.Laws.Order.{IsIn-makers, IsOrdered, makers-IsOrdered}
use novacex.Spot.Laws.Loop.{skipped, loop_stop, loop_skip}

-- A row without a price, in the order of a buy side, is behind none with a price, and stops a
-- limit sell.
no_price_stops :
    (incoming : Order) (rem : ℤ) (m : Order) (l : ℤ)
    → incoming.side ≡ sell
    → incoming.type ≡ limit
    → incoming.price ≡ some l
    → pos 0 <ℤ l
    → m.price ≡ none
    → (next_action incoming rem m ≡ stop) ⊎ (next_action incoming rem m ≡ skip)
unfolding next_action
no_price_stops incoming rem m l is_sell is_lim at_l l_pos h = ground arith

earlier_no_price : (a b : Order) → order_before buy b a ≡ false → b.price ≡ none → a.price ≡ none
earlier_no_price a b h k = ground arith

-- No fill before or at a row without a price.
loop_no_price :
    (incoming : Order) (rem : ℤ) (ms : List Order) (o : Order) (l : ℤ)
    → incoming.side ≡ sell
    → incoming.type ≡ limit
    → incoming.price ≡ some l
    → pos 0 <ℤ l
    → IsOrdered buy ms
    → IsIn o ms
    → o.price ≡ none
    → o.account ≢ incoming.account
    → (match_loop incoming rem ms).0 ≡ []
unfolding match_loop
loop_no_price incoming rem [] o l a b c d sorted at e other = refl
loop_no_price incoming rem (m ∷ ms) o l a b c d sorted (inl same) e other =
    elim (no_price_stops incoming rem m l a b c d (ap (λ p. p.price) (sym same) ∙ e)) [
      | inl stops ↦ ap (λ r. r.0) (loop_stop incoming rem m ms stops)
      | inr skips ↦ absurd (other (ap (λ p. p.account) same ∙ skipped incoming rem m skips))
    ]
loop_no_price incoming rem (m ∷ ms) o l a b c d sorted (inr at) e other =
    elim (no_price_stops incoming rem m l a b c d
      (earlier_no_price m o (All-IsIn _ ms o sorted.0 at) e)) [
        | inl stops ↦ ap (λ r. r.0) (loop_stop incoming rem m ms stops)
        | inr skips ↦
            ap (λ r. r.0) (loop_skip incoming rem m ms skips)
            ∙ loop_no_price incoming rem ms o l a b c d sorted.1 at e other
      ]

-- One resting buy without a price, of another account, keeps a limit sell at a positive price from
-- every bid of the book: nothing is matched.
pub match_order_no_price :
    (incoming : Order) (book : List Order) (o : Order) (l : ℤ)
    → incoming.side ≡ sell
    → incoming.type ≡ limit
    → incoming.price ≡ some l
    → pos 0 <ℤ l
    → IsIn o book
    → is_resting incoming o ≡ true
    → o.price ≡ none
    → o.account ≢ incoming.account
    → (match_order incoming book).0 ≡ []
unfolding match_order
match_order_no_price incoming book o l is_sell is_lim at_l l_pos at rests e other =
    loop_no_price incoming incoming.remaining_quantity (makers incoming book) o l is_sell is_lim
      at_l l_pos
      (subst (λ s. IsOrdered (opposite s) (makers incoming book)) is_sell
        (makers-IsOrdered incoming book))
      ((IsIn-makers incoming o book).1 (at, rests)) e other
