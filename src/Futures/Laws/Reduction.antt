-- ===== src/Futures/Laws/Reduction.antt =====
-- `reducePosition` and `liquidatePosition` (position.service.ts): margins, profit, and the guard
-- against a concurrent liquidation.
use mathlib.Core.Path.{subst}
use native.Mathlib.Nat.{div-le_of_le-mul, mul-le-mul_left, mul-le-mul_right, mul_comm}
use novacex.Prelude.{
  ℕ, ◌*◌, ◌/◌, ◌≤◌, ◌<◌, ◌≡◌, refl, sym, ◌∙◌, ◌⊎◌, inl, inr, Bool, true, false, Bool-cases, arith,
  List, [], ◌∷◌, IsIn, ◌||◌, ◌&&◌, ◌==◌,
}
use novacex.Prelude.Int.{ℤ, pos, negsuc, ◌+ℤ◌, ◌*ℤ◌, ◌/ℤ◌, ◌≤ℤ◌, ◌<ℤ◌, leb_ℤ}
use novacex.Prelude.Result.{Result, ok}
use novacex.Decimal.{scale}
use novacex.Decimal.Value.{mul_dec, div_dec}
use novacex.Futures.{Position, FuturesError, liquidated}
use novacex.Futures.Positions.{
  is_open, update_open, guarded, ReduceResult, actual_reduction, reduced, reduce_result, unreduced,
  reduce_columns, reduce_position,
}

part_within : (k a b s : ℕ) → 0 < b → 0 < s → a ≤ b → k * (a * s / b) / s ≤ k
part_within k a b s b_pos s_pos h =
    let ratio = div-le_of_le-mul b {n = s} (mul-le-mul_right s h) in
    div-le_of_le-mul s {n = k}
      (subst (λ x. k * (a * s / b) ≤ x) (mul_comm k s) (mul-le-mul_left k ratio))

-- A share of a margin that is no more than the whole.
pub share_within :
    (k a b : ℤ)
    → pos 0 ≤ℤ k
    → pos 0 <ℤ a
    → a ≤ℤ b
    → (pos 0 ≤ℤ mul_dec k (div_dec a b)) × (mul_dec k (div_dec a b) ≤ℤ k)
unfolding mul_dec div_dec ◌*ℤ◌ ◌/ℤ◌
share_within (pos k) (pos a) (pos b) h p q =
    (omega arith, omega (arith, part_within k a b scale (omega arith) (omega arith) (omega arith)))
share_within (negsuc k) a b h p q = absurd (omega arith)
share_within (pos k) (negsuc a) b h p q = absurd (omega arith)
share_within (pos k) (pos a) (negsuc b) h p q = absurd (omega arith)

-- The statement of a reduction: margin is split, profit is added.
abbrev pub IsReduction : Position → ReduceResult → Type 0
IsReduction p r =
    (r.freed_margin +ℤ r.updated_position.initial_margin ≡ p.initial_margin)
    × (pos 0 ≤ℤ r.freed_margin)
    × (pos 0 ≤ℤ r.updated_position.initial_margin)
    × (r.updated_position.realized_pnl ≡ p.realized_pnl +ℤ r.realized_pnl)

guarded_ok :
    (id : ℕ) (a : ReduceResult) (u : List Position × Bool) {r : ReduceResult × List Position}
    → guarded id a u ≡ ok r
    → (r.0 ≡ a) × (r.1 ≡ u.0)
guarded_ok id a (rows, true) h = (cc, cc)
guarded_ok id a (rows, false) h = absurd (ground arith)

ok_second :
    {a b : ReduceResult × List Position}
    → ◌≡◌ {A = Result FuturesError (ReduceResult × List Position)} (ok a) (ok b)
    → a.1 ≡ b.1
ok_second h = cc

reduce-cases :
    (p : Position) (reduce price rate am : ℤ) (rows : List Position)
    → (reduce_position p reduce price rate am rows ≡ ok (unreduced p, rows))
      ⊎ ((pos 0 ≤ℤ actual_reduction reduce p.quantity)
          × (reduce_position p reduce price rate am rows
              ≡ guarded p.id (reduce_result p (actual_reduction reduce p.quantity) price rate am) (
                  update_open p.id
                    (reduce_columns (reduced p (actual_reduction reduce p.quantity) price rate am))
                    rows)))
unfolding reduce_position
reduce-cases p reduce price rate am rows =
    elim (Bool-cases (leb_ℤ reduce (pos 0) || leb_ℤ p.quantity (pos 0))) [
      | inl e ↦ inl (rw (e, reduce_position) refl)
      | inr e ↦ inr (ground arith, rw (e, reduce_position) refl)
    ]

-- A row that is not open keeps its place and its columns.
update_open-IsIn :
    (id : ℕ) (set : Position → Position) (rows : List Position) (row : Position)
    → IsIn row rows
    → row.status ≡ liquidated
    → IsIn row (update_open id set rows).0
unfolding update_open
update_open-IsIn id set [] row at h = absurd at
update_open-IsIn id set (x ∷ xs) row (inl e) h =
    elim (Bool-cases (x.id == id && is_open x.status)) [
      | inl same ↦ absurd (ground (arith, e, h))
      | inr other ↦ rw (other, update_open) (inl e)
    ]
update_open-IsIn id set (x ∷ xs) row (inr at) h =
    let ih = update_open-IsIn id set xs row at h in
    elim (Bool-cases (x.id == id && is_open x.status)) [
      | inl same ↦ rw (same, update_open) (inr ih)
      | inr other ↦ rw (other, update_open) (inr ih)
    ]

-- A position that has been liquidated is never overwritten by a reduction: every liquidated row is
-- still there, as it was.
pub reduce_position-IsIn :
    (p : Position) (reduce price rate am : ℤ) (rows : List Position) (row : Position)
    (r : ReduceResult × List Position)
    → IsIn row rows
    → row.status ≡ liquidated
    → reduce_position p reduce price rate am rows ≡ ok r
    → IsIn row r.1
reduce_position-IsIn p reduce price rate am rows row r at h done =
    elim (reduce-cases p reduce price rate am rows) [
      | inl same ↦ subst (IsIn row) (ok_second (sym same ∙ done)) at
      | inr (q_pos, same) ↦
          subst (IsIn row) (sym (guarded_ok p.id _ _ (sym same ∙ done)).1)
            (update_open-IsIn p.id _ rows row at h)
    ]
