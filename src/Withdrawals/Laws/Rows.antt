-- ===== src/Withdrawals/Laws/Rows.antt =====
-- The table of withdrawals: what its pending rows reserve of a wallet, under writes by identifier.
use novacex.Prelude.{
  ℕ, ◌≡◌, ◌≢◌, refl, sym, ap, ◌∙◌, inl, inr, ◌&&◌, some, List, [], ◌∷◌, ◌++◌, ◌==◌, ==→eq, ==_ne,
  Bool-cases, arith, if◌then◌else◌, All,
}
use novacex.Prelude.Int.{ℤ, pos, ◌+ℤ◌, int_laws, +ℤ_assoc, +ℤ_comm}
use novacex.Ledger.Wallets.{Key, key_eq}
use novacex.Withdrawals.{Withdrawal}
use novacex.Withdrawals.Funds.{total_deduction, find_withdrawal, update_withdrawal}
use novacex.Withdrawals.Review.{is_pending}

-- What one row reserves of the wallet `k`: amount and fee, while it is pending.
abbrev pub reservation : Key → Withdrawal → ℤ
reservation k w =
    if key_eq (w.account, w.asset) k && is_pending w.status then total_deduction w else pos 0

unfoldable pub reserved_by : Key → List Withdrawal → ℤ
reserved_by k [] = pos 0
reserved_by k (w ∷ ws) = reservation k w +ℤ reserved_by k ws

-- The primary key: no identifier stands twice.
abbrev pub IsKeyed : List Withdrawal → Type 0
IsKeyed [] = Unit
IsKeyed (w ∷ ws) = All (λ v. v.id ≢ w.id) ws × IsKeyed ws

update_absent :
    (id : ℕ) (f : Withdrawal → Withdrawal) (ws : List Withdrawal)
    → All (λ v. v.id ≢ id) ws
    → update_withdrawal id f ws ≡ ws
unfolding update_withdrawal
update_absent id f [] h = refl
update_absent id f (w ∷ ws) h = rw (==_ne w.id id h.0, update_absent id f ws h.1) refl

swap_first : (a b c : ℤ) → a +ℤ c +ℤ b ≡ b +ℤ c +ℤ a
swap_first a b c = omega int_laws

swap_under : (a b c d e : ℤ) → a +ℤ b ≡ c +ℤ d → e +ℤ a +ℤ b ≡ e +ℤ c +ℤ d
swap_under a b c d e h = +ℤ_assoc e a b ∙ ap (λ x. e +ℤ x) h ∙ sym (+ℤ_assoc e c d)

-- A write of one row exchanges its reservation.
pub reserved_by-update :
    (k : Key) (id : ℕ) (f : Withdrawal → Withdrawal) (ws : List Withdrawal) (w : Withdrawal)
    → IsKeyed ws
    → find_withdrawal id ws ≡ some w
    → reserved_by k (update_withdrawal id f ws) +ℤ reservation k w
      ≡ reserved_by k ws +ℤ reservation k (f w)
unfolding reserved_by update_withdrawal find_withdrawal
reserved_by-update k id f [] w keyed found = absurd (ground arith)
reserved_by-update k id f (v ∷ ws) w keyed found = elim (Bool-cases (v.id == id)) [
  | inl here ↦
      let same : v ≡ w = ground arith in
      let at : v.id ≡ id = ==→eq v.id id here in
      rw (here, ← same, update_absent id f ws (rw at at keyed.0))
        (swap_first (reservation k (f v)) (reservation k v) (reserved_by k ws))
  | inr other ↦ rw other (
      swap_under (reserved_by k (update_withdrawal id f ws)) (reservation k w) (reserved_by k ws)
        (reservation k (f w)) (reservation k v)
        (reserved_by-update k id f ws w keyed.1 (ground arith)))
]

pub reserved_by-append :
    (k : Key) (ws : List Withdrawal) (w : Withdrawal)
    → reserved_by k (ws ++ w ∷ []) ≡ reserved_by k ws +ℤ reservation k w
unfolding reserved_by
reserved_by-append k [] w = +ℤ_comm (reservation k w) (pos 0)
reserved_by-append k (v ∷ ws) w =
    ap (λ x. reservation k v +ℤ x) (reserved_by-append k ws w)
    ∙ sym (+ℤ_assoc (reservation k v) (reserved_by k ws) (reservation k w))
