-- ===== src/Withdrawals/Laws/Changes.antt =====
-- The abstract machine of withdrawals: what the operations of withdrawal.service.ts may do to the
-- tables, in three kinds of steps.
use novacex.Prelude.{
  ℕ, ◌≡◌, ◌≢◌, refl, true, false, none, some, List, [], ◌∷◌, Bool-cases, inl, inr, ◌==◌,
  if◌then◌else◌,
}
use novacex.Prelude.Int.{ℤ, pos, ◌+ℤ◌, ◌≤ℤ◌}
use novacex.Ledger.Wallets.{Key, key_eq}
use novacex.Withdrawals.{Withdrawal, Store}
use novacex.Withdrawals.Funds.{
  reservation_reference, release_reference, cancel_reference, resolve_reference, settle_reference,
  fee_reference, total_deduction, find_withdrawal, update_withdrawal, write,
}
use novacex.Withdrawals.Service.{insert}
use novacex.Withdrawals.Review.{is_pending}
use novacex.Withdrawals.Laws.Posts.{locked_at}
use novacex.Withdrawals.Laws.Closing.{Free, Paid}

-- The columns that money depends on.
abbrev pub SameTerms : Withdrawal → Withdrawal → Type 0
SameTerms v w =
    (w.id ≡ v.id)
    × (w.account ≡ v.account)
    × (w.asset ≡ v.asset)
    × (w.amount ≡ v.amount)
    × (w.fee ≡ v.fee)
    × (w.status ≡ v.status)

abbrev pub same_terms : (w : Withdrawal) → SameTerms w w
same_terms w = (refl, refl, refl, refl, refl, refl)

abbrev pub SameRows : List Withdrawal → List Withdrawal → Type 0
SameRows [] [] = Unit
SameRows (v ∷ vs) (w ∷ ws) = SameTerms v w × SameRows vs ws
SameRows _ _ = ⊥

-- No transaction that ends the withdrawal `id` of the account has been posted yet.
abbrev pub Unused : ℕ → ℕ → Store → Type 0
Unused account id x =
    Free account (release_reference id) x
    × Free account (cancel_reference id) x
    × Free account (resolve_reference id) x
    × Free account (settle_reference id) x
    × Free account (fee_reference id) x

-- `y` is `x` after the reservation of the total for a new withdrawal `w` under the client's reference.
pub record Locks (w : Withdrawal) (total : ℤ) (reference : ℕ) (x y : Store) : Type 0 where
  pub added :
      (k : Key)
      → locked_at k y ≡ locked_at k x +ℤ (if key_eq (w.account, w.asset) k then total else pos 0)
  pub rows : y.withdrawals ≡ x.withdrawals
  pub nets : y.networks ≡ x.networks
  pub leaves :
      (owner other : ℕ)
      → other ≢ reservation_reference reference
      → Free owner other x
      → Free owner other y

-- An end of a pending withdrawal: its reservation leaves the locked balance, and then its row, and
-- no other one, is no longer pending.
pub record Ended (x z : Store) : Type 0 where
  pub id : ℕ
  pub row : Withdrawal
  pub set : Withdrawal → Withdrawal
  pub between : Store
  pub found : find_withdrawal id x.withdrawals ≡ some row
  pub was_open : is_pending row.status ≡ true
  pub paid : Paid row x between
  pub is_over : (v : Withdrawal) → is_pending (set v).status ≡ false
  pub same_id : (v : Withdrawal) → (set v).id ≡ v.id
  pub result : z ≡ write id set between

-- A request: a reservation enters the locked balance, and a pending row is added whose amount and fee
-- exceed it by `d`.
pub record Requested (d : ℤ) (x z : Store) : Type 0 where
  pub row : Withdrawal
  pub total : ℤ
  pub exceeds : total_deduction row ≡ total +ℤ d
  pub reference : ℕ
  pub between : Store
  pub locks : Locks row total reference x between
  pub is_open : is_pending row.status ≡ true
  pub is_new : find_withdrawal row.id x.withdrawals ≡ none
  pub unused : Unused row.account row.id x
  pub fee : pos 0 ≤ℤ row.fee
  pub result : z ≡ insert row between

pub data Change (d : ℤ) (x z : Store) : Type 0 where
  -- no money moves: the ledger is as it was, and the rows are but for other columns
  quiet :
      z.db ≡ x.db → z.networks ≡ x.networks → SameRows x.withdrawals z.withdrawals → Change d x z
  ended : Ended x z → Change d x z
  requested : Requested d x z → Change d x z

pub same_rows : (ws : List Withdrawal) → SameRows ws ws
same_rows [] = tt
same_rows (w ∷ ws) = (same_terms w, same_rows ws)

pub SameRows-update :
    (id : ℕ) (f : Withdrawal → Withdrawal) (ws : List Withdrawal)
    → ((w : Withdrawal) → SameTerms w (f w))
    → SameRows ws (update_withdrawal id f ws)
unfolding update_withdrawal
SameRows-update id f [] same = tt
SameRows-update id f (w ∷ ws) same = elim (Bool-cases (w.id == id)) [
  | inl here ↦ rw here (same w, SameRows-update id f ws same)
  | inr other ↦ rw other (same_terms w, SameRows-update id f ws same)
]

pub Change-refl : {d : ℤ} (x : Store) → Change d x x
Change-refl x = quiet refl refl (same_rows x.withdrawals)

-- A write of other columns.
pub write-Change :
    {d : ℤ} (id : ℕ) (f : Withdrawal → Withdrawal) (x : Store)
    → ((w : Withdrawal) → SameTerms w (f w))
    → Change d x (write id f x)
unfolding write
write-Change id f x same = quiet refl refl (SameRows-update id f x.withdrawals same)
