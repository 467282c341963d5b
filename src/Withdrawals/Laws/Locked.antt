-- ===== src/Withdrawals/Laws/Locked.antt =====
-- The funds that withdrawals lock (withdrawal.service.ts and the two workers): in every wallet, what
-- is locked beyond the reservations of the pending withdrawals.
use novacex.Prelude.{
  ◌≡◌, refl, ap, ◌∙◌, Bool, true, false, List, [], ◌∷◌, ◌++◌, arith, if◌then◌else◌,
}
use novacex.Prelude.Int.{ℤ, pos, pos_part, neg_part, ◌+ℤ◌, ◌-ℤ◌, int_laws}
use novacex.Prelude.Result.{ok}
use novacex.Ledger.Wallets.{Key, key_eq, find_wallet}
use novacex.Ledger.Laws.Maps.{balance_of}
use novacex.Withdrawals.{Withdrawal, Store}
use novacex.Withdrawals.Funds.{total_deduction, update_withdrawal, write}
use novacex.Withdrawals.Review.{is_pending}
use novacex.Withdrawals.Operations.{Operation, perform}
use novacex.Withdrawals.Laws.Rows.{
  reservation, reserved_by, IsKeyed, reserved_by-update, reserved_by-append,
}
use novacex.Withdrawals.Laws.Posts.{locked_at}
use novacex.Withdrawals.Laws.Changes.{
  SameTerms, SameRows, Ended, Requested, Change, quiet, ended, requested,
}
use novacex.Withdrawals.Laws.Requests.{IsSound, IsNew}
use novacex.Withdrawals.Laws.Steps.{excess, perform-Change}

-- What is locked in the wallet `k` beyond what its pending withdrawals reserve.
abbrev pub unreserved : Key → Store → ℤ
unreserved k x = locked_at k x -ℤ reserved_by k x.withdrawals

moved_over : (a b c d : ℤ) → a +ℤ b ≡ c +ℤ d → a ≡ c +ℤ d -ℤ b
moved_over a b c d h = omega (int_laws, ap pos_part h, ap neg_part h)

close_sum :
    (t : Bool) (total l l' r r' v v' : ℤ)
    → l' ≡ l +ℤ (if t then pos 0 -ℤ total else pos 0)
    → r' +ℤ v ≡ r +ℤ v'
    → v ≡ (if t then total else pos 0)
    → v' ≡ pos 0
    → l' -ℤ r' ≡ l -ℤ r
close_sum true total l l' r r' v v' a b c d = rw (a, moved_over r' v r v' b, c, d) (omega int_laws)
close_sum false total l l' r r' v v' a b c d = rw (a, moved_over r' v r v' b, c, d) (omega int_laws)

open_sum :
    (t : Bool) (total l l' r r' : ℤ)
    → l' ≡ l +ℤ (if t then total else pos 0)
    → r' ≡ r +ℤ (if t then total else pos 0)
    → l' -ℤ r' ≡ l -ℤ r
open_sum true total l l' r r' a b = rw (a, b) (omega int_laws)
open_sum false total l l' r r' a b = rw (a, b) (omega int_laws)

pub pending_reservation :
    (k : Key) (w : Withdrawal)
    → is_pending w.status ≡ true
    → reservation k w ≡ (if key_eq (w.account, w.asset) k then total_deduction w else pos 0)
pending_reservation k w open_row = ground (arith, open_row)

over_reservation :
    (k : Key) (w : Withdrawal) → is_pending w.status ≡ false → reservation k w ≡ pos 0
over_reservation k w over = ground (arith, over)

reservation-same : (k : Key) (v w : Withdrawal) → SameTerms v w → reservation k w ≡ reservation k v
reservation-same k v w (a, b, c, d, e, f) = rw (b, c, d, e, f) refl

reserved_by-SameRows :
    (k : Key) (vs ws : List Withdrawal) → SameRows vs ws → reserved_by k ws ≡ reserved_by k vs
unfolding reserved_by
reserved_by-SameRows k [] [] same = refl
reserved_by-SameRows k [] (w ∷ ws) same = absurd same
reserved_by-SameRows k (v ∷ vs) [] same = absurd same
reserved_by-SameRows k (v ∷ vs) (w ∷ ws) same =
    rw (reservation-same k v w same.0, reserved_by-SameRows k vs ws same.1) refl

Ended-unreserved :
    (k : Key) (x z : Store) (e : Ended x z)
    → IsKeyed x.withdrawals
    → unreserved k z ≡ unreserved k x
unfolding write
Ended-unreserved k x z e keyed =
    let w = e.row in
    let y = e.between in
    ap (unreserved k) e.result
    ∙ close_sum (key_eq (w.account, w.asset) k) (total_deduction w) (locked_at k x) (locked_at k y)
        (reserved_by k x.withdrawals) (reserved_by k (update_withdrawal e.id e.set y.withdrawals))
        (reservation k w) (reservation k (e.set w)) (e.paid.taken k)
        (ap (λ ws. reserved_by k (update_withdrawal e.id e.set ws) +ℤ reservation k w) e.paid.rows
          ∙ reserved_by-update k e.id e.set x.withdrawals w keyed e.found)
        (pending_reservation k w e.was_open) (over_reservation k (e.set w) (e.is_over w))

same_total : {w d : ℤ} (total : ℤ) → w ≡ total +ℤ d → d ≡ pos 0 → total ≡ w
same_total total h e = omega (int_laws, ap pos_part h, ap neg_part h, ap pos_part e, ap neg_part e)

-- Where the row has the amount that is reserved.
Requested-unreserved :
    (k : Key) (x z : Store) {d : ℤ} (r : Requested d x z)
    → d ≡ pos 0
    → unreserved k z ≡ unreserved k x
Requested-unreserved k x z r none_more =
    let w = r.row in
    let y = r.between in
    ap (unreserved k) r.result
    ∙ open_sum (key_eq (w.account, w.asset) k) (total_deduction w) (locked_at k x) (locked_at k y)
        (reserved_by k x.withdrawals) (reserved_by k (y.withdrawals ++ w ∷ []))
        (r.locks.added k
          ∙ ap (λ n. locked_at k x +ℤ (if key_eq (w.account, w.asset) k then n else pos 0))
              (same_total r.total r.exceeds none_more))
        (reserved_by-append k y.withdrawals w
          ∙ ap (λ ws. reserved_by k ws +ℤ reservation k w) r.locks.rows
          ∙ ap (λ n. reserved_by k x.withdrawals +ℤ n) (pending_reservation k w r.is_open))

Change-unreserved :
    (k : Key) (x z : Store) {d : ℤ}
    → IsKeyed x.withdrawals
    → Change d x z
    → d ≡ pos 0
    → unreserved k z ≡ unreserved k x
Change-unreserved k x z keyed (quiet same_db nets rows) none_more =
    ap (λ d. (balance_of (find_wallet k d.wallets)).1 -ℤ reserved_by k z.withdrawals) same_db
    ∙ ap (λ n. locked_at k x -ℤ n) (reserved_by-SameRows k x.withdrawals z.withdrawals rows)
Change-unreserved k x z keyed (ended e) none_more = Ended-unreserved k x z e keyed
Change-unreserved k x z keyed (requested r) none_more = Requested-unreserved k x z r none_more

-- On sound tables no operation changes what is locked in a wallet beyond the amounts and fees of its
-- pending withdrawals: a request locks exactly what it reserves, and a rejection, a cancellation, a
-- failure, a resolution or a settlement takes exactly that out of the locked balance again. (A request
-- comes under a new reference, draws fresh UUIDs, and has an amount that the database does not round
-- up: one of at most eighteen decimals, or with a nineteenth that is below five.)
pub perform-unreserved :
    (o : Operation) (x z : Store) (k : Key)
    → IsSound x
    → IsNew o x
    → excess o ≡ pos 0
    → perform o x ≡ ok z
    → unreserved k z ≡ unreserved k x
perform-unreserved o x z k sound new_ref none_more h =
    Change-unreserved k x z sound.keyed (perform-Change o x z sound new_ref h) none_more
