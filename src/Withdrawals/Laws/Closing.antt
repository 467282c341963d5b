-- ===== src/Withdrawals/Laws/Closing.antt =====
-- The posts that end a withdrawal (withdrawal.service.ts): each takes from the locked balance what
-- the withdrawal reserves.
use mathlib.Core.Path.{subst}
use novacex.Prelude.{
  ℕ, ◌≡◌, ◌≢◌, ◌⊎◌, refl, sym, ap, ◌∙◌, inl, inr, Bool, true, false, Option, none, some, List, [],
  ◌∷◌, arith, if◌then◌else◌, Bool-cases, ◌==◌, ==→eq,
}
use novacex.Prelude.Int.{ℤ, pos, ◌+ℤ◌, ◌-ℤ◌, ◌≤ℤ◌, int_laws, ltb_ℤ}
use novacex.Prelude.Result.{Result, ok, >>=_passed}
use novacex.Decimal.{Text}
use novacex.Ledger.{adjustment, withdrawal_settle, withdrawal_fee}
use novacex.Ledger.Wallets.{Key, key_eq}
use novacex.Ledger.Post.{find_transaction}
use novacex.Withdrawals.{completed, crypto_completed, Withdrawal, Store, WithdrawalError}
use novacex.Withdrawals.Funds.{
  release_entries, settlement_entries, fee_entries, describe, total_deduction, release_funds,
  release_reference, cancel_reference, resolve_reference, post_settle, post_fee, settle_reference,
  fee_reference, find_withdrawal, write, closed_as, settle_completed_withdrawal,
}
use novacex.Withdrawals.Service.{require, or_throw}
use novacex.Withdrawals.Laws.Posts.{
  locked_at, post_of_moves, post_of_leaves, net-release, net-settle, net-fee,
}

pub require-true : (t : Bool) (e : WithdrawalError) {u : Unit {0}} → require t e ≡ ok u → t ≡ true
require-true true e h = refl
require-true false e h = absurd (ground arith)

pub or_throw-some :
    {A : Type 0} (e : WithdrawalError) (o : Option A) {a : A} → or_throw e o ≡ ok a → o ≡ some a
or_throw-some e none h = absurd (ground arith)
or_throw-some e (some b) h = cc

pub ok_store : {x y : Store} → ◌≡◌ {A = Result WithdrawalError Store} (ok x) (ok y) → x ≡ y
ok_store h = cc

pub find-id :
    (id : ℕ) (ws : List Withdrawal) {w : Withdrawal} → find_withdrawal id ws ≡ some w → w.id ≡ id
unfolding find_withdrawal
find-id id [] h = absurd (ground arith)
find-id id (v ∷ vs) {w} h = elim (Bool-cases (v.id == id)) [
  | inl here ↦ let same : v ≡ w = ground arith in rw (← same) (==→eq v.id id here)
  | inr other ↦ find-id id vs {w = w} (ground arith)
]

-- The references of the transactions that end the withdrawal `id`.
abbrev pub IsForeign : ℕ → ℕ → Type 0
IsForeign id other =
    (other ≢ release_reference id)
    × (other ≢ cancel_reference id)
    × (other ≢ resolve_reference id)
    × (other ≢ settle_reference id)
    × (other ≢ fee_reference id)

-- One of them.
abbrev pub IsClosing : ℕ → ℕ → Type 0
IsClosing id other =
    (other ≡ release_reference id)
    ⊎ (other ≡ cancel_reference id)
    ⊎ (other ≡ resolve_reference id)
    ⊎ (other ≡ settle_reference id)
    ⊎ (other ≡ fee_reference id)

-- A reference that no transaction of the account has.
abbrev pub Free : ℕ → ℕ → Store → Type 0
Free account reference x = find_transaction account reference x.db.transactions ≡ none

-- `y` is `x` after posts that took the reservation of `w` from the locked balances.
pub record Paid (w : Withdrawal) (x y : Store) : Type 0 where
  pub taken :
      (k : Key)
      → locked_at k y
        ≡ locked_at k x
          +ℤ (if key_eq (w.account, w.asset) k then pos 0 -ℤ total_deduction w else pos 0)
  pub rows : y.withdrawals ≡ x.withdrawals
  pub nets : y.networks ≡ x.networks
  pub leaves : (owner other : ℕ) → IsForeign w.id other → Free owner other x → Free owner other y

module _ (id reference text : ℕ) (w : Withdrawal) (x : Store) {r : ℕ × Store}
    (unused : Free w.account reference x) (done : release_funds id reference text w x ≡ ok r) where
  pub release_funds-Paid : ((other : ℕ) → IsForeign w.id other → other ≢ reference) → Paid w x r.1
  unfolding release_funds
  release_funds-Paid foreign =
      let es = release_entries w.account w.asset (total_deduction w) in
      let m =
        post_of_moves id w.account reference (describe text w.asset) adjustment es x unused done in
      record {
        taken = λ k.
            ap (λ b. b.1) (m k).0
            ∙ ap (λ n. locked_at k x +ℤ n) (net-release k w.account w.asset (total_deduction w));
        rows = (m (w.account, w.asset)).1;
        nets = (m (w.account, w.asset)).2;
        leaves = λ owner other f.
            post_of_leaves id w.account reference (describe text w.asset) adjustment es x unused
              done owner other (foreign other f);
      }

two_parts :
    (t : Bool) (a b l l' l'' : ℤ)
    → l' ≡ l +ℤ (if t then pos 0 -ℤ a else pos 0)
    → l'' ≡ l' +ℤ (if t then pos 0 -ℤ b else pos 0)
    → l'' ≡ l +ℤ (if t then pos 0 -ℤ (a +ℤ b) else pos 0)
two_parts true a b l l' l'' p q = q ∙ ap (λ z. z +ℤ (pos 0 -ℤ b)) p ∙ omega int_laws
two_parts false a b l l' l'' p q = q ∙ ap (λ z. z +ℤ pos 0) p ∙ omega int_laws

no_part : (t : Bool) (b l : ℤ) → b ≡ pos 0 → l ≡ l +ℤ (if t then pos 0 -ℤ b else pos 0)
no_part true b l h = rw h (omega int_laws)
no_part false b l h = omega int_laws

-- What one post takes from the locked balances, and what it leaves.
pub record Moves (w : Withdrawal) (amount : ℤ) (reference : ℕ) (x y : Store) : Type 0 where
  pub moved_by :
      (k : Key)
      → locked_at k y
        ≡ locked_at k x +ℤ (if key_eq (w.account, w.asset) k then pos 0 -ℤ amount else pos 0)
  pub same_rows : y.withdrawals ≡ x.withdrawals
  pub same_nets : y.networks ≡ x.networks
  pub others : (owner other : ℕ) → other ≢ reference → Free owner other x → Free owner other y

settle-Moves :
    (id : ℕ) (w : Withdrawal) (x : Store) {r : ℕ × Store}
    → Free w.account (settle_reference w.id) x
    → post_settle id w x ≡ ok r
    → Moves w w.amount (settle_reference w.id) x r.1
unfolding post_settle
settle-Moves id w x unused done =
    let es = settlement_entries w in
    let text = describe 4 w.asset in
    let m =
      post_of_moves id w.account (settle_reference w.id) text withdrawal_settle es x unused done in
    record {
      moved_by = λ k. ap (λ b. b.1) (m k).0 ∙ ap (λ n. locked_at k x +ℤ n) (net-settle k w);
      same_rows = (m (w.account, w.asset)).1;
      same_nets = (m (w.account, w.asset)).2;
      others =
          post_of_leaves id w.account (settle_reference w.id) text withdrawal_settle es x unused
            done;
    }

fee-Moves :
    (id : ℕ) (w : Withdrawal) (x : Store) {r : ℕ × Store}
    → pos 0 ≤ℤ w.fee
    → Free w.account (fee_reference w.id) x
    → post_fee id w x ≡ ok r
    → Moves w w.fee (fee_reference w.id) x r.1
unfolding post_fee
fee-Moves id w x {r} nonneg unused done = elim (Bool-cases (ltb_ℤ (pos 0) w.fee)) [
  | inl some_fee ↦
      let es = fee_entries w in
      let text = describe 5 w.asset in
      let paid = rw (some_fee, post_fee) at done in
      let m =
        post_of_moves id w.account (fee_reference w.id) text withdrawal_fee es x unused paid in
      record {
        moved_by = λ k. ap (λ b. b.1) (m k).0 ∙ ap (λ n. locked_at k x +ℤ n) (net-fee k w);
        same_rows = (m (w.account, w.asset)).1;
        same_nets = (m (w.account, w.asset)).2;
        others =
            post_of_leaves id w.account (fee_reference w.id) text withdrawal_fee es x unused paid;
      }
  | inr no_fee ↦
      let h : ◌≡◌ {A = Result WithdrawalError (ℕ × Store)} (ok (id, x)) (ok r) =
        rw (no_fee, post_fee) at done in
      let same : x ≡ r.1 = cc in
      subst (Moves w w.fee (fee_reference w.id) x) same (record {
        moved_by =
            λ k. no_part (key_eq (w.account, w.asset) k) w.fee (locked_at k x) (ground arith);
        same_rows = refl;
        same_nets = refl;
        others = λ owner other ne free. free;
      })
]

-- A settlement pays, and then writes the row.
pub settle-Paid :
    (fresh : ℕ → ℕ) (now : ℕ) (h : Text) (w : Withdrawal) (x : Store) {z : Store}
    → pos 0 ≤ℤ w.fee
    → Free w.account (settle_reference w.id) x
    → Free w.account (fee_reference w.id) x
    → settle_completed_withdrawal fresh now h w x ≡ ok z
    → (y : Store) × Paid w x y
      × (z
          ≡ write w.id
              (λ row. record (closed_as completed crypto_completed now row) { tx_hash = some h })
              y)
unfolding settle_completed_withdrawal
settle-Paid fresh now h w x {z} nonneg unused unused' done =
    let (r, settled, rest) = >>=_passed (post_settle (fresh 0) w x) _ done in
    let (s, paid, last) = >>=_passed (post_fee (fresh 1) w r.1) _ rest in
    let m = settle-Moves (fresh 0) w x unused settled in
    let n =
      fee-Moves (fresh 1) w r.1 nonneg
        (m.others w.account (fee_reference w.id) (omega arith) unused') paid in
    (
      s.1,
      record {
        taken = λ k.
            two_parts (key_eq (w.account, w.asset) k) w.amount w.fee (locked_at k x)
              (locked_at k r.1) (locked_at k s.1) (m.moved_by k) (n.moved_by k);
        rows = n.same_rows ∙ m.same_rows;
        nets = n.same_nets ∙ m.same_nets;
        leaves = λ owner other f free. n.others owner other f.4 (m.others owner other f.3 free);
      },
      sym (ok_store last),
    )
