-- ===== src/Withdrawals/Laws/Sound.antt =====
-- Sound tables of withdrawals (withdrawal.service.ts and the two workers) stay sound, and a
-- withdrawal that is over stays as it is.
use mathlib.Core.Path.{subst}
use novacex.Prelude.{
  ℕ, ◌≡◌, ◌≢◌, refl, sym, ap, ◌∙◌, inl, inr, true, false, some, [], ◌∷◌, ◌++◌, arith, Bool-cases,
  Option-cases, ◌==◌, ==→eq,
}
use novacex.Prelude.Int.{ℤ, pos, ◌≤ℤ◌}
use novacex.Prelude.Result.{ok}
use novacex.Ledger.Post.{find_transaction}
use novacex.Withdrawals.{Withdrawal, Store}
use novacex.Withdrawals.Funds.{
  release_reference, cancel_reference, resolve_reference, settle_reference, fee_reference,
  reservation_reference, find_withdrawal, update_withdrawal, write,
}
use novacex.Withdrawals.Service.{insert}
use novacex.Withdrawals.Review.{is_pending}
use novacex.Withdrawals.Operations.{Operation, perform}
use novacex.Withdrawals.Laws.Rows.{IsKeyed}
use novacex.Withdrawals.Laws.Closing.{find-id, Free, IsForeign, IsClosing}
use novacex.Withdrawals.Laws.Changes.{
  SameTerms, same_terms, SameRows, Unused, Ended, Requested, Change, quiet, ended, requested,
}
use novacex.Withdrawals.Laws.Lookups.{
  find-SameRows, keep-SameRows, IsKeyed-SameRows, IsKeyed-update, IsKeyed-append, find-update,
  find-updated, find-append, find-appended,
}
use novacex.Withdrawals.Laws.Requests.{IsSound, IsNew}
use novacex.Withdrawals.Laws.Steps.{perform-Change}

-- What every transaction that ends a withdrawal needs is carried over from one store to another.
Unused-carried :
    (account id : ℕ) (x y : Store)
    → ((other : ℕ) → IsClosing id other → Free account other x → Free account other y)
    → Unused account id x
    → Unused account id y
Unused-carried account id x y carry u = (
  carry (release_reference id) (inl refl) u.0,
  carry (cancel_reference id) (inr (inl refl)) u.1,
  carry (resolve_reference id) (inr (inr (inl refl))) u.2,
  carry (settle_reference id) (inr (inr (inr (inl refl)))) u.3,
  carry (fee_reference id) (inr (inr (inr (inr refl)))) u.4,
)

closing-IsForeign : (id n other : ℕ) → n ≢ id → IsClosing n other → IsForeign id other
closing-IsForeign id n other ne (inl e) =
    rw e (omega arith, omega arith, omega arith, omega arith, omega arith)
closing-IsForeign id n other ne (inr (inl e)) =
    rw e (omega arith, omega arith, omega arith, omega arith, omega arith)
closing-IsForeign id n other ne (inr (inr (inl e))) =
    rw e (omega arith, omega arith, omega arith, omega arith, omega arith)
closing-IsForeign id n other ne (inr (inr (inr (inl e)))) =
    rw e (omega arith, omega arith, omega arith, omega arith, omega arith)
closing-IsForeign id n other ne (inr (inr (inr (inr e)))) =
    rw e (omega arith, omega arith, omega arith, omega arith, omega arith)

closing_reserves : (n r other : ℕ) → IsClosing n other → other ≢ reservation_reference r
closing_reserves n r other (inl e) = rw e (omega arith)
closing_reserves n r other (inr (inl e)) = rw e (omega arith)
closing_reserves n r other (inr (inr (inl e))) = rw e (omega arith)
closing_reserves n r other (inr (inr (inr (inl e)))) = rw e (omega arith)
closing_reserves n r other (inr (inr (inr (inr e)))) = rw e (omega arith)

module _ (x z : Store) (sound : IsSound x) where
  quiet-IsSound :
      z.db ≡ x.db → z.networks ≡ x.networks → SameRows x.withdrawals z.withdrawals → IsSound z
  quiet-IsSound same_db nets rows = record {
    keyed = IsKeyed-SameRows x.withdrawals z.withdrawals rows sound.keyed;
    open_rows = λ id w found is_open.
        let (v, before, terms) = find-SameRows id x.withdrawals z.withdrawals w rows found in
        let (unused, fee) = sound.open_rows id v before (rw (← terms.5) is_open) in
        (
          Unused-carried w.account w.id x z
              (λ other c free.
                ap (λ d. find_transaction w.account other d.transactions) same_db ∙ free)
              (rw (terms.0, terms.1) unused),
          rw terms.4 fee,
        );
    fees = rw nets sound.fees;
  }

  Ended-IsSound : (e : Ended x z) → IsSound (write e.id e.set e.between)
  unfolding write
  Ended-IsSound e = record {
    keyed =
        subst (λ ws. IsKeyed (update_withdrawal e.id e.set ws)) (sym e.paid.rows)
          (IsKeyed-update e.id e.set x.withdrawals e.same_id sound.keyed);
    open_rows = λ id w found is_open. still_open e id w (rw e.paid.rows at found) is_open;
    fees = rw e.paid.nets sound.fees;
  }
    where
      still_open :
          (e : Ended x z) (id : ℕ) (w : Withdrawal)
          → find_withdrawal id (update_withdrawal e.id e.set x.withdrawals) ≡ some w
          → is_pending w.status ≡ true
          → Unused w.account w.id e.between × (pos 0 ≤ℤ w.fee)
      still_open e id w found is_open = elim (Bool-cases (id == e.id)) [
        | inl here ↦
            let there = rw (==→eq id e.id here) at found in
            let (v, same) = find-updated e.id e.set x.withdrawals w e.same_id there in
            absurd (ground (arith, ap (λ r. is_pending r.status) same, e.is_over v))
        | inr other ↦
            let ne : id ≢ e.id = ground arith in
            let before = sym (find-update id e.id e.set x.withdrawals e.same_id ne) ∙ found in
            let (unused, fee) = sound.open_rows id w before is_open in
            let w_id = find-id id x.withdrawals before in
            let row_id = find-id e.id x.withdrawals e.found in
            (
              Unused-carried w.account w.id x e.between
                  (λ other c.
                    e.paid.leaves w.account other
                      (closing-IsForeign e.row.id w.id other (λ q. ne (sym w_id ∙ q ∙ row_id)) c))
                  unused,
              fee,
            )
      ]

  Requested-IsSound : {d : ℤ} (r : Requested d x z) → IsSound (insert r.row r.between)
  Requested-IsSound r = record {
    keyed =
        subst (λ ws. IsKeyed (ws ++ r.row ∷ [])) (sym r.locks.rows)
          (IsKeyed-append x.withdrawals r.row r.is_new sound.keyed);
    open_rows = λ id w found is_open. now_open r id w (rw r.locks.rows at found) is_open;
    fees = rw r.locks.nets sound.fees;
  }
    where
      carried :
          {d : ℤ} (r : Requested d x z) (account id : ℕ)
          → Unused account id x
          → Unused account id r.between
      carried r account id =
          Unused-carried account id x r.between
            (λ other c. r.locks.leaves account other (closing_reserves id r.reference other c))

      now_open :
          {d : ℤ} (r : Requested d x z) (id : ℕ) (w : Withdrawal)
          → find_withdrawal id (x.withdrawals ++ r.row ∷ []) ≡ some w
          → is_pending w.status ≡ true
          → Unused w.account w.id r.between × (pos 0 ≤ℤ w.fee)
      now_open r id w found is_open = elim (Option-cases (find_withdrawal id x.withdrawals)) [
        | inl absent ↦
            let same = find-appended id x.withdrawals r.row w absent found in
            rw same (carried r r.row.account r.row.id r.unused, r.fee)
        | inr (v, before) ↦
            let again = find-append id x.withdrawals r.row v before in
            let same : v ≡ w = cc in
            let (unused, fee) = sound.open_rows id w (before ∙ ap (λ u. some u) same) is_open in
            (carried r w.account w.id unused, fee)
      ]

  Change-IsSound : {d : ℤ} → Change d x z → IsSound z
  Change-IsSound (quiet same_db nets rows) = quiet-IsSound same_db nets rows
  Change-IsSound (ended e) = subst IsSound (sym e.result) (Ended-IsSound e)
  Change-IsSound (requested r) = subst IsSound (sym r.result) (Requested-IsSound r)

-- Every operation leaves sound tables sound: no identifier stands twice, no ending transaction of a
-- pending withdrawal has been posted, and no fee of a network is negative. (A request comes under a
-- new reference and draws fresh UUIDs.)
pub perform-IsSound :
    (o : Operation) (x z : Store) → IsSound x → IsNew o x → perform o x ≡ ok z → IsSound z
perform-IsSound o x z sound new_ref h =
    Change-IsSound x z sound (perform-Change o x z sound new_ref h)

-- A row that is over, after a step.
Change-final :
    {d : ℤ} (x z : Store) (id : ℕ) (w : Withdrawal)
    → find_withdrawal id x.withdrawals ≡ some w
    → is_pending w.status ≡ false
    → Change d x z
    → (v : Withdrawal) × (find_withdrawal id z.withdrawals ≡ some v) × SameTerms w v
unfolding write
Change-final x z id w found over (quiet same_db nets rows) =
    keep-SameRows id x.withdrawals z.withdrawals w rows found
Change-final x z id w found over (ended e) = elim (Bool-cases (id == e.id)) [
  | inl here ↦
      let row = ap (λ n. find_withdrawal n x.withdrawals) (==→eq id e.id here) ∙ e.found in
      let opened = e.was_open in
      let same : e.row ≡ w = cc in absurd (ground (arith, ap (λ r. is_pending r.status) same))
  | inr other ↦ (
    w,
    ap (λ y. find_withdrawal id y.withdrawals) e.result
        ∙ find-update id e.id e.set e.between.withdrawals e.same_id (ground arith)
        ∙ ap (find_withdrawal id) e.paid.rows
        ∙ found,
    same_terms w,
  )
]
Change-final x z id w found over (requested r) = (
  w,
  ap (λ y. find_withdrawal id y.withdrawals) r.result
      ∙ ap (λ ws. find_withdrawal id (ws ++ r.row ∷ [])) r.locks.rows
      ∙ find-append id x.withdrawals r.row w found,
  same_terms w,
)

-- A withdrawal that is completed, failed or rejected keeps its status, its account and its amounts
-- under every operation on sound tables. (A request comes under a new reference and draws fresh
-- UUIDs.)
pub perform_final :
    (o : Operation) (x z : Store) (id : ℕ) (w : Withdrawal)
    → IsSound x
    → IsNew o x
    → find_withdrawal id x.withdrawals ≡ some w
    → is_pending w.status ≡ false
    → perform o x ≡ ok z
    → (v : Withdrawal) × (find_withdrawal id z.withdrawals ≡ some v) × SameTerms w v
perform_final o x z id w sound new_ref found over h =
    Change-final x z id w found over (perform-Change o x z sound new_ref h)
