-- ===== src/Withdrawals/Laws/Ends.antt =====
-- The operations that end a withdrawal (withdrawal.service.ts), one by one, as steps of the abstract
-- machine.
use mathlib.Core.Path.{subst}
use novacex.Prelude.{
  ℕ, ◌≡◌, ◌≢◌, refl, sym, ap, ◌∙◌, inl, inr, Bool, true, false, not, ◌&&◌, none, some, arith,
  Bool-cases, Option-cases,
}
use novacex.Prelude.Int.{ℤ, pos, ◌≤ℤ◌}
use novacex.Prelude.Result.{Result, ok, >>=_passed}
use novacex.Decimal.{Text}
use novacex.Ledger.Post.{find_transaction}
use novacex.Withdrawals.{
  completed, crypto_completed, CryptoStatus, FailureReason, Withdrawal, Store, WithdrawalError,
  withdrawal_not_found, invalid_state, forbidden_self_action, resolution_evidence_insufficient,
}
use novacex.Withdrawals.Policy.{is_owned_by}
use novacex.Withdrawals.Funds.{
  release_reference, cancel_reference, resolve_reference, release_funds, find_withdrawal, write,
  closed_as, settle_completed_withdrawal,
}
use novacex.Withdrawals.Service.{require, or_throw}
use novacex.Withdrawals.Review.{
  is_pending, is_unknown, awaits_review, is_cancellable, reviewed_by_other, reject_withdrawal_admin,
  fail_withdrawal, complete_withdrawal, Directive, as_failed, as_completed, Evidence, CustodyAnswer,
  query_withdrawal_evidence, resolve_as, or_empty, resolve_withdrawal_admin, cancel_withdrawal,
}
use novacex.Withdrawals.Laws.Closing.{
  require-true, or_throw-some, ok_store, find-id, IsForeign, release_funds-Paid, settle-Paid,
}
use novacex.Withdrawals.Laws.Changes.{Unused, Change, ended, Change-refl}

-- Every pending withdrawal is still to be ended, and its fee is not negative.
abbrev pub IsOpen : Store → Type 0
IsOpen x =
    (id : ℕ) (w : Withdrawal)
    → find_withdrawal id x.withdrawals ≡ some w
    → is_pending w.status ≡ true
    → Unused w.account w.id x × (pos 0 ≤ℤ w.fee)

pub both_true : (a b : Bool) → (a && b) ≡ true → (a ≡ true) × (b ≡ true)
both_true true b h = (refl, h)
both_true false b h = absurd (ground arith)

-- What `reviewed_by_other` has found out.
pub reviewed_row :
    (id admin : ℕ) (awaits : CryptoStatus → Bool) (x : Store) {w : Withdrawal}
    → reviewed_by_other id admin awaits x ≡ ok w
    → (find_withdrawal id x.withdrawals ≡ some w) × (is_pending w.status ≡ true)
unfolding reviewed_by_other
reviewed_row id admin awaits x {w} h =
    let (v, found, rest) =
      >>=_passed (or_throw withdrawal_not_found (find_withdrawal id x.withdrawals)) _ h in
    let (_, other, rest') =
      >>=_passed (require (not (is_owned_by admin v.account x.accounts)) forbidden_self_action) _
        rest in
    let (_, state, last) =
      >>=_passed (require (is_pending v.status && awaits v.crypto_status) invalid_state) _ rest' in
    let row : ◌≡◌ {A = Result WithdrawalError Withdrawal} (ok v) (ok w) = last in
    let same : v ≡ w = cc in
    (
      or_throw-some withdrawal_not_found (find_withdrawal id x.withdrawals) found
          ∙ ap (λ z. some z) same,
      rw (← same)
          (both_true (is_pending v.status) (awaits v.crypto_status)
            (require-true _ invalid_state state)).0,
    )

-- The row of an identifier is found under its own.
found_by_id :
    (id : ℕ) (w : Withdrawal) (x : Store)
    → find_withdrawal id x.withdrawals ≡ some w
    → find_withdrawal w.id x.withdrawals ≡ some w
found_by_id id w x found =
    ap (λ i. find_withdrawal i x.withdrawals) (find-id id x.withdrawals found) ∙ found

module _ (x : Store) {z : Store} {d : ℤ} (open_rows : IsOpen x) where
  -- A release that succeeds, and a write of the row.
  released :
      (tx reference text id : ℕ) (w : Withdrawal) (f : Withdrawal → Withdrawal) {r : ℕ × Store}
      → find_withdrawal id x.withdrawals ≡ some w
      → is_pending w.status ≡ true
      → find_transaction w.account reference x.db.transactions ≡ none
      → ((other : ℕ) → IsForeign w.id other → other ≢ reference)
      → release_funds tx reference text w x ≡ ok r
      → ((v : Withdrawal) → is_pending (f v).status ≡ false)
      → ((v : Withdrawal) → (f v).id ≡ v.id)
      → ◌≡◌ {A = Result WithdrawalError Store} (ok (write id f r.1)) (ok z)
      → Change d x z
  released tx reference text id w f {r} found is_open unused foreign done over same last =
      ended (record {
        id = id;
        row = w;
        set = f;
        between = r.1;
        found = found;
        was_open = is_open;
        paid = release_funds-Paid tx reference text w x unused done foreign;
        is_over = over;
        same_id = same;
        result = sym (ok_store last);
      })

  pub reject-Change :
      (tx now id admin reason : ℕ)
      → reject_withdrawal_admin tx now id admin reason x ≡ ok z
      → Change d x z
  unfolding reject_withdrawal_admin
  reject-Change tx now id admin reason h =
      let (w, reviewed, rest) = >>=_passed (reviewed_by_other id admin awaits_review x) _ h in
      let (found, is_open) = reviewed_row id admin awaits_review x reviewed in
      let (r, done, last) = >>=_passed (release_funds tx (release_reference w.id) 1 w x) _ rest in
      released tx (release_reference w.id) 1 id w _ found is_open (open_rows id w found is_open).0.0
        (λ o f. f.0) done (λ v. refl) (λ v. refl) last

  pub cancel-Change : (tx now id : ℕ) → cancel_withdrawal tx now id x ≡ ok z → Change d x z
  unfolding cancel_withdrawal
  cancel-Change tx now id h =
      let (w, row, rest) =
        >>=_passed (or_throw withdrawal_not_found (find_withdrawal id x.withdrawals)) _ h in
      let (_, state, rest') =
        >>=_passed (require (is_pending w.status && is_cancellable w.crypto_status) invalid_state) _
          rest in
      let found = or_throw-some withdrawal_not_found (find_withdrawal id x.withdrawals) row in
      let is_open = (both_true (is_pending w.status) _ (require-true _ invalid_state state)).0 in
      let (r, done, last) = >>=_passed (release_funds tx (cancel_reference w.id) 3 w x) _ rest' in
      released tx (cancel_reference w.id) 3 id w _ found is_open (open_rows id w found is_open).0.1
        (λ o f. f.1) done (λ v. refl) (λ v. refl) last

  -- A row that is missing or over is left alone.
  left_alone : ◌≡◌ {A = Result WithdrawalError Store} (ok x) (ok z) → Change d x z
  left_alone h = subst (Change d x) (ok_store h) (Change-refl x)

  pub fail-Change :
      (tx now id : ℕ) (reason : FailureReason)
      → fail_withdrawal tx now id reason x ≡ ok z
      → Change d x z
  unfolding fail_withdrawal
  fail-Change tx now id reason h = elim (Option-cases (find_withdrawal id x.withdrawals)) [
    | inl missing ↦ left_alone (rw (missing, fail_withdrawal) at h)
    | inr (w, found) ↦ elim (Bool-cases (is_pending w.status)) [
      | inr over ↦ left_alone (rw (found, fail_withdrawal, over) at h)
      | inl is_open ↦
          let (r, done, last) =
            >>=_passed (release_funds tx (release_reference w.id) 2 w x) _
              (rw (found, fail_withdrawal, is_open) at h) in
          released tx (release_reference w.id) 2 id w _ found is_open
            (open_rows id w found is_open).0.0 (λ o f. f.0) done (λ v. refl) (λ v. refl) last
    ]
  ]

  settle-Change :
      (fresh : ℕ → ℕ) (now id : ℕ) (h : Text) (w : Withdrawal)
      → find_withdrawal id x.withdrawals ≡ some w
      → is_pending w.status ≡ true
      → settle_completed_withdrawal fresh now h w x ≡ ok z
      → Change d x z
  settle-Change fresh now id h w found is_open done =
      let (unused, fee) = open_rows id w found is_open in
      let (y, paid, same) = settle-Paid fresh now h w x fee unused.3 unused.4 done in
      ended (record {
        id = w.id;
        row = w;
        set = λ row. record (closed_as completed crypto_completed now row) { tx_hash = some h };
        between = y;
        found = found_by_id id w x found;
        was_open = is_open;
        paid = paid;
        is_over = λ v. refl;
        same_id = λ v. refl;
        result = same;
      })

  pub complete-Change :
      (fresh : ℕ → ℕ) (now id : ℕ) (hash : Text)
      → complete_withdrawal fresh now id hash x ≡ ok z
      → Change d x z
  unfolding complete_withdrawal
  complete-Change fresh now id hash h = elim (Option-cases (find_withdrawal id x.withdrawals)) [
    | inl missing ↦ left_alone (rw (missing, complete_withdrawal) at h)
    | inr (w, found) ↦ elim (Bool-cases (is_pending w.status)) [
      | inr over ↦ left_alone (rw (found, complete_withdrawal, over) at h)
      | inl is_open ↦
          settle-Change fresh now id hash w found is_open
            (rw (found, complete_withdrawal, is_open) at h)
    ]
  ]

  resolve_as-Change :
      (fresh : ℕ → ℕ) (now id : ℕ) (directive : Directive) (e : Evidence) (w : Withdrawal)
      → find_withdrawal id x.withdrawals ≡ some w
      → is_pending w.status ≡ true
      → resolve_as fresh now id directive e w x ≡ ok z
      → Change d x z
  unfolding resolve_as
  resolve_as-Change fresh now id as_completed e w found is_open h =
      let (_, enough, last) =
        >>=_passed (require e.is_confirmed resolution_evidence_insufficient) _ h in
      settle-Change fresh now id (or_empty e.evidence_hash) w found is_open last
  resolve_as-Change fresh now id as_failed e w found is_open h =
      let (_, enough, rest) =
        >>=_passed (require e.non_broadcast resolution_evidence_insufficient) _ h in
      let (r, done, last) =
        >>=_passed (release_funds (fresh 0) (resolve_reference w.id) 6 w x) _ rest in
      released (fresh 0) (resolve_reference w.id) 6 w.id w _ (found_by_id id w x found) is_open
        (open_rows id w found is_open).0.2 (λ o f. f.2) done (λ v. refl) (λ v. refl) last

  pub resolve-Change :
      (fresh : ℕ → ℕ) (ask : ℕ → CustodyAnswer) (now id admin : ℕ) (directive : Directive)
      → resolve_withdrawal_admin fresh ask now id admin directive x ≡ ok z
      → Change d x z
  unfolding resolve_withdrawal_admin
  resolve-Change fresh ask now id admin directive h =
      let (w, reviewed, last) = >>=_passed (reviewed_by_other id admin is_unknown x) _ h in
      let (found, is_open) = reviewed_row id admin is_unknown x reviewed in
      resolve_as-Change fresh now id directive (query_withdrawal_evidence (ask w.id)) w found
        is_open last
