-- ===== src/Ledger/Laws/Effect.antt =====
-- What steps 3, 5 and 6 of `postTransaction` do to one wallet.
use novacex.Prelude.{
  ℕ, ◌≡◌, refl, ap, ◌∙◌, ◌≢◌, inl, inr, true, Option, none, some, List, [], ◌∷◌, arith,
  if◌then◌else◌, Bool-cases, Option-cases,
}
use novacex.Prelude.Int.{ℤ, pos, ◌+ℤ◌, ◌-ℤ◌, +ℤ_assoc, +ℤ-zero, zero-+ℤ, +ℤ-negated}
use novacex.Ledger.{
  LedgerError, Result, Direction, credit, debit, Pool, available, locked, Wallet, Entry,
  LedgerEntry, ok, >>=_passed,
}
use novacex.Ledger.Wallets.{
  Key, key_eq, key_of, entry_key, find_wallet, put_wallet, update_row, apply_entry,
}
use novacex.Ledger.Post.{ledger_row, apply_entries, update_wallets}
use novacex.Ledger.Laws.Maps.{find-put, find-update, find-key, Unique, put-Unique}

-- The entries on one key, applied to its wallet in order.
unfoldable pub effect : Key → List Entry → Wallet → Wallet
effect k [] w = w
effect k (e ∷ es) w = effect k es (if key_eq (entry_key e) k then apply_entry e w else w)

abbrev pub mapped : Key → List Entry → Option Wallet → Option Wallet
mapped k es none = none
mapped k es (some w) = some (effect k es w)

apply_entry-key : (e : Entry) (w : Wallet) → key_of (apply_entry e w) ≡ key_of w
unfolding apply_entry
apply_entry-key e w = ground arith

-- An entry written to the map is found at its key, applied, and nowhere else.
find-put_apply :
    (k : Key) (e : Entry) (w : Wallet) (ws : List Wallet)
    → find_wallet (entry_key e) ws ≡ some w
    → find_wallet k (put_wallet (apply_entry e w) ws)
      ≡ (if key_eq (entry_key e) k then some (apply_entry e w) else find_wallet k ws)
find-put_apply k e w ws h =
    find-put k (apply_entry e w) ws
    ∙ ap (λ j. if key_eq j k then some (apply_entry e w) else find_wallet k ws)
        (apply_entry-key e w ∙ find-key (entry_key e) w ws h)

key_eq→eq : (k j : Key) → key_eq k j ≡ true → k ≡ j
key_eq→eq k j h = ground arith

mapped-step :
    (k : Key) (e : Entry) (es : List Entry) (w : Wallet) (ws : List Wallet)
    → find_wallet (entry_key e) ws ≡ some w
    → mapped k es (find_wallet k (put_wallet (apply_entry e w) ws))
      ≡ mapped k (e ∷ es) (find_wallet k ws)
unfolding effect
mapped-step k e es w ws h = elim (Bool-cases (key_eq (entry_key e) k)) [
  | inl same ↦ ground (
    arith,
    find-put_apply k e w ws h,
    key_eq→eq (entry_key e) k,
    ap (λ j. find_wallet j ws) (key_eq→eq (entry_key e) k same),
  )
  | inr other ↦ ground (arith, find-put_apply k e w ws h)
]

pub nothing_written :
    (id : ℕ) (ws : List Wallet) {r : List Wallet × List LedgerEntry}
    → apply_entries id [] ws ≡ ok r
    → r.1 ≡ []
unfolding apply_entries
nothing_written id ws h = cc

-- A successful step 5 on a first entry finds its wallet, and goes on from the wallet after it.
pub apply_entries-cons :
    (id : ℕ) (e : Entry) (es : List Entry) (ws : List Wallet) {r : List Wallet × List LedgerEntry}
    → apply_entries id (e ∷ es) ws ≡ ok r
    → (w : Wallet) × (rest : List Wallet × List LedgerEntry) × (find_wallet (entry_key e) ws
        ≡ some w)
      × (apply_entries id es (put_wallet (apply_entry e w) ws) ≡ ok rest)
      × (r ≡ (rest.0, ledger_row id e (apply_entry e w) ∷ rest.1))
unfolding apply_entries
apply_entries-cons id e es ws h = elim (Option-cases (find_wallet (entry_key e) ws)) [
  | inl missing ↦ ground arith
  | inr (w, found) ↦
      let (rest, done, last) =
        >>=_passed (apply_entries id es (put_wallet (apply_entry e w) ws)) _
          (rw (found, apply_entries) at h) in
      (w, rest, found, done, cc)
]

mapped_nil : (k : Key) (o : Option Wallet) → mapped k [] o ≡ o
unfolding effect
mapped_nil k none = refl
mapped_nil k (some w) = refl

pub find-apply_entries :
    (k : Key) (id : ℕ) (es : List Entry) (ws : List Wallet) {r : List Wallet × List LedgerEntry}
    → apply_entries id es ws ≡ ok r
    → find_wallet k r.0 ≡ mapped k es (find_wallet k ws)
unfolding apply_entries
find-apply_entries k id [] ws h = ground (arith, mapped_nil k (find_wallet k ws))
find-apply_entries k id (e ∷ es) ws h =
    let (w, rest, found, done, last) = apply_entries-cons id e es ws h in
    rw last (
      find-apply_entries k id es (put_wallet (apply_entry e w) ws) done
      ∙ mapped-step k e es w ws found)

ok-injective :
    {r s : List Wallet × List LedgerEntry}
    → ◌≡◌ {A = Result LedgerError (List Wallet × List LedgerEntry)} (ok r) (ok s)
    → r ≡ s
ok-injective h = cc

pub apply-Unique :
    (id : ℕ) (es : List Entry) (ws : List Wallet) {r : List Wallet × List LedgerEntry}
    → apply_entries id es ws ≡ ok r
    → Unique ws
    → Unique r.0
unfolding apply_entries
apply-Unique id [] ws h u = rw (← ok-injective h) u
apply-Unique id (e ∷ es) ws h u =
    let (w, rest, found, done, last) = apply_entries-cons id e es ws h in
    rw last (
      apply-Unique id es (put_wallet (apply_entry e w) ws) done (put-Unique (apply_entry e w) ws u))

-- Step 6: the table has what the map has, and is otherwise as it was.
abbrev pub or_else : Option Wallet → Option Wallet → Option Wallet
or_else none o = o
or_else (some w) o = some w

find-same :
    (w : Wallet) (k : Key) (ws : List Wallet)
    → key_eq (key_of w) k ≡ true
    → find_wallet k ws ≡ find_wallet (key_of w) ws
find-same w k ws h = rw (key_eq→eq (key_of w) k h)

pub find-update_wallets :
    (k : Key) (ws table : List Wallet)
    → Unique ws
    → ((w : Wallet) → find_wallet k ws ≡ some w → find_wallet k table ≢ none)
    → find_wallet k (update_wallets ws table) ≡ or_else (find_wallet k ws) (find_wallet k table)
unfolding update_wallets
find-update_wallets k [] table u h = refl
find-update_wallets k (w ∷ ws) table u h =
    find-update_wallets k ws (update_row w table) u.1
      (λ w' e n. ground (arith, find-update k w table, h w', find-same w k ws, u.0))
    ∙ ground (arith, find-update k w table, u.0, Option-cases (find_wallet k table), h w)

-- The amount that the entries add to one pool of one wallet.
abbrev pub signed : Direction → ℤ → ℤ
signed credit x = x
signed debit x = pos 0 -ℤ x

abbrev pub in_pool : Pool → Pool → ℤ → ℤ
in_pool available available x = x
in_pool locked locked x = x
in_pool _ _ x = pos 0

unfoldable pub net : Pool → Key → List Entry → ℤ
net p k [] = pos 0
net p k (e ∷ es) =
    (if key_eq (entry_key e) k then in_pool p e.pool (signed e.direction e.amount) else pos 0)
    +ℤ net p k es

abbrev pub amounts : Wallet → ℤ × ℤ
amounts w = (w.available, w.locked)

amounts-apply_entry :
    (e : Entry) (w : Wallet)
    → amounts (apply_entry e w) ≡ (
      w.available +ℤ in_pool available e.pool (signed e.direction e.amount),
      w.locked +ℤ in_pool locked e.pool (signed e.direction e.amount),
    )
unfolding apply_entry
amounts-apply_entry e w = ground (
  arith,
  +ℤ-zero w.available,
  +ℤ-zero w.locked,
  +ℤ-negated w.available e.amount,
  +ℤ-negated w.locked e.amount,
)

pub amounts-effect :
    (k : Key) (es : List Entry) (w : Wallet)
    → amounts (effect k es w) ≡ (w.available +ℤ net available k es, w.locked +ℤ net locked k es)
unfolding effect net
amounts-effect k [] w = ground (arith, +ℤ-zero w.available, +ℤ-zero w.locked)
amounts-effect k (e ∷ es) w = ground (
  arith,
  amounts-effect k es w,
  amounts-effect k es (apply_entry e w),
  amounts-apply_entry e w,
  +ℤ_assoc w.available (in_pool available e.pool (signed e.direction e.amount))
      (net available k es),
  +ℤ_assoc w.locked (in_pool locked e.pool (signed e.direction e.amount)) (net locked k es),
  zero-+ℤ (net available k es),
  zero-+ℤ (net locked k es),
)

find-same-none :
    (k j : Key) (ws : List Wallet)
    → find_wallet k ws ≡ none
    → key_eq j k ≡ true
    → find_wallet j ws ≡ none
find-same-none k j ws missing h = rw (key_eq→eq j k h) missing

-- A key with no wallet in the map has no entry, or step 5 would have failed.
pub net-missing :
    (p : Pool) (k : Key) (id : ℕ) (es : List Entry) (ws : List Wallet)
    {r : List Wallet × List LedgerEntry}
    → apply_entries id es ws ≡ ok r
    → find_wallet k ws ≡ none
    → net p k es ≡ pos 0
unfolding net
net-missing p k id [] ws h missing = refl
net-missing p k id (e ∷ es) ws h missing =
    let (w, rest, found, done, last) = apply_entries-cons id e es ws h in
    ground (
      arith,
      find-same-none k (entry_key e) ws missing,
      net-missing p k id es (put_wallet (apply_entry e w) ws) done,
      find-put_apply k e w ws found,
      zero-+ℤ (net p k es),
    )
