-- ===== src/Withdrawals/Laws/Lookups.antt =====
-- The table of withdrawals: lookups and the primary key, under quiet changes, writes and new rows.
use novacex.Prelude.{
  ℕ, ◌≡◌, ◌≢◌, refl, sym, ◌∙◌, inl, inr, none, some, List, [], ◌∷◌, ◌++◌, arith, Bool-cases, ◌==◌,
  All,
}
use novacex.Withdrawals.{Withdrawal}
use novacex.Withdrawals.Funds.{find_withdrawal, update_withdrawal}
use novacex.Withdrawals.Laws.Rows.{IsKeyed}
use novacex.Withdrawals.Laws.Changes.{SameTerms, SameRows}

-- A row found after a quiet change, and the one it was.
pub find-SameRows :
    (id : ℕ) (vs ws : List Withdrawal) (w : Withdrawal)
    → SameRows vs ws
    → find_withdrawal id ws ≡ some w
    → (v : Withdrawal) × (find_withdrawal id vs ≡ some v) × SameTerms v w
unfolding find_withdrawal
find-SameRows id [] [] w same h = absurd (ground arith)
find-SameRows id [] (u ∷ us) w same h = absurd same
find-SameRows id (v ∷ vs) [] w same h = absurd same
find-SameRows id (v ∷ vs) (u ∷ us) w same h = elim (Bool-cases (u.id == id)) [
  | inl here ↦ let e : u ≡ w = ground arith in (v, ground (arith, same.0.0), rw (← e) same.0)
  | inr other ↦
      let (v', found, terms) = find-SameRows id vs us w same.1 (ground arith) in
      (v', ground (arith, same.0.0), terms)
]

-- The other way round.
pub keep-SameRows :
    (id : ℕ) (vs ws : List Withdrawal) (v : Withdrawal)
    → SameRows vs ws
    → find_withdrawal id vs ≡ some v
    → (w : Withdrawal) × (find_withdrawal id ws ≡ some w) × SameTerms v w
unfolding find_withdrawal
keep-SameRows id [] ws v same h = absurd (ground arith)
keep-SameRows id (u ∷ us) [] v same h = absurd same
keep-SameRows id (u ∷ us) (w ∷ ws) v same h = elim (Bool-cases (u.id == id)) [
  | inl here ↦ let e : u ≡ v = ground arith in (w, ground (arith, same.0.0), rw (← e) same.0)
  | inr other ↦
      let (w', found, terms) = keep-SameRows id us ws v same.1 (ground arith) in
      (w', ground (arith, same.0.0), terms)
]

ids-SameRows :
    (id : ℕ) (vs ws : List Withdrawal)
    → SameRows vs ws
    → All (λ v. v.id ≢ id) vs
    → All (λ w. w.id ≢ id) ws
ids-SameRows id [] [] same h = tt
ids-SameRows id [] (w ∷ ws) same h = absurd same
ids-SameRows id (v ∷ vs) [] same h = absurd same
ids-SameRows id (v ∷ vs) (w ∷ ws) same h =
    (λ e. h.0 (sym same.0.0 ∙ e), ids-SameRows id vs ws same.1 h.1)

pub IsKeyed-SameRows : (vs ws : List Withdrawal) → SameRows vs ws → IsKeyed vs → IsKeyed ws
IsKeyed-SameRows [] [] same h = tt
IsKeyed-SameRows [] (w ∷ ws) same h = absurd same
IsKeyed-SameRows (v ∷ vs) [] same h = absurd same
IsKeyed-SameRows (v ∷ vs) (w ∷ ws) same h =
    (rw same.0.0 (ids-SameRows v.id vs ws same.1 h.0), IsKeyed-SameRows vs ws same.1 h.1)

ids-update :
    (n id : ℕ) (f : Withdrawal → Withdrawal) (ws : List Withdrawal)
    → ((w : Withdrawal) → (f w).id ≡ w.id)
    → All (λ w. w.id ≢ n) ws
    → All (λ w. w.id ≢ n) (update_withdrawal id f ws)
unfolding update_withdrawal
ids-update n id f [] same h = tt
ids-update n id f (w ∷ ws) same h = elim (Bool-cases (w.id == id)) [
  | inl here ↦ rw here (λ e. h.0 (sym (same w) ∙ e), ids-update n id f ws same h.1)
  | inr other ↦ rw other (h.0, ids-update n id f ws same h.1)
]

pub IsKeyed-update :
    (id : ℕ) (f : Withdrawal → Withdrawal) (ws : List Withdrawal)
    → ((w : Withdrawal) → (f w).id ≡ w.id)
    → IsKeyed ws
    → IsKeyed (update_withdrawal id f ws)
unfolding update_withdrawal
IsKeyed-update id f [] same h = tt
IsKeyed-update id f (w ∷ ws) same h = elim (Bool-cases (w.id == id)) [
  | inl here ↦ rw (here, same w) (ids-update w.id id f ws same h.0, IsKeyed-update id f ws same h.1)
  | inr other ↦ rw other (ids-update w.id id f ws same h.0, IsKeyed-update id f ws same h.1)
]

ids-append :
    (n : ℕ) (ws : List Withdrawal) (w : Withdrawal)
    → All (λ v. v.id ≢ n) ws
    → w.id ≢ n
    → All (λ v. v.id ≢ n) (ws ++ w ∷ [])
ids-append n [] w h ne = (ne, tt)
ids-append n (v ∷ vs) w h ne = (h.0, ids-append n vs w h.1 ne)

absent_first :
    (v : Withdrawal) (vs : List Withdrawal) (id : ℕ)
    → find_withdrawal id (v ∷ vs) ≡ none
    → (v.id ≢ id) × (find_withdrawal id vs ≡ none)
unfolding find_withdrawal
absent_first v vs id h = (λ e. ground (arith, e), ground arith)

pub IsKeyed-append :
    (ws : List Withdrawal) (w : Withdrawal)
    → find_withdrawal w.id ws ≡ none
    → IsKeyed ws
    → IsKeyed (ws ++ w ∷ [])
IsKeyed-append [] w absent h = (tt, tt)
IsKeyed-append (v ∷ vs) w absent h =
    let (ne, rest) = absent_first v vs w.id absent in
    (ids-append v.id vs w h.0 (λ e. ne (sym e)), IsKeyed-append vs w rest h.1)

-- What a lookup finds after a write of one row, and after a new one.
pub find-update :
    (n id : ℕ) (f : Withdrawal → Withdrawal) (ws : List Withdrawal)
    → ((w : Withdrawal) → (f w).id ≡ w.id)
    → n ≢ id
    → find_withdrawal n (update_withdrawal id f ws) ≡ find_withdrawal n ws
unfolding find_withdrawal update_withdrawal
find-update n id f [] same ne = refl
find-update n id f (w ∷ ws) same ne = ground (arith, same w, find-update n id f ws same ne)

pub find-updated :
    (id : ℕ) (f : Withdrawal → Withdrawal) (ws : List Withdrawal) (w : Withdrawal)
    → ((v : Withdrawal) → (f v).id ≡ v.id)
    → find_withdrawal id (update_withdrawal id f ws) ≡ some w
    → (v : Withdrawal) × (w ≡ f v)
unfolding find_withdrawal update_withdrawal
find-updated id f [] w same h = absurd (ground arith)
find-updated id f (v ∷ vs) w same h = elim (Bool-cases (v.id == id)) [
  | inl here ↦ (v, ground (arith, same v))
  | inr other ↦ find-updated id f vs w same (ground arith)
]

pub find-append :
    (id : ℕ) (ws : List Withdrawal) (w v : Withdrawal)
    → find_withdrawal id ws ≡ some v
    → find_withdrawal id (ws ++ w ∷ []) ≡ some v
unfolding find_withdrawal
find-append id [] w v h = absurd (ground arith)
find-append id (u ∷ us) w v h = ground (arith, find-append id us w v)

pub find-appended :
    (id : ℕ) (ws : List Withdrawal) (w v : Withdrawal)
    → find_withdrawal id ws ≡ none
    → find_withdrawal id (ws ++ w ∷ []) ≡ some v
    → v ≡ w
unfolding find_withdrawal
find-appended id [] w v absent h = ground arith
find-appended id (u ∷ us) w v absent h =
    find-appended id us w v (absent_first u us id absent).1 (ground (arith, absent_first u us id))
