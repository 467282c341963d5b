-- ===== src/Decimal/Validate.antt =====
-- `validateAmount` (ledger/decimal.ts): which strings pass.
use mathlib.Core.Bool.{false≢true}
use mathlib.Core.List.{reverse-reverse, reverse-append}
use mathlib.Core.Path.{subst}
use novacex.Prelude.{
  ◌≡◌, refl, sym, ap, ◌∙◌, ◌≢◌, ◌↔◌, inl, inr, true, false, none, some, [], ◌∷◌, ◌++◌, reverse,
  arith, Bool-cases, Option-cases,
}
use novacex.Prelude.Int.{ℤ, pos, ◌<ℤ◌}
use novacex.Decimal.{
  Text, is_space, trim_start, trim, is_decimal, match_unsigned, match_rest, to_big_int,
}
use novacex.Decimal.Ops.{codes, text_eq, is_not_finite, validate_amount}

-- White space goes from the front and the back, so a second `trim` finds none.
abbrev StartsSolid : Text → Type 0
StartsSolid [] = Unit
StartsSolid (c ∷ s) = is_space c ≡ false

trim_start-StartsSolid : (s : Text) → StartsSolid (trim_start s)
unfolding trim_start
trim_start-StartsSolid [] = tt
trim_start-StartsSolid (c ∷ s) = elim (Bool-cases (is_space c)) [
  | inl e ↦ rw e (trim_start-StartsSolid s)
  | inr e ↦ rw e e
]

trim_start_self : (s : Text) → StartsSolid s → trim_start s ≡ s
unfolding trim_start
trim_start_self [] h = refl
trim_start_self (c ∷ s) h = rw h

-- `trim_start` drops a front part.
trim_start-suffix : (s : Text) → (w : Text) × (s ≡ w ++ trim_start s)
unfolding trim_start
trim_start-suffix [] = ([], refl)
trim_start-suffix (c ∷ s) = elim (Bool-cases (is_space c)) [
  | inl e ↦ rw e (c ∷ (trim_start-suffix s).0, ap (λ r. c ∷ r) (trim_start-suffix s).1)
  | inr e ↦ rw e ([], refl)
]

StartsSolid-prefix : (s t : Text) → StartsSolid (s ++ t) → StartsSolid s
StartsSolid-prefix [] t h = tt
StartsSolid-prefix (c ∷ s) t h = h

trim-StartsSolid : (s : Text) → StartsSolid (trim s)
unfolding trim
trim-StartsSolid s =
    let u = trim_start s in
    let (w, e) = trim_start-suffix (reverse u) in
    StartsSolid-prefix (reverse (trim_start (reverse u))) (reverse w) (
      subst StartsSolid
        (sym (reverse-reverse u) ∙ ap reverse e ∙ reverse-append w (trim_start (reverse u)))
        (trim_start-StartsSolid s))

trim-trim : (s : Text) → trim (trim s) ≡ trim s
unfolding trim
trim-trim s =
    let v = trim_start (reverse (trim_start s)) in
    rw (
      trim_start_self (reverse v) (unfold trim in trim-StartsSolid s),
      reverse-reverse v,
      trim_start_self v (trim_start-StartsSolid (reverse (trim_start s))),
    )

text_eq→eq : (s t : Text) → text_eq s t ≡ true → s ≡ t
text_eq→eq [] [] h = refl
text_eq→eq [] (d ∷ t) h = cc
text_eq→eq (c ∷ s) [] h = cc
text_eq→eq (c ∷ s) (d ∷ t) h = ground (arith, text_eq→eq s t)

decimal-ne-literal : (s t : Text) → is_decimal t ≡ false → is_decimal s ≡ true → text_eq s t ≡ false
decimal-ne-literal s t ht hs = elim (Bool-cases (text_eq s t)) [
  | inl e ↦ absurd (false≢true (sym ht ∙ ap is_decimal (sym (text_eq→eq s t e)) ∙ hs))
  | inr e ↦ e
]

decimal_finite : (s : Text) → is_decimal s ≡ true → is_not_finite s ≡ false
unfolding is_decimal match_unsigned match_rest
decimal_finite s h = rw (
  decimal-ne-literal s [] refl h,
  decimal-ne-literal s (codes "NaN") refl h,
  decimal-ne-literal s (codes "Infinity") refl h,
  decimal-ne-literal s (codes "-Infinity") refl h,
)

none-ne-some : (v : ℤ) → none ≢ some v
none-ne-some v h = cc

to_big_int-trim : (s : Text) → to_big_int (trim s) ≡ to_big_int s
unfolding to_big_int
to_big_int-trim s = rw (trim-trim s)

to_big_int-IsDecimal : (s : Text) (v : ℤ) → to_big_int s ≡ some v → is_decimal (trim s) ≡ true
unfolding to_big_int
to_big_int-IsDecimal s v h = elim (Bool-cases (is_decimal (trim s))) [
  | inl e ↦ e
  | inr e ↦ absurd (none-ne-some v (rw e at h))
]

-- `validateAmount` lets a string pass exactly when it stands for a number above zero.
pub validate_amount_iff :
    (s : Text) → (validate_amount s ≡ true) ↔ ((v : ℤ) × (to_big_int s ≡ some v) × (pos 0 <ℤ v))
unfolding validate_amount
validate_amount_iff s = (
  λ h. elim (Option-cases (to_big_int s)) [
    | inl e ↦ ground (arith, to_big_int-trim s)
    | inr (v, e) ↦ (v, e, ground (arith, to_big_int-trim s))
  ],
  λ (v, e, positive).
      let d = to_big_int-IsDecimal s v e in
      rw (decimal_finite (trim s) d, d, to_big_int-trim s, e) (ground arith),
)
