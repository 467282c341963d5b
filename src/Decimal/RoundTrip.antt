-- ===== src/Decimal/RoundTrip.antt =====
-- `toBigInt` on what `fromBigInt` writes (ledger/decimal.ts).
use mathlib.Core.List.{append-nil, reverse-reverse, reverse-append}
use mathlib.Core.Path.{subst}
use novacex.Prelude.{
  ℕ, suc, ◌+◌, ◌*◌, ◌/◌, ◌%◌, ◌≡◌, refl, ap, ◌≢◌, true, false, some, [], ◌∷◌, ◌++◌, reverse, arith,
  length, take, take-length, All, All-append,
}
use novacex.Prelude.Int.{ℤ, pos, negsuc, neg}
use novacex.Decimal.{
  Text, precision, scale, is_space, trim_start, trim, is_digit, all_digits, some_digits, match_rest,
  match_unsigned, is_decimal, split_dot, read_digits, or_zero, pad_end, pad_start, print_ℕ,
  scaled_magnitude, to_big_int, print_magnitude, from_big_int, starts_with_minus, strip_minus,
}
use novacex.Decimal.Digits.{
  print_ℕ_digits, read-print_ℕ, print_ℕ-ne-nil, length-print_ℕ, pad_start_digits, read-pad_start,
  length-pad_start,
}

-- No white space in the text.
abbrev IsSolid : Text → Type 0
IsSolid = All (λ c. is_space c ≡ false)

digit-IsSolid : (c : ℕ) → is_digit c ≡ true → is_space c ≡ false
unfolding is_space
digit-IsSolid c h = ground arith

digits-IsSolid : (s : Text) → all_digits s ≡ true → IsSolid s
unfolding all_digits
digits-IsSolid [] h = tt
digits-IsSolid (c ∷ s) h = ground (arith, digit-IsSolid c, digits-IsSolid s)

trim_start-IsSolid : (s : Text) → IsSolid s → trim_start s ≡ s
unfolding trim_start
trim_start-IsSolid [] h = refl
trim_start-IsSolid (c ∷ s) h = rw h.0

reverse-IsSolid : (s : Text) → IsSolid s → IsSolid (reverse s)
reverse-IsSolid [] h = tt
reverse-IsSolid (c ∷ s) h =
    rw (reverse-append (c ∷ []) s)
      (All-append (λ c. is_space c ≡ false) (reverse s) (c ∷ []) (reverse-IsSolid s h.1) (h.0, tt))

trim-IsSolid : (s : Text) → IsSolid s → trim s ≡ s
unfolding trim
trim-IsSolid s h =
    rw (trim_start-IsSolid s h, trim_start-IsSolid (reverse s) (reverse-IsSolid s h))
      (reverse-reverse s)

match_rest-dot :
    (s t : Text) → all_digits s ≡ true → some_digits t ≡ true → match_rest (s ++ b'.' ∷ t) ≡ true
unfolding match_rest all_digits some_digits
match_rest-dot [] t hs ht = ht
match_rest-dot (c ∷ s) t hs ht = ground (arith, match_rest-dot s t)

split_dot_digits : (s : Text) → all_digits s ≡ true → split_dot s ≡ (s, [])
unfolding split_dot all_digits
split_dot_digits [] h = refl
split_dot_digits (c ∷ s) h = ground (arith, split_dot_digits s)

split_dot-dot :
    (s t : Text)
    → all_digits s ≡ true
    → all_digits t ≡ true
    → split_dot (s ++ b'.' ∷ t) ≡ (s, t ∷ [])
unfolding split_dot all_digits
split_dot-dot [] t hs ht = ground (arith, split_dot_digits t)
split_dot-dot (c ∷ s) t hs ht = ground (arith, split_dot-dot s t)

or_zero-ne : (s : Text) → s ≢ [] → or_zero s ≡ s
or_zero-ne [] h = absurd (h refl)
or_zero-ne (c ∷ s) h = refl

pad_end-full : (t : Text) → length t ≡ precision → pad_end precision t ≡ t
unfolding pad_end
pad_end-full t h = rw h (append-nil t)

-- The two parts that `fromBigInt` writes read back as the magnitude.
scaled_magnitude-parts :
    (s t : Text)
    → all_digits s ≡ true
    → all_digits t ≡ true
    → s ≢ []
    → length t ≡ precision
    → scaled_magnitude (s ++ b'.' ∷ t) ≡ read_digits 0 s * scale + read_digits 0 t
unfolding scaled_magnitude
scaled_magnitude-parts s t hs ht ne len =
    rw (split_dot-dot s t hs ht, or_zero-ne s ne, pad_end-full t len)
      (ap (λ r. read_digits 0 s * scale + read_digits 0 r)
        (subst (λ n. take n t ≡ t) len (take-length t)))

-- The facts about the two parts of a printed magnitude.
fraction_digits : (n : ℕ) → all_digits (pad_start precision (print_ℕ (n % scale))) ≡ true
fraction_digits n = pad_start_digits precision (print_ℕ (n % scale)) (print_ℕ_digits (n % scale))

length-fraction : (n : ℕ) → length (pad_start precision (print_ℕ (n % scale))) ≡ precision
length-fraction n =
    length-pad_start precision (print_ℕ (n % scale)) (length-print_ℕ (n % scale) 17 (omega arith))

scaled_magnitude-print : (n : ℕ) → scaled_magnitude (print_magnitude n) ≡ n
unfolding print_magnitude
scaled_magnitude-print n =
    rw
      (scaled_magnitude-parts (print_ℕ (n / scale)) (pad_start precision (print_ℕ (n % scale)))
        (print_ℕ_digits (n / scale)) (fraction_digits n) (print_ℕ-ne-nil (n / scale))
        (length-fraction n))
      (rw
        (
          read-print_ℕ (n / scale),
          read-pad_start precision (print_ℕ (n % scale)),
          read-print_ℕ (n % scale),
        )
        (omega arith))

some_digits-ne : (t : Text) → all_digits t ≡ true → length t ≡ precision → some_digits t ≡ true
unfolding some_digits all_digits
some_digits-ne [] h len = absurd (omega arith)
some_digits-ne (c ∷ t) h len = h

match_unsigned-parts :
    (s t : Text)
    → all_digits s ≡ true
    → some_digits t ≡ true
    → s ≢ []
    → match_unsigned (s ++ b'.' ∷ t) ≡ true
unfolding match_unsigned all_digits
match_unsigned-parts [] t hs ht ne = absurd (ne refl)
match_unsigned-parts (c ∷ s) t hs ht ne = ground (arith, match_rest-dot s t)

starts-parts :
    (s t : Text)
    → all_digits s ≡ true
    → s ≢ []
    → (starts_with_minus (s ++ t) ≡ false) × (strip_minus (s ++ t) ≡ s ++ t)
unfolding all_digits
starts-parts [] t hs ne = absurd (ne refl)
starts-parts (c ∷ s) t hs ne = ground arith

match-print : (n : ℕ) → match_unsigned (print_magnitude n) ≡ true
unfolding print_magnitude
match-print n =
    match_unsigned-parts (print_ℕ (n / scale)) (pad_start precision (print_ℕ (n % scale)))
      (print_ℕ_digits (n / scale)) (some_digits-ne _ (fraction_digits n) (length-fraction n))
      (print_ℕ-ne-nil (n / scale))

starts-print :
    (n : ℕ)
    → (starts_with_minus (print_magnitude n) ≡ false)
      × (strip_minus (print_magnitude n) ≡ print_magnitude n)
unfolding print_magnitude
starts-print n =
    starts-parts (print_ℕ (n / scale)) (b'.' ∷ pad_start precision (print_ℕ (n % scale)))
      (print_ℕ_digits (n / scale)) (print_ℕ-ne-nil (n / scale))

print-IsSolid : (n : ℕ) → IsSolid (print_magnitude n)
unfolding print_magnitude is_space
print-IsSolid n =
    All-append (λ c. is_space c ≡ false) (print_ℕ (n / scale)) _
      (digits-IsSolid _ (print_ℕ_digits (n / scale))) (refl, digits-IsSolid _ (fraction_digits n))

-- Every BigInt that `fromBigInt` writes is read back by `toBigInt` as the same BigInt.
pub to_big_int-from_big_int : (v : ℤ) → to_big_int (from_big_int v) ≡ some v
unfolding to_big_int from_big_int is_decimal neg
to_big_int-from_big_int (pos n) = rw (
  trim-IsSolid (print_magnitude n) (print-IsSolid n),
  (starts-print n).1,
  (starts-print n).0,
  match-print n,
  scaled_magnitude-print n,
)
to_big_int-from_big_int (negsuc n) = rw (
  trim-IsSolid (b'-' ∷ print_magnitude (suc n)) (unfold is_space in (refl, print-IsSolid (suc n))),
  match-print (suc n),
  scaled_magnitude-print (suc n),
)
