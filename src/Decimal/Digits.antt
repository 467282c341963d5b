-- ===== src/Decimal/Digits.antt =====
-- The digits that `BigInt.prototype.toString` writes and `BigInt(s)` reads (ledger/decimal.ts).
use native.Mathlib.Nat.{pow-suc}
use novacex.Prelude.{
  ℕ, zero, suc, ◌+◌, ◌-◌, ◌*◌, ◌/◌, ◌%◌, ◌^◌, ◌≤◌, ◌<◌, ◌≡◌, refl, ◌≢◌, inl, inr, true, [], ◌∷◌,
  ◌++◌, arith, ltb, Bool-cases, length, replicate, length-append, length-replicate,
}
use novacex.Decimal.{Text, all_digits, read_digits, print_fuel, print_ℕ, pad_start}

pub all_digits-append :
    (s t : Text) → all_digits s ≡ true → all_digits t ≡ true → all_digits (s ++ t) ≡ true
unfolding all_digits
all_digits-append [] t hs ht = ht
all_digits-append (c ∷ s) t hs ht = ground (arith, all_digits-append s t)

pub read_digits-append :
    (acc : ℕ) (s t : Text) → read_digits acc (s ++ t) ≡ read_digits (read_digits acc s) t
unfolding read_digits
read_digits-append acc [] t = refl
read_digits-append acc (c ∷ s) t = read_digits-append (acc * 10 + (c - b'0')) s t

print_fuel_digits : (f n : ℕ) → n ≤ f → all_digits (print_fuel f n) ≡ true
unfolding print_fuel all_digits
print_fuel_digits zero n h = ground arith
print_fuel_digits (suc f) n h = elim (Bool-cases (ltb n 10)) [
  | inl small ↦ ground arith
  | inr big ↦ ground (
    arith,
    all_digits-append (print_fuel f (n / 10)) ((b'0' + n % 10) ∷ []),
    print_fuel_digits f (n / 10),
  )
]

read-print_fuel : (f n : ℕ) → n ≤ f → read_digits 0 (print_fuel f n) ≡ n
unfolding print_fuel read_digits
read-print_fuel zero n h = ground arith
read-print_fuel (suc f) n h = elim (Bool-cases (ltb n 10)) [
  | inl small ↦ ground arith
  | inr big ↦ ground (
    arith,
    read_digits-append 0 (print_fuel f (n / 10)) ((b'0' + n % 10) ∷ []),
    read-print_fuel f (n / 10),
  )
]

length-print_fuel : (f n k : ℕ) → n ≤ f → n < 10 ^ suc k → length (print_fuel f n) ≤ suc k
unfolding print_fuel
length-print_fuel zero n k h lt = omega arith
length-print_fuel (suc f) n zero h lt = ground arith
length-print_fuel (suc f) n (suc k) h lt = elim (Bool-cases (ltb n 10)) [
  | inl small ↦ ground arith
  | inr big ↦ ground (
    arith,
    length-append (print_fuel f (n / 10)) ((b'0' + n % 10) ∷ []),
    length-print_fuel f (n / 10) k,
    pow-suc 10 (suc k),
  )
]

snoc-ne-nil : (s : Text) (c : ℕ) → s ++ c ∷ [] ≢ []
snoc-ne-nil [] c = ground arith
snoc-ne-nil (x ∷ s) c = ground arith

print_fuel-ne-nil : (f n : ℕ) → print_fuel f n ≢ []
unfolding print_fuel
print_fuel-ne-nil zero n = ground arith
print_fuel-ne-nil (suc f) n = ground (arith, snoc-ne-nil (print_fuel f (n / 10)) (b'0' + n % 10))

-- What `toString` writes is digits, at least one, and reads back as the number.
pub print_ℕ_digits : (n : ℕ) → all_digits (print_ℕ n) ≡ true
unfolding print_ℕ
print_ℕ_digits n = print_fuel_digits n n (omega arith)

pub read-print_ℕ : (n : ℕ) → read_digits 0 (print_ℕ n) ≡ n
unfolding print_ℕ
read-print_ℕ n = read-print_fuel n n (omega arith)

pub print_ℕ-ne-nil : (n : ℕ) → print_ℕ n ≢ []
unfolding print_ℕ
print_ℕ-ne-nil n = print_fuel-ne-nil n n

pub length-print_ℕ : (n k : ℕ) → n < 10 ^ suc k → length (print_ℕ n) ≤ suc k
unfolding print_ℕ
length-print_ℕ n k h = length-print_fuel n n k (omega arith) h

zeros_digits : (k : ℕ) → all_digits (replicate k b'0') ≡ true
unfolding all_digits
zeros_digits zero = refl
zeros_digits (suc k) = zeros_digits k

read-zeros : (k : ℕ) → read_digits 0 (replicate k b'0') ≡ 0
unfolding read_digits
read-zeros zero = refl
read-zeros (suc k) = read-zeros k

-- `padStart` with zeros keeps the number and reaches the width.
pub pad_start_digits : (w : ℕ) (s : Text) → all_digits s ≡ true → all_digits (pad_start w s) ≡ true
unfolding pad_start
pad_start_digits w s h = all_digits-append _ s (zeros_digits (w - length s)) h

pub read-pad_start : (w : ℕ) (s : Text) → read_digits 0 (pad_start w s) ≡ read_digits 0 s
unfolding pad_start
read-pad_start w s =
    rw (read_digits-append 0 (replicate (w - length s) b'0') s, read-zeros (w - length s))

pub length-pad_start : (w : ℕ) (s : Text) → length s ≤ w → length (pad_start w s) ≡ w
unfolding pad_start
length-pad_start w s h = omega (
  arith,
  length-append (replicate (w - length s) b'0') s,
  length-replicate {A = ℕ} (w - length s) b'0',
)
