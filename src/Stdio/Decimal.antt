-- ===== src/Stdio/Decimal.antt =====
-- Decimal text: what `%ju`, `%u` and `%d` print, and what `strtoul` reads back.
use slstatus.Prelude.{
  ℕ, zero, suc, ◌+◌, ◌-◌, ◌*◌, ◌/◌, ◌%◌, ◌≤◌, ◌<◌, ◌≡◌, refl, Bool, true, false, ◌&&◌, [], ◌∷◌,
  ◌++◌, arith, ltb, leb, if◌then◌else◌, length, length-append, Bool-cases, ltb→lt, ap, inl, inr,
  ◌^◌,
}
use native.Mathlib.Nat.{pow-suc}
use slstatus.Prelude.Int.{ℤ, pos, negsuc}
use slstatus.Prelude.Text.{Text}
use mathlib.Core.List.{append_assoc}

abbrev pub is_digit : ℕ → Bool
is_digit c = leb b'0' c && leb c b'9'

-- One round for each digit; `show_nat` gives a round more than the number, which is enough.
digits : ℕ → ℕ → Text
digits zero n = []
digits (suc fuel) n =
    let more = digits fuel (n / 10) in
    if ltb n 10 then (b'0' + n) ∷ [] else more ++ (b'0' + n % 10) ∷ []

unfoldable pub show_nat : ℕ → Text
unfolding digits
show_nat n = digits (suc n) n

unfoldable pub show_int : ℤ → Text
unfolding show_nat
show_int (pos n) = show_nat n
show_int (negsuc n) = b'-' ∷ show_nat (suc n)

-- The digits at the front of a text, as a number on top of `acc`.
unfoldable pub read_digits : ℕ → Text → ℕ
read_digits acc [] = acc
read_digits acc (c ∷ s) =
    let more = read_digits (acc * 10 + (c - b'0')) s in if is_digit c then more else acc

-- The text behind those digits.
unfoldable pub skip_digits : Text → Text
skip_digits [] = []
skip_digits (c ∷ s) = let more = skip_digits s in if is_digit c then more else c ∷ s

abbrev pub starts_with_digit : Text → Bool
starts_with_digit [] = false
starts_with_digit (c ∷ s) = is_digit c

read_digits_stop : (acc : ℕ) (s : Text) → starts_with_digit s ≡ false → read_digits acc s ≡ acc
unfolding read_digits
read_digits_stop acc [] h = refl
read_digits_stop acc (c ∷ s) h = ground arith

-- The power of ten by which reading `digits fuel n` shifts the accumulator.
shift : ℕ → ℕ → ℕ → ℕ
shift zero n acc = acc
shift (suc fuel) n acc =
    let more = shift fuel (n / 10) acc in if ltb n 10 then acc * 10 else more * 10

shift_zero : (fuel n : ℕ) → shift fuel n 0 ≡ 0
unfolding shift
shift_zero zero n = refl
shift_zero (suc fuel) n = ground (arith, shift_zero fuel (n / 10))

read_digits_step :
    (acc d : ℕ) (s : Text)
    → d < 10
    → read_digits acc ((b'0' + d) ∷ s) ≡ read_digits (acc * 10 + d) s
unfolding read_digits
read_digits_step acc d s h = let e : b'0' + d - b'0' ≡ d = omega arith in rw e (ground arith)

read_digits-digits :
    (fuel n acc : ℕ) (rest : Text)
    → n < fuel
    → read_digits acc (digits fuel n ++ rest) ≡ read_digits (shift fuel n acc + n) rest
unfolding digits shift
read_digits-digits zero n acc rest h = elim h [ ]
read_digits-digits (suc fuel) n acc rest h = elim (Bool-cases (ltb n 10)) [
  | inl small ↦ rw small (read_digits_step acc n rest (ltb→lt n 10 small))
  | inr big ↦
      rw
        (
          big,
          append_assoc,
          read_digits-digits fuel (n / 10) acc ((b'0' + n % 10) ∷ rest) (ground arith),
          read_digits_step (shift fuel (n / 10) acc + n / 10) (n % 10) rest (omega arith),
        )
        (ap (λ k. read_digits k rest) (omega arith))
]

-- Reading back what `show_nat` prints gives the number, whatever follows it but a digit.
pub read_digits-show_nat :
    (n : ℕ) (rest : Text) → starts_with_digit rest ≡ false → read_digits 0 (show_nat n ++ rest) ≡ n
unfolding show_nat
read_digits-show_nat n rest h =
    rw (read_digits-digits (suc n) n 0 rest (omega arith), shift_zero (suc n) n)
      (rw (read_digits_stop (0 + n) rest h) (omega arith))

-- A printed number is not empty.
pub length-show_nat : (n : ℕ) → 1 ≤ length (show_nat n)
unfolding show_nat digits
length-show_nat n = ground (arith, length-append {0} (digits n (n / 10)) ((b'0' + n % 10) ∷ []))

-- A number below 10 ^ k has at most k digits.
length-digits : (k fuel n : ℕ) → n < 10 ^ suc k → length (digits fuel n) ≤ suc k
unfolding digits
length-digits k zero n h = omega arith
length-digits zero (suc fuel) n h = ground arith
length-digits (suc k) (suc fuel) n h = ground (
  arith,
  pow-suc 10 (suc k),
  length-digits k fuel (n / 10) (omega (arith, pow-suc 10 (suc k))),
  length-append {0} (digits fuel (n / 10)) ((b'0' + n % 10) ∷ []),
)

pub length-show_nat-le : (k n : ℕ) → n < 10 ^ suc k → length (show_nat n) ≤ suc k
unfolding show_nat
length-show_nat-le k n h = length-digits k (suc n) n h

starts_with_digit-append :
    (s t : Text) → starts_with_digit s ≡ true → starts_with_digit (s ++ t) ≡ true
starts_with_digit-append [] t h = cc
starts_with_digit-append (c ∷ s) t h = h

digits-starts_with_digit : (fuel n : ℕ) → n < fuel → starts_with_digit (digits fuel n) ≡ true
unfolding digits
digits-starts_with_digit zero n h = elim h [ ]
digits-starts_with_digit (suc fuel) n h = elim (Bool-cases (ltb n 10)) [
  | inl small ↦ rw small (ground arith)
  | inr big ↦ rw big (
      starts_with_digit-append (digits fuel (n / 10)) _
        (digits-starts_with_digit fuel (n / 10) (ground arith)))
]

-- A printed number starts with a digit.
pub show_nat-starts_with_digit : (n : ℕ) → starts_with_digit (show_nat n) ≡ true
unfolding show_nat
show_nat-starts_with_digit n = digits-starts_with_digit (suc n) n (omega arith)
