-- ===== src/Util/Float.antt =====
-- The C type `double` as an interface: what the program uses of it, with laws of IEEE 754
-- rounding to nearest, which is monotone and leaves every number of 53 bits as it is.
use slstatus.Prelude.{ℕ, ◌*◌, ◌^◌, ◌≤◌, ◌<◌, ◌≡◌, Bool, true, false}
use slstatus.Prelude.Int.{ℤ, pos, ltb_ℤ}
use slstatus.Prelude.Text.{Text}

-- A double holds `k` exactly: 53 bits and a power of two.
pub record IsExact (k : ℕ) : Type 0 where
  pub mantissa : ℕ
  pub exponent : ℕ
  pub bits : mantissa < 2 ^ 53
  pub value : k ≡ mantissa * 2 ^ exponent

pub record Float : Type 1 where
  pub Double : Type 0
  pub of_ℕ : ℕ → Double
  pub of_ℤ : ℤ → Double
  pub add : Double → Double → Double
  pub sub : Double → Double → Double
  pub mul : Double → Double → Double
  pub div : Double → Double → Double
  pub le : Double → Double → Bool
  pub lt : Double → Double → Bool
  pub eq : Double → Double → Bool
  -- The rounding to `float`.
  pub single : Double → Double
  -- The conversions to int and to uintmax_t.
  pub trunc : Double → ℤ
  pub to_uintmax : Double → ℕ
  -- What printf makes of it with %.kf.
  pub show : Double → ℕ → Text
  pub of_ℕ-le : (n k : ℕ) → IsExact k → n ≤ k → le (of_ℕ n) (of_ℕ k) ≡ true
  pub div-le :
      (x : Double) (k b : ℕ)
      → 0 < b
      → IsExact k
      → IsExact b
      → IsExact (k * b)
      → le x (of_ℕ (k * b)) ≡ true
      → le (div x (of_ℕ b)) (of_ℕ k) ≡ true
  pub le_false_of_lt :
      (x : Double) (k b : ℕ)
      → IsExact k
      → IsExact b
      → k < b
      → le x (of_ℕ k) ≡ true
      → le (of_ℕ b) x ≡ false
  -- Truncation is towards zero, so it keeps the order with a positive whole number.
  pub lt-trunc : (x : Double) (n : ℕ) → 0 < n → IsExact n → lt x (of_ℕ n) ≡ ltb_ℤ (trunc x) (pos n)
