-- ===== src/Util/Human/Range.antt =====
-- The range of the scaling loop of `fmt_human` in util.c.
use native.Mathlib.Nat.{pow-suc, pow-zero}
use slstatus.Prelude.{
  ℕ, zero, suc, ◌+◌, ◌*◌, ◌^◌, ◌≤◌, ◌<◌, ◌≡◌, refl, true, false, arith, Bool-cases, inl, inr,
  length,
}
use slstatus.Util.Float.{Float, IsExact}
use slstatus.Util.Human.{scale, prefix_1000, prefix_1024}

abbrev exact : (k m e : ℕ) → m < 2 ^ 53 → k ≡ m * 2 ^ e → IsExact k
exact k m e h p = record { mantissa = m; exponent = e; bits = h; value = p }

-- c * base ^ j for every j up to n.
abbrev AllExact : ℕ → ℕ → ℕ → Type 0
AllExact c base zero = IsExact (c * base ^ 0)
AllExact c base (suc n) = IsExact (c * base ^ suc n) × AllExact c base n

exact_last : (c base n : ℕ) → AllExact c base n → IsExact (c * base ^ n)
exact_last c base zero h = h
exact_last c base (suc n) h = h.0

exact_base : (c base : ℕ) → c * base ^ 0 ≡ c
exact_base c base = rw pow-zero (omega arith)

exact_step : (c base n : ℕ) → c * base ^ suc n ≡ c * base ^ n * base
exact_step c base n = rw pow-suc (omega arith)

module _ (F : Float) where
  open F use {Double, of_ℕ, div, le, of_ℕ-le, div-le, le_false_of_lt}

  scale_index :
      (base c : ℕ)
      → 0 < base
      → c < base
      → IsExact base
      → (n rounds i : ℕ) (x : Double) → AllExact c base n
      → le x (of_ℕ (c * base ^ n)) ≡ true
      → (scale F base rounds i x).1 ≤ i + n
  unfolding scale
  scale_index base c pb hc eb n zero i x ex h = omega arith
  scale_index base c pb hc eb zero (suc rounds) i x ex h =
      rw (le_false_of_lt x (c * base ^ 0) base ex eb (rw exact_base hc) h) (omega arith)
  scale_index base c pb hc eb (suc n) (suc rounds) i x ex h = elim (Bool-cases (le (of_ℕ base) x)) [
    | inl big ↦
        let below : le x (of_ℕ (c * base ^ n * base)) ≡ true = rw exact_step at h in
        let whole : IsExact (c * base ^ n * base) = rw exact_step at ex.0 in
        rw big (
          omega (
            arith,
            scale_index base c pb hc eb n rounds (i + 1) (div x (of_ℕ base)) ex.1
                (div-le x (c * base ^ n) base pb (exact_last c base n ex.1) eb whole below),
          ))
    | inr small ↦ rw small (omega arith)
  ]

  scale_done :
      (base rounds i : ℕ) (x : Double)
      → (scale F base rounds i x).1 < i + rounds
      → le (of_ℕ base) (scale F base rounds i x).0 ≡ false
  unfolding scale
  scale_done base zero i x h = absurd (omega arith)
  scale_done base (suc rounds) i x h = elim (Bool-cases (le (of_ℕ base) x)) [
    | inl big ↦
        let h' = rw big at h in
        rw big (scale_done base rounds (i + 1) (div x (of_ℕ base)) (omega arith))
    | inr small ↦ rw small small
  ]

exact_1000 : AllExact 19 1000 6
exact_1000 = (
  exact (19 * 1000 ^ 6) (19 * 5 ^ 18) 18 (omega arith) refl,
  (
    exact (19 * 1000 ^ 5) (19 * 5 ^ 15) 15 (omega arith) refl,
    (
      exact (19 * 1000 ^ 4) (19 * 5 ^ 12) 12 (omega arith) refl,
      (
        exact (19 * 1000 ^ 3) (19 * 5 ^ 9) 9 (omega arith) refl,
        (
          exact (19 * 1000 ^ 2) (19 * 5 ^ 6) 6 (omega arith) refl,
          (
            exact (19 * 1000 ^ 1) (19 * 5 ^ 3) 3 (omega arith) refl,
            exact (19 * 1000 ^ 0) 19 0 (omega arith) refl,
          ),
        ),
      ),
    ),
  ),
)

exact_1024 : AllExact 16 1024 6
exact_1024 = (
  exact (16 * 1024 ^ 6) 1 64 (omega arith) refl,
  (
    exact (16 * 1024 ^ 5) 1 54 (omega arith) refl,
    (
      exact (16 * 1024 ^ 4) 1 44 (omega arith) refl,
      (
        exact (16 * 1024 ^ 3) 1 34 (omega arith) refl,
        (
          exact (16 * 1024 ^ 2) 1 24 (omega arith) refl,
          (
            exact (16 * 1024 ^ 1) 1 14 (omega arith) refl,
            exact (16 * 1024 ^ 0) 1 4 (omega arith) refl,
          ),
        ),
      ),
    ),
  ),
)

module _ (F : Float) (num : ℕ) (fits : num < 2 ^ 64) where
  open F use {of_ℕ, le, of_ℕ-le}

  -- For every `uintmax_t` the loops of both bases end by their test, within six rounds of the nine
  -- that the tables allow: the value printed is below the base, and the prefix is one of the table
  -- up to "E" and "Ei".
  pub scale_in_table :
      (let (scaled, i) = scale F 1000 (length prefix_1000) 0 (of_ℕ num) in
        (i ≤ 6) × (i < length prefix_1000) × (le (of_ℕ 1000) scaled ≡ false))
      × (let (scaled, i) = scale F 1024 (length prefix_1024) 0 (of_ℕ num) in
          (i ≤ 6) × (i < length prefix_1024) × (le (of_ℕ 1024) scaled ≡ false))
  scale_in_table =
      let e1 : IsExact 1000 = exact 1000 1000 0 (omega arith) refl in
      let e2 : IsExact 1024 = exact 1024 1024 0 (omega arith) refl in
      let i1 =
        scale_index F 1000 19 (omega arith) (omega arith) e1 6 9 0 (of_ℕ num) exact_1000
          (of_ℕ-le num (19 * 1000 ^ 6) exact_1000.0 (omega arith)) in
      let i2 =
        scale_index F 1024 16 (omega arith) (omega arith) e2 6 9 0 (of_ℕ num) exact_1024
          (of_ℕ-le num (16 * 1024 ^ 6) exact_1024.0 (omega arith)) in
      (
        (omega arith, omega arith, scale_done F 1000 9 0 (of_ℕ num) (omega arith)),
        (omega arith, omega arith, scale_done F 1024 9 0 (of_ℕ num) (omega arith)),
      )
