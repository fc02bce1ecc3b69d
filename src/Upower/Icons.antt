-- ===== src/Upower/Icons.antt =====
-- The icons of `upower_line` in components/upower.c.
use slstatus.Prelude.{
  ℕ, suc, ◌+◌, ◌/◌, ◌*◌, ◌<◌, ◌≡◌, refl, sym, ◌∙◌, Bool, true, false, List, [], ◌∷◌, some, arith,
  get_elem?, length, Bool-cases, inl, inr, ◌-◌, if◌then◌else◌,
}
use Prim.Native.Nat.{min}
use slstatus.Prelude.Int.{ℤ, pos, ltb_ℤ, pos_part}
use slstatus.Prelude.Text.{Text, glyph}
use slstatus.Util.Float.{Float}
use slstatus.Upower.{discharging_icon, charging_icon}

abbrev pub discharging_icons : List Text
discharging_icons =
    glyph 0xf008e
    ∷ glyph 0xf007a
    ∷ glyph 0xf007b
    ∷ glyph 0xf007c
    ∷ glyph 0xf007d
    ∷ glyph 0xf007e
    ∷ glyph 0xf007f
    ∷ glyph 0xf0080
    ∷ glyph 0xf0081
    ∷ glyph 0xf0082
    ∷ glyph 0xf0079
    ∷ []

abbrev pub charging_icons : List Text
charging_icons =
    glyph 0xf089f
    ∷ glyph 0xf089c
    ∷ glyph 0xf0086
    ∷ glyph 0xf0087
    ∷ glyph 0xf0088
    ∷ glyph 0xf089d
    ∷ glyph 0xf0089
    ∷ glyph 0xf089e
    ∷ glyph 0xf008a
    ∷ glyph 0xf008b
    ∷ glyph 0xf0085
    ∷ []

-- A ladder of tests, ten apart, with a text for each and one for none.
ladder : (ℕ → Bool) → ℕ → List Text → Text
ladder t k [] = []
ladder t k (a ∷ []) = a
ladder t k (a ∷ b ∷ r) = let more = ladder t (k + 10) (b ∷ r) in if t k then a else more

-- The row of a number in a ladder that starts at `k`.
abbrev pub row : ℕ → ℕ → ℕ → ℕ
row n k rows = min (rows - 1) ((n + 10 - k) / 10)

ladder-row :
    (t : ℕ → Bool) (n : ℤ)
    → ((k : ℕ) → 0 < k → k < 1000 → t k ≡ ltb_ℤ n (pos k))
    → (k : ℕ) (a : Text) (l : List Text) → 0 < k
    → k + 10 * length l < 1000
    → get_elem? (a ∷ l) (row (pos_part n) k (suc (length l))) ≡ some (ladder t k (a ∷ l))
unfolding ladder
ladder-row t n h k a [] pk b = let e : row (pos_part n) k 1 ≡ 0 = omega arith in rw e refl
ladder-row t n h k a (c ∷ l) pk b = elim (Bool-cases (t k)) [
  | inl low ↦
      let e : row (pos_part n) k (suc (suc (length l))) ≡ 0 =
        let low' : ltb_ℤ n (pos k) ≡ true = sym (h k pk (omega arith)) ∙ low in ground arith in
      rw (e, low)
  | inr high ↦
      let e : row (pos_part n) k (suc (suc (length l)))
          ≡ suc (row (pos_part n) (k + 10) (suc (length l))) =
        let high' : ltb_ℤ n (pos k) ≡ false = sym (h k pk (omega arith)) ∙ high in ground arith in
      rw (e, high) (ladder-row t n h (k + 10) c l (omega arith) (omega arith))
]

ladder-row_list :
    (t : ℕ → Bool) (n : ℤ)
    → ((k : ℕ) → 0 < k → k < 1000 → t k ≡ ltb_ℤ n (pos k))
    → (l : List Text) → (0 < length l) × (length l < 90)
    → get_elem? l (row (pos_part n) 5 (length l)) ≡ some (ladder t 5 l)
ladder-row_list t n h [] b = absurd (omega arith)
ladder-row_list t n h (a ∷ l) b = ladder-row t n h 5 a l (omega arith) (omega arith)

module _ (F : Float) (p : Float.Double F) where
  open F use {of_ℕ, lt, trunc, lt-trunc}

  tests : (k : ℕ) → 0 < k → k < 1000 → lt p (of_ℕ k) ≡ ltb_ℤ (trunc p) (pos k)
  tests k h b =
      lt-trunc p k h
        (record { mantissa = k; exponent = 0; bits = omega arith; value = omega arith })

  -- The icon that `upower_line` shows is the one of its eleven whose place is the printed number
  -- divided by ten, fives rounded up, whether the battery discharges or not.
  pub icons-row :
      (get_elem? discharging_icons (row (pos_part (trunc p)) 5 11) ≡ some (discharging_icon F p))
      × (get_elem? charging_icons (row (pos_part (trunc p)) 5 11) ≡ some (charging_icon F p))
  unfolding discharging_icon charging_icon ladder
  icons-row = (
    ladder-row_list (λ k. lt p (of_ℕ k)) (trunc p) tests discharging_icons (omega arith),
    ladder-row_list (λ k. lt p (of_ℕ k)) (trunc p) tests charging_icons (omega arith),
  )
