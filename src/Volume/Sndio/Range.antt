-- ===== src/Volume/Sndio/Range.antt =====
-- The loop over the controls in `vol_perc` of components/volume.c.
use native.Mathlib.Nat.{div-lt_iff_lt-mul}
use slstatus.Prelude.{
  ℕ, ◌+◌, ◌*◌, ◌/◌, ◌%◌, ◌^◌, ◌≤◌, ◌<◌, ◌≡◌, refl, ap, ◌∙◌, Bool, false, List, [], ◌∷◌, Option,
  none, some, ◌==◌, arith, if◌then◌else◌, Bool-cases, ◌⊎◌, inl, inr, All,
}
use slstatus.Prelude.Int.{ℤ, pos, ltb_ℤ}
use slstatus.Stdio.Scan.{wrap_int}
use slstatus.Volume.Sndio.{Kind, level, mute, Control, level_of, smaller, volume_from, and_then}

-- The value is one of 0 up to a maximum, and the sums of the loop fit an int.
pub record IsSound (c : Control) : Type 0 where
  pub some_maxval : 0 < c.maxval
  pub in_range : c.val ≤ c.maxval
  pub small : c.maxval * 101 < 2 ^ 31

rounded : (val maxval : ℕ) → 0 < maxval → val ≤ maxval → (val * 100 + maxval / 2) / maxval < 101
rounded val maxval p h = (div-lt_iff_lt-mul p).1 (omega arith)

wrap_small : (q : ℕ) → q < 101 → wrap_int q ≡ pos q
wrap_small q h = ground arith

level_of-range : (c : Control) → IsSound c → (n : ℕ) × (n ≤ 100) × (level_of c ≡ some (pos n))
unfolding level_of
level_of-range c h =
    let p = h.some_maxval in
    let r = h.in_range in
    let m = h.small in
    let q = (c.val * 100 + c.maxval / 2) / c.maxval in
    let b : q < 101 = rounded c.val c.maxval p r in
    let nonzero : (c.maxval == 0) ≡ false = ground arith in
    let exact : (c.val * 100 % 2 ^ 32 + c.maxval / 2) % 2 ^ 32 ≡ c.val * 100 + c.maxval / 2 =
      omega arith in
    (
      q,
      omega arith,
      ap
            (λ (t : Bool).
              if t
              then none
              else some (wrap_int ((c.val * 100 % 2 ^ 32 + c.maxval / 2) % 2 ^ 32 / c.maxval)))
            nonzero
          ∙ ap (λ (x : ℕ). some (wrap_int (x / c.maxval))) exact
          ∙ ap some (wrap_small q b),
    )

smaller-range :
    (v n : ℕ) → v ≤ 100 → n ≤ 100 → (m : ℕ) × (m ≤ v) × (m ≤ n) × (smaller (pos v) (pos n) ≡ pos m)
smaller-range v n hv hn = elim (Bool-cases (ltb_ℤ (pos v) (pos n))) [
  | inl less ↦ (v, omega arith, ground (arith, less), rw less refl)
  | inr more ↦ (n, ground (arith, more), omega arith, rw more refl)
]

Kind-cases : (k : Kind) → (k ≡ mute) ⊎ (k ≡ level)
Kind-cases mute = inl refl
Kind-cases level = inr refl

-- Where every control is sound, the loop of vol_perc over the controls does not divide by zero, and
-- the volume that it ends with is from 0 up to the percentage that it starts with.
volume_from-range :
    (n : ℕ) (controls : List Control)
    → n ≤ 100
    → All IsSound controls
    → (m : ℕ) × (m ≤ n) × (volume_from (pos n) controls ≡ some (pos m))
unfolding volume_from
volume_from-range n [] b h = (n, omega arith, refl)
volume_from-range n (c ∷ controls) b h = elim (Kind-cases c.type) [
  | inl is_mute ↦ elim (Bool-cases (c.val == 1)) [
    | inl on ↦
        let (m, r, e) = volume_from-range 0 controls (omega arith) h.1 in
        (m, omega arith, rw (is_mute, on, volume_from) e)
    | inr off ↦
        let (m, r, e) = volume_from-range n controls b h.1 in
        (m, r, rw (is_mute, off, volume_from) e)
  ]
  | inr is_level ↦
      let (v, hv, ev) = level_of-range c h.0 in
      let (x, hx, hn, ex) = smaller-range v n hv b in
      let (m, r, e) = volume_from-range x controls (omega arith) h.1 in
      (
        m,
        omega arith,
        rw (is_level, volume_from)
            (ap (λ (o : Option ℤ). and_then o (λ u. volume_from (smaller u (pos n)) controls)) ev
              ∙ ap (λ (t : ℤ). volume_from t controls) ex
              ∙ e),
      )
]
