-- ===== src/Backlight/Find.antt =====
-- The round of `backlight_loop` in components/backlight.c.
use slstatus.Prelude.{
  ℕ, ◌+◌, ◌≡◌, refl, ap, ◌∙◌, Bool, true, false, Option, none, some, arith, sym, Bool-cases, inl,
  inr, if◌then◌else◌,
}
use slstatus.Prelude.Int.{eqb_ℤ, eq_of_parts}
use slstatus.Prelude.Text.{text_eq}
use slstatus.Util.{World, kill}
use slstatus.Util.Float.{Float}
use slstatus.Bar.{sigrtmin}
use slstatus.Pool.{TailQueue, find_by, modify}
use slstatus.Backlight.{
  Entry, Device, Backlight, backlight_find, find_entry, backlight_loop, changed, brightness_of,
  backlight_signal,
}

module _ (F : Float) (T : TailQueue) (d : Device) where
  abbrev is_named : Entry → Bool
  is_named e = text_eq e.name d.sysname

  pub find_hit :
      (s : Backlight F T) (w : World) (o : Option ℕ)
      → find_by T is_named s.pool ≡ o
      → backlight_find F T d.sysname false s w ≡ (o, s, w)
  unfolding backlight_find find_entry
  find_hit s w (some p) h = rw (h, backlight_find) refl
  find_hit s w none h = rw (h, backlight_find) refl

  abbrev seen : Entry → Entry
  seen e = record e { brightness = brightness_of F d }

  seen_same : (e : Entry) → eqb_ℤ (brightness_of F d) e.brightness ≡ true → seen e ≡ e
  seen_same e h =
      ap (λ b. record e { brightness = b })
        (eq_of_parts (brightness_of F d) e.brightness (ground (arith, h)))

  changed_lem :
      (s : Backlight F T) (w : World) (p : ℕ) (e : Entry)
      → s.pool.cells p ≡ some e
      → ((changed F T d (some p) s w).0.pool.cells p ≡ some (seen e))
        × ((changed F T d (some p) s w).1 ≡ (
            if eqb_ℤ (brightness_of F d) e.brightness
            then w
            else kill (sigrtmin + backlight_signal) w))
  unfolding changed modify
  changed_lem s w p e h = elim (Bool-cases (eqb_ℤ (brightness_of F d) e.brightness)) [
    | inl t ↦ (rw (h, changed, t) (h ∙ ap some (sym (seen_same e t))), rw (h, changed, t) refl)
    | inr t ↦ (rw (h, changed, t) (ground arith), rw (h, changed, t) refl)
  ]

  -- A round of the loop that received a device with an entry leaves the device's brightness in the
  -- entry, and raises the signal exactly where the entry had another.
  pub backlight_loop_lem :
      (s : Backlight F T) (w : World) (p : ℕ) (e : Entry)
      → find_by T is_named s.pool ≡ some p
      → s.pool.cells p ≡ some e
      → ((backlight_loop F T (some d) s w).0.pool.cells p
          ≡ some (record e { brightness = brightness_of F d }))
        × ((backlight_loop F T (some d) s w).1 ≡ (
            if eqb_ℤ (brightness_of F d) e.brightness
            then w
            else kill (sigrtmin + backlight_signal) w))
  unfolding backlight_loop
  backlight_loop_lem s w p e f h = rw (find_hit s w (some p) f) (changed_lem s w p e h)

  -- A round of the loop that received a device with no entry changes nothing.
  pub backlight_loop-unknown :
      (s : Backlight F T) (w : World)
      → find_by T is_named s.pool ≡ none
      → backlight_loop F T (some d) s w ≡ (s, w)
  unfolding backlight_loop changed
  backlight_loop-unknown s w h =
      ap (λ (r : Option ℕ × Backlight F T × World). changed F T d r.0 r.1 r.2) (find_hit s w none h)
