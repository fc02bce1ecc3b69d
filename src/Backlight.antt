-- ===== src/Backlight.antt =====
-- components/backlight.c: the backlights by name, with the thread that watches them. libudev is the
-- function from the path of a device to its two attributes.
use slstatus.Prelude.{
  ℕ, ◌+◌, ◌-◌, ◌^◌, Bool, true, false, not, List, [], ◌∷◌, Option, none, some, ltb, ◌==◌,
  if◌then◌else◌,
}
use slstatus.Prelude.Int.{ℤ, pos, eqb_ℤ, ltb_ℤ}
use slstatus.Prelude.Text.{Text, lit, glyph, text_eq}
use slstatus.Stdio.Format.{str, int}
use slstatus.Stdio.Decimal.{read_digits}
use slstatus.Stdio.Scan.{Scanned, atoi}
use slstatus.Stdio.Scan
use slstatus.Util.{World, Try, ◌>>=◌, null, bprintf, kill, esnprintf_all, pscanf_all}
use slstatus.Util.Float.{Float}
use slstatus.Bar.{sigrtmin}
use slstatus.Pool.{TailQueue, Pool, empty, find_by, insert, modify}
pub mod Links
pub mod Find
pub mod Icons
pub mod Registry
pub mod Thread

abbrev pub backlight_signal : ℕ
backlight_signal = 1

abbrev pub path_max : ℕ
path_max = 4096

-- `backlight_t`; nothing sets or reads its `monitor`.
pub record Entry : Type 0 where
  pub name : Text
  pub brightness : ℤ

-- The attributes `brightness` and `max_brightness` of a `udev_device`, which all of the class have.
pub record Device : Type 0 where
  pub sysname : Text
  pub brightness : Text
  pub max_brightness : Text

module _ (F : Float) where
  open F use {of_ℕ, of_ℤ, mul, div, single, trunc}

  -- `(int)(100.0 * (float)atoi(…) / atoi(…))`
  unfoldable pub brightness_of : Device → ℤ
  unfolding atoi
  brightness_of d =
      trunc
        (div (mul (of_ℕ 100) (single (of_ℤ (atoi d.brightness)))) (of_ℤ (atoi d.max_brightness)))

-- The icons of `backlight_line`.
unfoldable pub icon_of : ℤ → Text
icon_of n =
    if ltb_ℤ n (pos 25)
    then glyph 0xf00de
    else if ltb_ℤ n (pos 50)
    then glyph 0xf00df
    else if ltb_ℤ n (pos 75)
    then glyph 0xf00dd
    else glyph 0xf00e0

-- The icons of `backlight_icon`, behind `strtoul`.
unfoldable pub icon_of_perc : ℕ → Text
icon_of_perc n =
    if ltb n 25
    then glyph 0xf00de
    else if ltb n 50
    then glyph 0xf00df
    else if ltb n 75
    then glyph 0xf00dd
    else glyph 0xf00e0

module _ (F : Float) (T : TailQueue) where
  -- `backlight_queue`, and `udev` with the devices by their path.
  pub record Backlight : Type 0 where
    pub pool : Pool T Entry
    pub udev : Option (Text → Option Device)

  -- `backlight_init` but for the start of the thread.
  unfoldable pub backlight_init : Option (Text → Option Device) → Backlight → Backlight
  backlight_init none s = record s { udev = none }
  backlight_init (some devices) s = record { pool = empty T; udev = some devices }

  pub device_at : Option (Text → Option Device) → Text → Option Device
  device_at none path = none
  device_at (some devices) path = devices path

  make_entry : Text → Option Device → Backlight → Option ℕ × Backlight
  unfolding brightness_of
  make_entry name none s = (none, s)
  make_entry name (some d) s = (
    some s.pool.fresh,
    record s { pool = insert T (record { name = name; brightness = brightness_of F d }) s.pool },
  )

  -- Behind the formatting of the path.
  look_up : Text → Option Text → Backlight → Option ℕ × Backlight
  unfolding device_at make_entry
  look_up name none s = (none, s)
  look_up name (some path) s = make_entry name (device_at s.udev path) s

  create_entry : Text → Backlight → World → Option ℕ × Backlight × World
  unfolding look_up
  create_entry name s w =
      let (path, w') =
        esnprintf_all path_max (lit "/sys/class/backlight/%s") (str (some name) ∷ []) w in
      let (p, s') = look_up name path s in (p, s', w')

  find_entry : Text → Bool → Option ℕ → Backlight → World → Option ℕ × Backlight × World
  unfolding create_entry
  find_entry name create (some p) s w = (some p, s, w)
  find_entry name false none s w = (none, s, w)
  find_entry name true none s w = create_entry name s w

  unfoldable pub backlight_find :
      Text → (create : Bool) → Backlight → World → Option ℕ × Backlight × World
  unfolding find_entry
  backlight_find name create s w =
      find_entry name create (find_by T (λ e. text_eq e.name name) s.pool) s w

  -- The update of the entry that the loop has found.
  changed : Device → Option ℕ → Backlight → World → Backlight × World
  unfolding brightness_of
  changed d none s w = (s, w)
  changed d (some p) s w = elim (s.pool.cells p) [
    | none ↦ (s, w)
    | some e ↦
        let brightness = brightness_of F d in
        if not (eqb_ℤ brightness e.brightness)
        then (
          record s { pool = modify T p (record e { brightness = brightness }) s.pool },
          kill (sigrtmin + backlight_signal) w,
        )
        else (s, w)
  ]

  -- A round of `backlight_loop`, with the device that the monitor received.
  unfoldable pub backlight_loop : Option Device → Backlight → World → Backlight × World
  unfolding backlight_find changed
  backlight_loop none s w = (s, w)
  backlight_loop (some d) s w =
      let (p, s', w') = backlight_find d.sysname false s w in changed d p s' w'

  -- `backlight_free` but for the signal to the thread.
  unfoldable pub backlight_free : Backlight → Backlight
  backlight_free s = record s { udev = none }

  abbrev pub entry_at : Option ℕ → Backlight → Option Entry
  entry_at none s = none
  entry_at (some p) s = s.pool.cells p

  print_line : Option Entry → World → Option Text × World
  unfolding icon_of
  print_line none w = (none, w)
  print_line (some e) w =
      bprintf (lit "%s %d%%") (str (some (icon_of e.brightness)) ∷ int e.brightness ∷ []) w

  unfoldable pub backlight_line : Text → Backlight → World → Option Text × Backlight × World
  unfolding backlight_find print_line
  backlight_line arg s w =
      let (p, s', w') = backlight_find arg true s w in
      let (res, w'') = print_line (entry_at p s') w' in (res, s', w'')

-- `strtoul` of a text that `%d` made: behind a minus sign it is huge.
unfoldable pub strtoul : Text → ℕ
unfolding read_digits
strtoul [] = 0
strtoul (c ∷ s) = if c == b'-' then 2 ^ 64 - read_digits 0 s else read_digits 0 (c ∷ s)

module _ (F : Float) where
  open F use {of_ℕ, of_ℤ, mul, div, trunc}

  scanned_int : List Scanned → Try ℤ
  scanned_int (Scan.int n ∷ []) = λ w. (some n, w)
  scanned_int _ = null

  -- `pscanf(path, "%d", …)` of an attribute.
  read_attribute : Text → Text → Try ℤ
  unfolding scanned_int
  read_attribute fmt arg =
      esnprintf_all path_max fmt (str (some arg) ∷ [])
      >>= (λ path. pscanf_all 1 path (Scan.d ∷ []))
      >>= scanned_int

  unfoldable pub backlight_perc : Text → Try Text
  unfolding read_attribute
  backlight_perc arg =
      read_attribute (lit "/sys/class/backlight/%s/brightness") arg >>= λ brightness.
      read_attribute (lit "/sys/class/backlight/%s/max_brightness") arg >>= λ max_brightness.
      bprintf (lit "%d")
        (int (trunc (div (mul (of_ℕ 100) (of_ℤ brightness)) (of_ℤ max_brightness))) ∷ [])

  unfoldable pub backlight_icon : Text → Try Text
  unfolding backlight_perc strtoul icon_of_perc
  backlight_icon arg = backlight_perc arg >>= λ perc w. (some (icon_of_perc (strtoul perc)), w)
