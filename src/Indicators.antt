-- ===== src/Indicators.antt =====
-- components/keyboard_indicators.c. Xlib is the mask of the LEDs that are lit, or `none` where the
-- display does not open.
pub mod Items
use slstatus.Prelude.{
  ℕ, ◌+◌, ◌-◌, ◌/◌, ◌%◌, ◌^◌, Bool, true, false, ◌&&◌, not, [], ◌∷◌, ◌++◌, Option, none, some, leb,
  ◌==◌, if◌then◌else◌, take,
}
use slstatus.Prelude.Text.{Text, lit}
use slstatus.Util.{World, Try, warn}

-- `tolower` and `toupper` of the C locale.
abbrev pub tolower : ℕ → ℕ
tolower c = if leb b'A' c && leb c b'Z' then c + 32 else c

abbrev pub toupper : ℕ → ℕ
toupper c = if leb b'a' c && leb c b'z' then c - 32 else c

-- `state.led_mask & (1 << (key == 'n'))`
abbrev pub isset : (led_mask key : ℕ) → Bool
isset led_mask key = led_mask / 2 ^ (if key == b'n' then 1 else 0) % 2 == 1

-- `i + 1 >= fmtlen || fmt[i + 1] != '?'`, by what is left behind `fmt[i]`.
abbrev pub togglecase : Text → Bool
togglecase [] = true
togglecase (c ∷ rest) = not (c == b'?')

-- What a letter appends to `buf`.
abbrev pub shown : (toggle on : Bool) → (c key : ℕ) → Text
shown true on c key = (if on then toupper key else key) ∷ []
shown false true c key = c ∷ []
shown false false c key = []

-- The loop, over the characters of `fmt` that are left.
unfoldable pub indicate : (led_mask : ℕ) → Text → Text
indicate led_mask [] = []
indicate led_mask (c ∷ fmt) =
    let key = tolower c in
    let rest = indicate led_mask fmt in
    if not (key == b'c') && not (key == b'n')
    then rest
    else shown (togglecase fmt) (isset led_mask key) c key ++ rest

unfoldable pub keyboard_indicators : (led_mask : Option ℕ) → Text → Try Text
unfolding indicate
keyboard_indicators none fmt w = (none, warn (lit "XOpenDisplay: Failed to open display") [] w)
keyboard_indicators (some led_mask) fmt w =
    let s = indicate led_mask (take 4 fmt) in (some s, record w { buf = s })
