-- ===== src/System/Bsd.antt =====
-- The parts of components/temperature.c and components/entropy.c for OpenBSD and FreeBSD. sysctl and
-- sysctlbyname are what they store, `none` where they fail or store nothing.
use slstatus.Prelude.{◌+◌, ◌%◌, [], ◌∷◌, Option, none, some}
use slstatus.Prelude.Int.{ℤ, pos, pos_part, neg_part, ◌-ℤ◌}
use slstatus.Prelude.Text.{Text, lit, glyph}
use slstatus.Stdio.Format.{str, int, vsnprintf}
use slstatus.Util.{Try, bprintf, null, warn}
use slstatus.Util.Float.{Float}
use slstatus.Swap.{quot}

-- U+221E
unfoldable pub entropy_infinite : Try Text
entropy_infinite w = (some (glyph 0x221e), w)

-- On OpenBSD, from millionths of a kelvin.
unfoldable pub temp_of_sensor : Float → (value : Option ℤ) → Try Text
temp_of_sensor F none w = (none, warn (lit "sysctl 'SENSOR_TEMP':") [] w)
temp_of_sensor F (some value) w =
    let celsius = F.div (F.single (F.of_ℤ (value -ℤ pos 273150000))) (F.of_ℕ 1000000) in
    bprintf (lit "%d") (int (F.trunc celsius) ∷ []) w

-- `"%d.%d", (temp - 2731) / 10, abs((temp - 2731) % 10)`
unfoldable pub print_tenths : Option ℤ → Try Text
print_tenths none = null
print_tenths (some temp) =
    let celsius = temp -ℤ pos 2731 in
    let tenths = (pos_part celsius + neg_part celsius) % 10 in
    bprintf (lit "%d.%d") (int (quot celsius (pos 10)) ∷ int (pos tenths) ∷ [])

-- On FreeBSD, from tenths of a kelvin, for a zone.
unfoldable pub temp_of_zone : (sysctlbyname : Text → Option ℤ) → Text → Try Text
unfolding print_tenths
temp_of_zone sysctlbyname zone =
    print_tenths
      (sysctlbyname (vsnprintf 256 (lit "hw.acpi.thermal.%s.temperature") (str (some zone) ∷ [])).0)
