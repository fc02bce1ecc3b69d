-- ===== src/Battery/OpenBsd.antt =====
-- The part of components/battery.c for OpenBSD. /dev/apm is what its calls return; it is closed on
-- every path.
use slstatus.Prelude.{
  ℕ, ◌/◌, ◌%◌, Bool, true, false, not, [], ◌∷◌, Option, none, some, ◌==◌, ltb, if◌then◌else◌,
}
use slstatus.Prelude.Int.{pos}
use slstatus.Prelude.Text.{Text, lit}
use slstatus.Stdio.Decimal.{show_nat}
use slstatus.Stdio.Format.{str, int, uint}
use slstatus.Util.{Try, ◌>>=◌, bprintf, return, warn}

-- APM_AC_OFF and APM_AC_ON of machine/apmvar.h.
abbrev pub apm_ac_off : ℕ
apm_ac_off = 0

abbrev pub apm_ac_on : ℕ
apm_ac_on = 1

-- The members of `struct apm_power_info` that are read.
pub record ApmPowerInfo : Type 0 where
  pub battery_life : ℕ
  pub ac_state : ℕ
  pub minutes_left : ℕ

-- `opens`: whether /dev/apm opens; `info`: what ioctl stores, `none` where it fails.
unfoldable pub load_apm_power_info :
    (opens : Bool) → (info : Option ApmPowerInfo) → Try ApmPowerInfo
load_apm_power_info false info w = (none, warn (lit "open '/dev/apm':") [] w)
load_apm_power_info true none w = (none, warn (lit "ioctl 'APM_IOC_GETPOWER':") [] w)
load_apm_power_info true (some info) w = (some info, w)

unfoldable pub battery_perc : Bool → Option ApmPowerInfo → Try Text
unfolding load_apm_power_info
battery_perc opens info =
    load_apm_power_info opens info >>= λ a. bprintf (lit "%d") (int (pos a.battery_life) ∷ [])

-- The walk over `map`.
abbrev pub symbol_of : ℕ → Text
symbol_of ac_state =
    if ac_state == apm_ac_on then lit "+" else if ac_state == apm_ac_off then lit "-" else lit "?"

unfoldable pub battery_state : Bool → Option ApmPowerInfo → Try Text
unfolding load_apm_power_info
battery_state opens info = load_apm_power_info opens info >>= λ a. return (symbol_of a.ac_state)

-- What %02u prints, as the text that stands for it among the arguments.
abbrev pub two_digits : ℕ → Text
two_digits n = if ltb n 10 then b'0' ∷ show_nat n else show_nat n

-- "%uh %02um"
unfoldable pub print_minutes : ℕ → Try Text
print_minutes n = bprintf (lit "%uh %02um") (uint (n / 60) ∷ str (some (two_digits (n % 60))) ∷ [])

unfoldable pub battery_remaining : Bool → Option ApmPowerInfo → Try Text
unfolding load_apm_power_info print_minutes
battery_remaining opens info = load_apm_power_info opens info >>= λ a.
    if not (a.ac_state == apm_ac_on) then print_minutes a.minutes_left else return []
