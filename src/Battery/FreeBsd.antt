-- ===== src/Battery/FreeBsd.antt =====
-- The part of components/battery.c for FreeBSD. The arguments are what sysctlbyname stores, `none`
-- where it fails or stores nothing.
use slstatus.Prelude.{◌||◌, [], ◌∷◌, Option, none, some, if◌then◌else◌}
use slstatus.Prelude.Int.{ℤ, pos, pos_part, eqb_ℤ, ltb_ℤ}
use slstatus.Prelude.Text.{Text, lit}
use slstatus.Stdio.Format.{int}
use slstatus.Util.{Try, bprintf, null, return}
use slstatus.Battery.OpenBsd.{print_minutes}

unfoldable pub battery_perc : Option ℤ → Try Text
battery_perc none = null
battery_perc (some cap_perc) = bprintf (lit "%d") (int cap_perc ∷ [])

-- The `switch`.
abbrev pub symbol_of : ℤ → Text
symbol_of state =
    if eqb_ℤ state (pos 0) || eqb_ℤ state (pos 2)
    then lit "+"
    else if eqb_ℤ state (pos 1)
    then lit "-"
    else lit "?"

unfoldable pub battery_state : Option ℤ → Try Text
battery_state none = null
battery_state (some state) = return (symbol_of state)

unfoldable pub battery_remaining : Option ℤ → Try Text
unfolding print_minutes
battery_remaining none = null
battery_remaining (some rem) = if ltb_ℤ rem (pos 0) then null else print_minutes (pos_part rem)
