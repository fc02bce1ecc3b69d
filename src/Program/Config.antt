-- ===== src/Program/Config.antt =====
-- The table `args` of config.def.h over the state of the components.
pub mod Crash
pub mod Keeps
use mathlib.Core.Option.{get_or}
use slstatus.Prelude.{ℕ, Bool, true, List, [], ◌∷◌, ◌++◌, Option, none, some}
use slstatus.Prelude.Int.{ℤ, pos, negsuc}
use slstatus.Prelude.Text.{Text, lit, glyph}
use slstatus.Util.{World}
use slstatus.Util.Float.{Float}
use slstatus.Pool.{TailQueue}
use slstatus.Bar.{Arg}
use slstatus.Backlight.{backlight_line, backlight_signal}
use slstatus.Keymap.{keymap}
use slstatus.Nm
use slstatus.Nm.Lines.{nm_line}
use slstatus.Pa
use slstatus.Pa.Texts.{pa_line}
use slstatus.Ppd.{ppd_line, ppd_signal}
use slstatus.System.{datetime}
use slstatus.Upower.Texts.{upower_line}
use slstatus.Upower.{upower_signal}
use slstatus.Program.{Components}

-- The argument of a function that does not expect NULL.
abbrev pub given : Option Text → Text
given o = get_or o []

module _ (F : Float) (T : TailQueue) (new_id : List Nm.Call → ℕ) where
  -- A function of a component, over the state of all.
  abbrev pub Function : Type 0
  Function =
      Option Text → Components F T new_id → World → Option Text × Components F T new_id × World

  unfoldable pub call_nm_line : Function
  call_nm_line o s w =
      let (res, nm, w') = nm_line T new_id s.outside.net (given o) s.nm w in
      (res, record s { nm = nm }, w')

  unfoldable pub call_keymap : Function
  call_keymap o s w = let (res, w') = keymap s.outside.xlib w in (res, s, w')

  -- A read at NULL ends the program: nothing is returned.
  pa_result :
      Components F T new_id
      → World
      → Option (Option Text × Pa.Pa T × World)
      → Option Text × Components F T new_id × World
  pa_result s w none = (none, record s { crashed = true }, w)
  pa_result s w (some (res, pa, w')) =
      (res, record s { connection = record s.connection { pa = pa } }, w')

  unfoldable pub call_pa_line : Function
  unfolding pa_result
  call_pa_line o s w = pa_result s w (pa_line T o s.connection.pa w)

  unfoldable pub call_backlight_line : Function
  call_backlight_line o s w =
      let (res, backlight, w') = backlight_line F T (given o) s.backlight w in
      (res, record s { backlight = backlight }, w')

  unfoldable pub call_upower_line : Function
  call_upower_line o s w =
      let (res, upower, w') = upower_line F T (given o) s.upower w in
      (res, record s { upower = upower }, w')

  unfoldable pub call_ppd_line : Function
  call_ppd_line o s w = (ppd_line s.ppd, s, w)

  unfoldable pub call_datetime : Function
  call_datetime o s w = let (res, w') = datetime s.outside.strftime (given o) w in (res, s, w')

  abbrev entry : Function → Text → Option Text → ℕ → ℤ → Arg (Components F T new_id)
  entry f fmt o turn signal = record { func = f; fmt = fmt; args = o; turn = turn; signal = signal }

  unfoldable pub args : List (Arg (Components F T new_id))
  args =
      entry call_nm_line (lit " %s ") (some (lit "enp0s20f0u4u4u3")) 0 (pos Nm.nm_signal)
      ∷ entry call_nm_line (lit " %s ") (some (lit "wlp2s0f0")) 0 (pos Nm.nm_signal)
      ∷ entry call_keymap (lit " " ++ glyph 0xf030c ++ lit " %s ") none 1 (negsuc 0)
      ∷ entry call_pa_line (lit " %s ") none 0 (pos Pa.pa_signal)
      ∷ entry call_backlight_line (lit " %s ") (some (lit "intel_backlight")) 1
          (pos backlight_signal)
      ∷ entry call_upower_line (lit " %s ") (some (lit "BAT0")) 0 (pos upower_signal)
      ∷ entry call_ppd_line (lit " %s ") none 0 (pos ppd_signal)
      ∷ entry call_datetime (lit " " ++ glyph 0xf073 ++ lit " %s") (some (lit "%a %d %b %H:%M")) 1
          (negsuc 0)
      ∷ []
