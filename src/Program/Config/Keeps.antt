-- ===== src/Program/Config/Keeps.antt =====
-- What the functions of the table `args` of config.def.h keep of the components' state.
use slstatus.Prelude.{◌∙◌, some, ℕ, true, List, Option, none, All}
use slstatus.Prelude.Text.{Text}
use slstatus.Util.{World}
use slstatus.Util.Float.{Float}
use slstatus.Pool.{TailQueue}
use slstatus.Backlight
use slstatus.Backlight.Links.{backlight_find-IsLinked}
use slstatus.Nm
use slstatus.Nm.Lines.{nm_line}
use slstatus.Nm.Links.{nm_find-IsLinked}
use slstatus.Pa
use slstatus.Pa.Heard.{pa_find_by_sink-FoundLinked}
use slstatus.Pa.Links.{FoundLinked}
use slstatus.Pa.Texts.{pa_line, of_entry, print_line}
use slstatus.Upower.Find.{upower_find-IsLinked}
use slstatus.Upower.Texts.{upower_line}
use slstatus.Program.{Components}
use slstatus.Program.Linked.{
  AreLinked, backlight-AreLinked, nm-AreLinked, pa-AreLinked, upower-AreLinked, crash-AreLinked,
}
use slstatus.Program.Config.{
  Function, given, call_nm_line, call_keymap, pa_result, call_pa_line, call_backlight_line,
  call_upower_line, call_ppd_line, call_datetime, args,
}

module _ (F : Float) (T : TailQueue) (new_id : List Nm.Call → ℕ) where
  -- A function that is called with an argument in a sound state leaves a sound state.
  abbrev Keeps : Function F T new_id → Option Text → Type 0
  Keeps f o =
      (s : Components F T new_id) (w : World)
      → AreLinked F T new_id s
      → AreLinked F T new_id (f o s w).1

  call_nm_line-Keeps : (o : Option Text) → Keeps (call_nm_line F T new_id) o
  unfolding call_nm_line nm_line
  call_nm_line-Keeps o s w h =
      nm-AreLinked F T new_id h (nm_find-IsLinked T new_id s.outside.net (given o) s.nm w h.nm)

  call_backlight_line-Keeps : (o : Option Text) → Keeps (call_backlight_line F T new_id) o
  unfolding call_backlight_line Backlight.backlight_line
  call_backlight_line-Keeps o s w h =
      backlight-AreLinked F T new_id h
        (backlight_find-IsLinked F T (given o) true s.backlight w h.backlight)

  call_upower_line-Keeps : (o : Option Text) → Keeps (call_upower_line F T new_id) o
  unfolding call_upower_line upower_line
  call_upower_line-Keeps o s w h =
      upower-AreLinked F T new_id h (upower_find-IsLinked F T (given o) s.upower w h.upower)

  call_keymap-Keeps : (o : Option Text) → Keeps (call_keymap F T new_id) o
  unfolding call_keymap
  call_keymap-Keeps o s w h = h

  call_ppd_line-Keeps : (o : Option Text) → Keeps (call_ppd_line F T new_id) o
  unfolding call_ppd_line
  call_ppd_line-Keeps o s w h = h

  call_datetime-Keeps : (o : Option Text) → Keeps (call_datetime F T new_id) o
  unfolding call_datetime
  call_datetime-Keeps o s w h = h

  pa_result-Keeps :
      (o : Option (ℕ × Pa.Pa T)) (s : Components F T new_id) (w : World)
      → AreLinked F T new_id s
      → FoundLinked T s.connection.pa o
      → AreLinked F T new_id (pa_result F T new_id s w (of_entry T (print_line T) o w)).1
  unfolding pa_result of_entry
  pa_result-Keeps none s w h refused = crash-AreLinked F T new_id h refused
  pa_result-Keeps (some (p, pa)) s w h (linked, same) =
      pa-AreLinked F T new_id h linked (λ e. same ∙ e)

  call_pa_line-Keeps : Keeps (call_pa_line F T new_id) none
  unfolding call_pa_line pa_line
  call_pa_line-Keeps s w h =
      pa_result-Keeps _ s w h (pa_find_by_sink-FoundLinked T s.connection.pa h.pa)

  -- Every function of the table, called with its argument in a sound state, leaves a sound state.
  pub args-AreLinked :
      (s : Components F T new_id) (w : World)
      → AreLinked F T new_id s
      → All (λ a. AreLinked F T new_id (a.func a.args s w).1) (args F T new_id)
  unfolding args
  args-AreLinked s w h = (
    call_nm_line-Keeps _ s w h,
    (
      call_nm_line-Keeps _ s w h,
      (
        call_keymap-Keeps _ s w h,
        (
          call_pa_line-Keeps s w h,
          (
            call_backlight_line-Keeps _ s w h,
            (
              call_upower_line-Keeps _ s w h,
              (call_ppd_line-Keeps _ s w h, (call_datetime-Keeps _ s w h, tt)),
            ),
          ),
        ),
      ),
    ),
  )
