-- ===== src/Upower/Texts.antt =====
-- The texts of components/upower.c.
use slstatus.Prelude.{ℕ, [], ◌∷◌, Option, none, some}
use slstatus.Prelude.Text.{Text, lit}
use slstatus.Stdio.Format.{str, int}
use slstatus.Util.{World, bprintf}
use slstatus.Util.Float.{Float}
use slstatus.Pool.{TailQueue}
use slstatus.Upower.{Entry, Upower, icon_of, upower_find}

module _ (F : Float) where
  open F use {trunc}

  module _ (T : TailQueue) where
    -- The entry behind a pointer that `upower_find` returned.
    abbrev pub entry_at : Option ℕ → Upower F T → Option (Entry F)
    entry_at none s = none
    entry_at (some p) s = s.pool.cells p

    print_line : Option (Entry F) → World → Option Text × World
    unfolding icon_of
    print_line none w = (none, w)
    print_line (some e) w =
        bprintf (lit "%s %d%%") (str (some (icon_of F e)) ∷ int (trunc e.percentage) ∷ []) w

    print_perc : Option (Entry F) → World → Option Text × World
    print_perc none w = (none, w)
    print_perc (some e) w = bprintf (lit "%d") (int (trunc e.percentage) ∷ []) w

    unfoldable pub upower_line : Text → Upower F T → World → Option Text × Upower F T × World
    unfolding upower_find print_line
    upower_line name s w =
        let (p, s', w') = upower_find F T name s w in
        let (res, w'') = print_line (entry_at p s') w' in (res, s', w'')

    unfoldable pub upower_perc : Text → Upower F T → World → Option Text × Upower F T × World
    unfolding upower_find print_perc
    upower_perc name s w =
        let (p, s', w') = upower_find F T name s w in
        let (res, w'') = print_perc (entry_at p s') w' in (res, s', w'')

    -- `to_string` is `up_device_state_to_string` of libupower-glib.
    unfoldable pub upower_state :
        (to_string : ℕ → Text) → Text → Upower F T → World → Option Text × Upower F T × World
    unfolding upower_find
    upower_state to_string name s w =
        let (p, s', w') = upower_find F T name s w in
        (elim (entry_at p s') [ none ↦ none | some e ↦ some (to_string e.state) ], s', w')
