-- ===== src/Pa/Texts.antt =====
-- The texts of components/pa.c.
use slstatus.Prelude.{ℕ, not, [], ◌∷◌, Option, none, some, if◌then◌else◌}
use slstatus.Prelude.Int.{pos, eqb_ℤ, ltb_ℤ}
use slstatus.Prelude.Text.{Text, lit, glyph}
use slstatus.Stdio.Format.{str, int}
use slstatus.Util.{World, bprintf}
use slstatus.Pool.{TailQueue}
use slstatus.Pa.{Entry, Pa, pa_find_by_sink}

module _ (T : TailQueue) where
  abbrev pub entry_at : ℕ → Pa T → Option Entry
  entry_at p s = s.pool.cells p

  unfoldable pub icon_of : Entry → Text
  icon_of e =
      if not (eqb_ℤ e.mute (pos 0))
      then glyph 0xf0581
      else if ltb_ℤ e.volume (pos 34)
      then glyph 0xf057f
      else if ltb_ℤ e.volume (pos 67)
      then glyph 0xf0580
      else glyph 0xf057e

  pub print_line : Option Entry → World → Option Text × World
  unfolding icon_of
  print_line none w = (none, w)
  print_line (some e) w = bprintf (lit "%s %d%%") (str (some (icon_of e)) ∷ int e.volume ∷ []) w

  print_perc : Option Entry → World → Option Text × World
  print_perc none w = (none, w)
  print_perc (some e) w = bprintf (lit "%d") (int e.volume ∷ []) w

  -- A text made of the entry of a sink. `none` is a crash.
  unfoldable pub of_entry :
      (Option Entry → World → Option Text × World)
      → Option (ℕ × Pa T)
      → World
      → Option (Option Text × Pa T × World)
  of_entry print none w = none
  of_entry print (some (p, s)) w = let (res, w') = print (entry_at p s) w in some (res, s, w')

  unfoldable pub pa_line : Option Text → Pa T → World → Option (Option Text × Pa T × World)
  unfolding of_entry print_line
  pa_line sink s w = of_entry print_line (pa_find_by_sink T sink s) w

  unfoldable pub pa_description : Option Text → Pa T → World → Option (Option Text × Pa T × World)
  unfolding of_entry
  pa_description sink s w =
      of_entry (λ o w'. (elim o [ none ↦ none | some e ↦ e.description ], w'))
        (pa_find_by_sink T sink s) w

  unfoldable pub pa_mute : Option Text → Pa T → World → Option (Option Text × Pa T × World)
  unfolding of_entry
  pa_mute sink s w =
      of_entry
        (λ o w'. (
          elim o [
            | none ↦ none
            | some e ↦ if not (eqb_ℤ e.mute (pos 0)) then some (lit "+") else some (lit "-")
          ],
          w',
        ))
        (pa_find_by_sink T sink s) w

  unfoldable pub pa_name : Option Text → Pa T → World → Option (Option Text × Pa T × World)
  unfolding of_entry
  pa_name sink s w =
      of_entry (λ o w'. (elim o [ none ↦ none | some e ↦ e.name ], w')) (pa_find_by_sink T sink s) w

  unfoldable pub pa_perc : Option Text → Pa T → World → Option (Option Text × Pa T × World)
  unfolding of_entry print_perc
  pa_perc sink s w = of_entry print_perc (pa_find_by_sink T sink s) w
