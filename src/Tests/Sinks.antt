-- ===== src/Tests/Sinks.antt =====
-- Inputs for the components that watch sound and backlights.
use slstatus.Prelude.{◌⊎◌, ℕ, ◌+◌, ◌≡◌, refl, true, false, [], none, some}
use slstatus.Prelude.Int.{pos}
use slstatus.Prelude.Text.{Text, lit, text_eq}
use slstatus.Util.{kill}
use slstatus.Bar.{sigrtmin}
use slstatus.Pool.{empty, insert, find_by}
use slstatus.Pool.Find.{IsLinked, IsLinked-empty}
use slstatus.Pa
use slstatus.Pa.Sink.{pa_find_by_sink-default}
use slstatus.Pa.Named.{pa_find_by_sink-named}
use slstatus.Pa.Info.{pa_sink_info_callback_lem, IsSame, filled}
use slstatus.Pa.Init.{Answers, pa_init, pa_init_lem}
use slstatus.Backlight
use slstatus.Tests.{whole_numbers, quiet_world, list_queue}

abbrev silent : Pa.Pa list_queue
silent = record { pool = empty list_queue; default_sink = none; requests = []; accepts = true }

pa_find_by_sink-default_example :
    (p : ℕ) × (s' : Pa.Pa list_queue) × (Pa.pa_find_by_sink list_queue none silent ≡ some (p, s'))
    × (Pa.pa_find_by_sink list_queue none s' ≡ some (p, s'))
    × IsLinked list_queue s'.pool
    × (s'.accepts ≡ true)
pa_find_by_sink-default_example =
    pa_find_by_sink-default list_queue silent (IsLinked-empty list_queue) refl

abbrev speakers : Pa.Entry
speakers = record {
  sink = none;
  name = none;
  description = none;
  index = 0;
  volume = pos 0;
  mute = pos 0;
}

abbrev half : Pa.SinkInfo
half = record {
  index = 3;
  volume = 32768;
  mute = pos 0;
  name = lit "alsa_output";
  description = lit "Speakers";
}

abbrev one_sink : Pa.Pa list_queue
one_sink = record silent { pool = insert list_queue speakers (empty list_queue) }

speakers_cell : one_sink.pool.cells 0 ≡ some speakers
unfolding insert empty
speakers_cell = refl

pa_sink_info_callback_lem_example :
    let r =
      Pa.pa_sink_info_callback list_queue whole_numbers
        (some half)
        (pos 0)
        0
        one_sink
        quiet_world in
    let again =
      Pa.pa_sink_info_callback list_queue whole_numbers (some half) (pos 0) 0 r.0 quiet_world in
    (r.0.pool.cells 0 ≡ some (filled whole_numbers list_queue half 0 speakers))
    × ((IsSame whole_numbers list_queue half 0 speakers × (r.1 ≡ quiet_world))
        ⊎ ((¬ IsSame whole_numbers list_queue half 0 speakers)
            × (r.1 ≡ kill (sigrtmin + Pa.pa_signal) quiet_world)))
    × (again.0.pool.cells 0 ≡ some (filled whole_numbers list_queue half 0 speakers))
    × (again.1 ≡ quiet_world)
pa_sink_info_callback_lem_example =
    pa_sink_info_callback_lem whole_numbers list_queue half 0 speakers one_sink quiet_world
      quiet_world speakers_cell

abbrev refused : Answers
refused = record {
  loop_new = true;
  context_new = true;
  connect = pos 0;
  start = pos 0;
  ready = false;
}

pa_init_lem_example :
    ((pa_init refused).locked ≡ false)
    × ((pa_init refused).pa_loop ≡ false)
    × ((pa_init refused).pa_ctx ≡ false)
    × ((pa_init refused).running ≡ false)
    × ((pa_init refused).loops ≡ 0)
    × ((pa_init refused).contexts ≡ 0)
pa_init_lem_example = pa_init_lem refused

abbrev panel : Backlight.Device
panel = record {
  sysname = lit "intel_backlight";
  brightness = lit "300";
  max_brightness = lit "400";
}

abbrev dim : Backlight.Entry
dim = record { name = lit "intel_backlight"; brightness = pos 20 }

abbrev one_panel : Backlight.Backlight whole_numbers list_queue
one_panel = record { pool = insert list_queue dim (empty list_queue); udev = none }

panel_found : find_by list_queue (λ e. text_eq e.name panel.sysname) one_panel.pool ≡ some 0
unfolding find_by insert empty lit
panel_found = refl

dim_cell : one_panel.pool.cells 0 ≡ some dim
unfolding insert empty
dim_cell = refl

pa_find_by_sink-named_example :
    (p : ℕ) × (s' : Pa.Pa list_queue) × (Pa.pa_find_by_sink list_queue none silent ≡ some (p, s'))
    × ((name : Text) → Pa.pa_find_by_sink list_queue (some name) s' ≡ none)
unfolding empty
pa_find_by_sink-named_example = pa_find_by_sink-named list_queue silent refl refl
