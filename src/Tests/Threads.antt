-- ===== src/Tests/Threads.antt =====
-- Inputs for the two threads of the backlights.
use slstatus.Prelude.{◌≡◌, refl, true, false, List, [], ◌∷◌, ◌++◌, Option, some}
use slstatus.Prelude.Text.{Text, lit}
use slstatus.Backlight
use slstatus.Backlight.Thread.{
  Answer, System, statics, backlight_init, backlight_loop, find, backlight_free, receiving,
  received, Reaches, initialised, then_step, watch, look,
}
use slstatus.Backlight.Thread.Alive.{IsSound, Reaches-IsSound, free-receiving}
use slstatus.Backlight.Thread.Whole.{Lookup, Round, finds, whole, is_busy, Round-whole}
use slstatus.Tests.{whole_numbers, quiet_world, list_queue}

abbrev panel : Backlight.Device
panel = record { sysname = lit "intel"; brightness = lit "300"; max_brightness = lit "1000" }

abbrev dimmed : Backlight.Device
dimmed = record panel { brightness = lit "100" }

abbrev devices : Option (Text → Option Backlight.Device)
devices = some (λ path. some panel)

abbrev Threads : Type 0
Threads = System whole_numbers list_queue

abbrev on : Answer
on = record { monitor = true; device = some dimmed }

abbrev step : Threads → Threads
step s = backlight_loop whole_numbers list_queue on s

abbrev begun : Threads
begun =
    backlight_init whole_numbers list_queue devices (statics whole_numbers list_queue quiet_world)

-- The thread waits for a device, and the main thread has looked the panel up.
abbrev waits : Threads
waits = find whole_numbers list_queue (lit "intel") true (step (step (step (step (step begun)))))

waits-Reaches : Reaches whole_numbers list_queue devices quiet_world waits
waits-Reaches =
    then_step _ _
      (then_step _ _
        (then_step _ _
          (then_step _ _ (then_step _ _ (then_step _ _ initialised (watch on)) (watch on))
            (watch on))
          (watch on))
        (watch on))
      (look (lit "intel") true)

waits_place : waits.thread ≡ receiving (some 0)
unfolding backlight_loop find backlight_init
waits_place = refl

free-receiving_example :
    (t : Threads) × (backlight_free whole_numbers list_queue waits ≡ some t)
    × (t.thread ≡ receiving (some 0))
    × (t.references 0 ≡ 0)
free-receiving_example =
    free-receiving whole_numbers list_queue devices quiet_world waits 0 waits-Reaches waits_place

-- The thread has received the panel.
abbrev noticed : Threads
noticed = step waits

Reaches-IsSound_example : IsSound whole_numbers list_queue noticed
Reaches-IsSound_example =
    Reaches-IsSound whole_numbers list_queue devices quiet_world noticed
      (then_step _ _ waits-Reaches (watch on))

abbrev looks : List Lookup
looks = (lit "other", true) ∷ (lit "intel", false) ∷ []

abbrev finished : Threads
finished = step (
    find whole_numbers list_queue (lit "intel") false
      (step (find whole_numbers list_queue (lit "other") true (step noticed))))

noticed-Round : Round whole_numbers list_queue finished looks noticed
unfolding backlight_loop find backlight_init is_busy Backlight.backlight_find slstatus.Pool.find_by
    slstatus.Pool.empty slstatus.Pool.insert slstatus.Util.esnprintf_all
    slstatus.Stdio.Format.vsnprintf slstatus.Stdio.Format.format
noticed-Round = Round.watch on looks noticed refl (
    Round.look (lit "other") true ((lit "intel", false) ∷ []) (step noticed) (
      Round.watch on ((lit "intel", false) ∷ []) _ refl
        (Round.look (lit "intel") false [] _ (Round.watch on [] _ refl (Round.over refl)))))

noticed_place : noticed.thread ≡ received dimmed
unfolding backlight_loop find backlight_init
noticed_place = refl

Round-whole_example :
    (before : List Lookup) × (after : List Lookup) × (looks ≡ before ++ after)
    × (finished
        ≡ finds whole_numbers list_queue after
            (whole whole_numbers list_queue dimmed (finds whole_numbers list_queue before noticed)))
Round-whole_example =
    Round-whole whole_numbers list_queue finished looks dimmed noticed noticed-Round noticed_place
      Reaches-IsSound_example.linked
