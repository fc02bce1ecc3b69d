-- ===== src/Tests/Devices.antt =====
-- Inputs for the components that watch devices.
use slstatus.Prelude.{◌≡◌, refl, true, [], ◌∷◌, none, some, get_elem?}
use slstatus.Prelude.Text.{lit}
use slstatus.Pool.{empty, find_by}
use slstatus.Pool.Find.{IsLinked, IsLinked-empty}
use slstatus.Upower
use slstatus.Pool.Registry.{shown, registry}
use slstatus.Upower.Registry.{name_of, left_by, answer, upower_find-registry}
use slstatus.Upower.Icons.{icons-row, discharging_icons, charging_icons, row}
use slstatus.Mm
use slstatus.Tests.{whole_numbers, quiet_world, list_queue}

abbrev battery : Upower.Device whole_numbers
battery = record { native_path = lit "BAT0"; kind = 2; model = none; percentage = 73; state = 2 }

abbrev no_batteries_yet : Upower.Upower whole_numbers list_queue
no_batteries_yet = Upower.upower_init whole_numbers list_queue (some (battery ∷ []))

upower-IsLinked : IsLinked list_queue no_batteries_yet.pool
unfolding Upower.upower_init
upower-IsLinked = IsLinked-empty list_queue

upower_find-registry_example :
    shown (name_of whole_numbers) list_queue (
      left_by whole_numbers list_queue
        (Upower.upower_find whole_numbers list_queue (lit "BAT0") no_batteries_yet quiet_world))
    ≡ answer whole_numbers
        (lit "BAT0")
        no_batteries_yet.client
        (registry (name_of whole_numbers) list_queue no_batteries_yet.pool)
upower_find-registry_example =
    upower_find-registry whole_numbers list_queue (lit "BAT0") no_batteries_yet quiet_world
      upower-IsLinked

icons-row_example :
    (get_elem? discharging_icons (row 73 5 11) ≡ some (Upower.discharging_icon whole_numbers 73))
    × (get_elem? charging_icons (row 73 5 11) ≡ some (Upower.charging_icon whole_numbers 73))
icons-row_example = icons-row whole_numbers 73

abbrev modem : Mm.Modem
modem = record { id = 1; ports = lit "cdc" ∷ lit "wwan0" ∷ []; state = 11; signal_quality = 60 }

abbrev no_modems_yet : Mm.Mm list_queue
no_modems_yet = record { pool = empty list_queue; manager = true; notified = [] }

mm_made : (Mm.mm_find list_queue (lit "wwan0") (modem ∷ []) no_modems_yet).0 ≡ some 0
unfolding Mm.mm_find find_by empty lit
mm_made = refl
