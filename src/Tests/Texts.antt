-- ===== src/Tests/Texts.antt =====
-- Inputs for the components that make texts from files and symbols.
use slstatus.Prelude.{◌≡◌, none, some, if◌then◌else◌}
use slstatus.Prelude.Int.{pos}
use slstatus.Prelude.Text.{lit, text_eq}
use slstatus.Stdio.Decimal.{show_int}
use slstatus.Util.{World}
use slstatus.Stdio.Scan.{set}
use slstatus.Backlight.{icon_of, icon_of_perc, strtoul}
use slstatus.Backlight.Icons.{icon_of_perc-strtoul}
use slstatus.Memory.{Meminfo}
use slstatus.Keymap.{get_layout, strtok}
use slstatus.Keymap.Layout.{get_layout_lem, nth_or_last, layouts}
use slstatus.Tests.{quiet_world}

icon_of_perc-strtoul_example :
    (strtoul (show_int (pos 60)) ≡ 60)
    × (icon_of_perc (strtoul (show_int (pos 60))) ≡ icon_of (pos 60))
icon_of_perc-strtoul_example = icon_of_perc-strtoul 60

abbrev memory : Meminfo
memory = record { total = 16000000; free = 4000000; buffers = 1000000; cached = 3000000 }

-- A counter of eth0 that stands at 5100.
abbrev one_counter : World
one_counter = record quiet_world {
  files = λ path.
      if text_eq path (lit "/sys/class/net/eth0/statistics/rx_bytes")
      then some (lit "5100")
      else none;
}

get_layout_lem_example :
    get_layout (lit "pc+us+inet(evdev)+de:2") 1
    ≡ nth_or_last none 1 (layouts (strtok (lit "pc+us+inet(evdev)+de:2")))
get_layout_lem_example = get_layout_lem (lit "pc+us+inet(evdev)+de:2") 1
