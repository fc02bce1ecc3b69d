-- ===== src/Tests/Systems.antt =====
-- Inputs for the components that ask the system once: Wi-Fi, swap, addresses, volume, indicators.
use slstatus.Prelude.{
  ◌≤◌, ◌≡◌, refl, true, false, List, [], ◌∷◌, ◌++◌, none, some, arith, if◌then◌else◌, length, All,
  concat, map,
}
use slstatus.Prelude.Int.{pos, negsuc}
use slstatus.Prelude.Text.{Text, lit, text_eq}
use slstatus.Util.{World}
use slstatus.Wifi
use slstatus.Wifi.Attributes
use slstatus.Wifi.Attributes.Encode.{Attr, encode, bytes_of, lookup, findattr-encode}
use slstatus.Swap.{Wanted, Values, get_swap_info, lines_of, count_left}
use slstatus.Swap.Lines.{read_all, hits, get_swap_info-read_all}
use slstatus.Indicators.{keyboard_indicators}
use slstatus.Indicators.Items.{Item, caps, num, written, described, keyboard_indicators-described}
use slstatus.Addresses
use slstatus.Addresses.First.{first_entry, named, ip_answer, up_answer, ip-up-first}
use slstatus.Volume
use slstatus.Volume.Sndio
use slstatus.Volume.Sndio.Controls.{AreDistinct, Holds}
use slstatus.Volume.Sndio.Polls.{vol_perc-AreDistinct}
use slstatus.Volume.Closes.{IsUse, reads_range, vol_perc-closes}
use slstatus.Tests.{whole_numbers, quiet_world}

-- The SSID behind an attribute whose payload has one byte, and so three bytes of padding.
abbrev attributes : List Attr
attributes =
    record { type = 3; payload = 7 ∷ [] } ∷ record { type = 52; payload = 104 ∷ 105 ∷ [] } ∷ []

findattr-encode_example :
    (bytes_of
        (Attributes.findattr 52 (length (encode attributes)) (encode attributes ++ lit "old bytes"))
      ≡ some (lookup 52 attributes))
    × (bytes_of (
          Attributes.findattr_from 40 52
            (length (encode attributes))
            (encode attributes ++ lit "old bytes"))
        ≡ some (lookup 52 attributes))
findattr-encode_example =
    findattr-encode 52 40 attributes (lit "old bytes")
      (
        record { type = omega arith; size = omega arith },
        (record { type = omega arith; size = omega arith }, tt),
      )
      (omega arith)

-- The socket is open, and the index of wlan0 is kept.
abbrev asked_before : Wifi.Wifi
asked_before = record {
  nlsock = pos 3;
  seq = 4;
  resp = [];
  id = 28;
  ifsock = pos 5;
  ifr_name = 119 ∷ 48 ∷ [];
  ifr_ifindex = pos 2;
  strength = [];
  sent = [];
}

abbrev no_such_interface : Wifi.IndexAnswers
no_such_interface = record { socket = pos 5; ifindex = none }

abbrev there_now : Wifi.IndexAnswers
there_now = record { socket = pos 5; ifindex = some (pos 7) }

abbrev meminfo : Text
meminfo = lit "MemTotal: 9 kB\nSwapTotal: 8 kB\nSwapFree: 3 kB\n"

abbrev with_meminfo : World
with_meminfo = record quiet_world {
  files = λ path. if text_eq path (lit "/proc/meminfo") then some meminfo else none;
}

abbrev all_wanted : Wanted
all_wanted = record { total = true; free = true; cached = true }

abbrev zeros : Values
zeros = record { total = pos 0; free = pos 0; cached = pos 0 }

meminfo_opens : with_meminfo.files (lit "/proc/meminfo") ≡ some meminfo
unfolding lit
meminfo_opens = refl

hits-meminfo : hits all_wanted (lines_of meminfo) zeros ≤ count_left all_wanted
unfolding lit lines_of count_left slstatus.Swap.read_line slstatus.Keymap.starts_with
hits-meminfo = omega arith

get_swap_info-read_all_example :
    get_swap_info false all_wanted zeros with_meminfo
    ≡ (0, read_all all_wanted (lines_of meminfo) zeros, with_meminfo)
get_swap_info-read_all_example =
    get_swap_info-read_all all_wanted zeros with_meminfo meminfo meminfo_opens hits-meminfo

-- "C?n"
abbrev items : List Item
items =
    record { lock = caps; upper = true; optional = true }
    ∷ record { lock = num; upper = false; optional = false }
    ∷ []

keyboard_indicators-described_example :
    keyboard_indicators (some 2) (concat (map written items)) quiet_world ≡ (
      some (concat (map (described 2) items)),
      record quiet_world { buf = concat (map (described 2) items) },
    )
keyboard_indicators-described_example =
    keyboard_indicators-described 2 items quiet_world (omega arith)

abbrev loopback : Addresses.Ifaddrs
loopback = record {
  ifa_name = lit "lo";
  ifa_addr = some (record { sa_family = 2; info = Addresses.host (lit "127.0.0.1") });
  up = true;
}

abbrev idle_net : Addresses.Net
idle_net = record { allocated = false; world = quiet_world }

ip-up-first_example :
    (Addresses.ip (some (loopback ∷ [])) (lit "lo") 2 idle_net
      ≡ ip_answer
          (first_entry (Addresses.is_wanted (lit "lo") 2) (loopback ∷ []))
          (record idle_net { allocated = false }))
    × (Addresses.up (λ ifa. false) (some (loopback ∷ [])) (lit "lo") idle_net ≡ (
      up_answer (λ ifa. false) (first_entry (named (lit "lo")) (loopback ∷ [])),
      record idle_net { allocated = false },
    ))
ip-up-first_example = ip-up-first (λ ifa. false) (lit "lo") 2 (loopback ∷ []) idle_net

-- The element is found, but has no range.
abbrev no_range : Volume.Alsa
no_range = record {
  opened = pos 0;
  attached = pos 0;
  registered = pos 0;
  loaded = pos 0;
  found = true;
  ranged = negsuc 21;
  min = pos 0;
  max = pos 0;
  got = pos 0;
  volume = pos 0;
}

vol_perc-closes_example :
    (before : List Volume.Call) × ((Volume.vol_perc whole_numbers no_range
        (lit "Master")
        quiet_world).1
      ≡ Volume.mixer_open ∷ (before ++ (Volume.free ∷ Volume.detach ∷ Volume.close ∷ [])))
    × All IsUse before
    × ((Volume.vol_perc whole_numbers no_range (lit "Master") quiet_world).0 ≡ (
        if reads_range no_range
        then (Volume.vol_perc whole_numbers no_range (lit "Master") quiet_world).0
        else none))
vol_perc-closes_example = vol_perc-closes whole_numbers no_range (lit "Master") quiet_world refl

-- Two controls of one device, of which the first is described again.
abbrev left : Sndio.Desc
left = record {
  addr = 4;
  type = Sndio.num;
  func = lit "level";
  group = [];
  node = lit "output";
  maxval = 255;
}

abbrev muted : Sndio.Desc
muted = record left { addr = 5; type = Sndio.sw; func = lit "mute"; maxval = 1 }

abbrev device : Sndio.Answers
device = record {
  opens = true;
  ondesc = true;
  onval = true;
  calloc = true;
  known = Sndio.described true (some left) 200 ∷ Sndio.described true (some muted) 0 ∷ [];
}

abbrev poll : Sndio.Poll
poll = record {
  pollfd = pos 1;
  poll = pos 1;
  hup = false;
  events = Sndio.changed 5 1 ∷ Sndio.described true (some left) 100 ∷ [];
}

abbrev not_yet : Sndio.Sndio
not_yet = record { controls = []; pfds = false; hdl = false; initialized = false }

vol_perc-AreDistinct_example :
    Holds (λ t. AreDistinct t.1.controls) (Sndio.vol_perc device poll not_yet quiet_world)
vol_perc-AreDistinct_example = vol_perc-AreDistinct device poll not_yet quiet_world tt
