-- ===== src/Wifi/Perc.antt =====
-- `wifi_perc` of components/wifi.c: the walk over the messages of a dump, and the signal's strength.
pub mod Fuel
pub mod Strength
use slstatus.Prelude.{
  ℕ, zero, suc, ◌+◌, ◌-◌, ◌*◌, ◌%◌, Bool, true, false, not, ◌&&◌, List, [], ◌∷◌, ◌++◌, Option, none,
  some, ◌==◌, leb, ltb, if◌then◌else◌, length, drop,
}
use slstatus.Prelude.Int.{ℤ, pos, negsuc, pos_part, ◌+ℤ◌, ltb_ℤ, leb_ℤ}
use slstatus.Prelude.Text.{Text, lit}
use slstatus.Stdio.Format.{str, int, vsnprintf}
use slstatus.Util.{World, warn}
use slstatus.Wifi.Attributes.{Search, found, absent, forever, findattr, read_16, read_32, byte_at}
use slstatus.Wifi.{
  Wifi, Run, returns, loops, waits, and_then, Answers, IndexAnswers, nl80211fam, ifindex, message,
  receive, next_seq, index_bytes, nlmsg_hdrlen, genl_hdrlen, nlm_f_request, attr_ifindex,
}

abbrev pub nlm_f_dump : ℕ
nlm_f_dump = 0x300

abbrev pub nlmsg_done : ℕ
nlmsg_done = 3

abbrev pub cmd_get_station : ℕ
cmd_get_station = 17

abbrev pub attr_sta_info : ℕ
attr_sta_info = 21

abbrev pub sta_info_signal_avg : ℕ
sta_info_signal_avg = 13

-- RSSI_TO_PERC
unfoldable pub rssi_to_perc : ℤ → ℤ
rssi_to_perc rssi =
    if leb_ℤ (negsuc 49) rssi
    then pos 100
    else if leb_ℤ rssi (negsuc 99)
    then pos 0
    else pos (2 * pos_part (rssi +ℤ pos 100))

-- A byte as the `char` that it is, with a sign.
abbrev pub signed_char : ℕ → ℤ
signed_char c = if ltb c 128 then pos c else negsuc (256 - c - 1)

-- `snprintf(strength, sizeof(strength), "%d", RSSI_TO_PERC(*p))`
unfoldable pub print_strength : ℕ → Text
unfolding rssi_to_perc
print_strength c = (vsnprintf 4 (lit "%d") (int (rssi_to_perc (signed_char c)) ∷ [])).0

-- How the search in one message ends: the new strength, or a loop without end.
measured : Search → Text → Option Text
unfolding print_strength
measured forever strength = none
measured absent strength = some strength
measured (found len p) strength =
    if len == 1 then some (print_strength (byte_at 0 p)) else some strength

-- The second search, from the payload of the first up to the end of the message: `m` and `n` are
-- the bytes and their number that the first one searched.
in_station : Search → ℕ → Text → Text → Option Text
unfolding measured
in_station forever n m strength = none
in_station absent n m strength = some strength
in_station (found len p) n m strength =
    measured (findattr sta_info_signal_avg (n - (length m - length p)) p) strength

-- The body of `if (!*strength && …)` for a message of `n` bytes.
unfoldable pub signal_of : ℕ → Text → Text → Option Text
unfolding in_station
signal_of n m strength =
    let head = nlmsg_hdrlen + genl_hdrlen in
    in_station (findattr attr_sta_info (n - head) (drop head m)) (n - head) (drop head m) strength

-- How the walk over a datagram ends: at its end, at the message NLMSG_DONE, or not.
pub data Walk : Type 0 where
  ended : Text → Walk
  finished : Text → Walk
  forever_ : Walk

-- Behind the search: `adv` bytes on is the next message.
walk_on : (type adv : ℕ) → Option Text → (Text → Walk) → Walk
walk_on type adv none next = forever_
walk_on type adv (some strength) next =
    let more = next strength in
    if type == nlmsg_done then finished strength else if adv == 0 then forever_ else more

-- The `for` loop, with `n` for `resp + r - p`, on fuel for one round for each byte.
unfoldable pub walk_messages : (fuel n : ℕ) → Text → Text → Walk
unfolding signal_of walk_on
walk_messages zero n m strength = ended strength
walk_messages (suc fuel) n m strength =
    let nlmsg_len = read_32 0 m in
    let adv = if ltb n nlmsg_len then n else nlmsg_len in
    let now =
      if (length strength == 0) && ltb (nlmsg_hdrlen + genl_hdrlen) nlmsg_len
      then signal_of adv m strength
      else some strength in
    let more =
      walk_on (read_16 4 m) adv now
        (λ strength'. walk_messages fuel (n - adv) (drop adv m) strength') in
    if ltb n nlmsg_hdrlen then ended strength else more

-- `*strength ? strength : NULL`
text_or_null : Text → Option Text
text_or_null [] = none
text_or_null (c ∷ s) = some (c ∷ s)

-- The `while (1)`, over the datagrams that `recv` returns (`none` where it fails); the end of the list
-- is a `recv` that blocks.
unfoldable pub dump_loop : List (Option Text) → Wifi → World → Run (Option Text × Wifi × World)
unfolding walk_messages text_or_null
dump_loop [] s w = waits
dump_loop (none ∷ datagrams) s w = returns (none, s, warn (lit "recv 'AF_NETLINK':") [] w)
dump_loop (some r ∷ datagrams) s w =
    let s' = receive r s in
    let walk = walk_messages (length r) (length r) s'.resp s'.strength in
    if ltb (length r) nlmsg_hdrlen then returns (none, s', w) else elim walk [
      | ended t ↦ dump_loop datagrams (record s' { strength = t }) w
      | finished t ↦ returns (text_or_null t, record s' { strength = t }, w)
      | forever_ ↦ loops
    ]

ask_station :
    (sends : Bool)
    → List (Option Text)
    → Text
    → (fam : ℕ) → ℤ × Wifi × World
    → Run (Option Text × Wifi × World)
unfolding dump_loop message
ask_station sends datagrams interface fam (idx, s, w) =
    let req =
      message fam (nlm_f_request + nlm_f_dump) s.seq cmd_get_station attr_ifindex
        (index_bytes idx) in
    let s' = record s { seq = next_seq s.seq } in
    let more = dump_loop datagrams (record s' { sent = s.sent ++ req ∷ []; strength = [] }) w in
    if ltb_ℤ idx (pos 0)
    then returns (none, s, warn (lit "interface %s not found") (str (some interface) ∷ []) w)
    else if sends
    then more
    else returns (none, s', warn (lit "send 'AF_NETLINK':") [] w)

unfoldable pub wifi_perc :
    Answers
    → IndexAnswers
    → (sends : Bool) → List (Option Text)
    → Text
    → Wifi
    → World
    → Run (Option Text × Wifi × World)
unfolding nl80211fam ifindex ask_station
wifi_perc k ki sends datagrams interface s w =
    and_then (nl80211fam k s w)
      λ r. ask_station sends datagrams interface r.0 (ifindex ki interface r.1 r.2)
