-- ===== src/Wifi.antt =====
-- The Linux part of components/wifi.c: requests to nl80211 over a netlink socket. The kernel is what
-- its calls return; numbers in messages are little-endian.
pub mod Attributes
pub mod FreeBsd
pub mod OpenBsd
pub mod Index
pub mod Perc
use slstatus.Prelude.{
  ℕ, ◌+◌, ◌-◌, ◌%◌, ◌/◌, ◌^◌, Bool, true, false, not, List, [], ◌∷◌, ◌++◌, Option, none, some, ◌==◌,
  leb, ltb, if◌then◌else◌, length, drop, take,
}
use slstatus.Prelude.Int.{ℤ, pos, negsuc, neg_part, ltb_ℤ}
use slstatus.Prelude.Text.{Text, lit, text_eq}
use slstatus.Stdio.Format.{str}
use slstatus.Util.{World, warn}
use slstatus.Lines.{c_string}
use slstatus.Wifi.Attributes.{Search, found, absent, forever, findattr, read_16, u_16, u_32}

-- A call that returns, that goes on in a loop without end, or that waits for the next datagram.
pub data Run (A : Type 0) : Type 0 where
  returns : A → Run A
  loops : Run A
  waits : Run A

abbrev pub and_then : {A B : Type 0} → Run A → (A → Run B) → Run B
and_then (returns a) f = f a
and_then loops f = loops
and_then waits f = waits

-- Constants of linux/netlink.h, linux/genetlink.h and linux/nl80211.h.
abbrev pub nlmsg_hdrlen : ℕ
nlmsg_hdrlen = 16

abbrev pub genl_hdrlen : ℕ
genl_hdrlen = 4

abbrev pub genl_id_ctrl : ℕ
genl_id_ctrl = 16

abbrev pub nlm_f_request : ℕ
nlm_f_request = 1

abbrev pub ctrl_cmd_getfamily : ℕ
ctrl_cmd_getfamily = 3

abbrev pub ctrl_attr_family_id : ℕ
ctrl_attr_family_id = 1

abbrev pub ctrl_attr_family_name : ℕ
ctrl_attr_family_name = 2

abbrev pub cmd_get_interface : ℕ
cmd_get_interface = 5

abbrev pub attr_ifindex : ℕ
attr_ifindex = 3

abbrev pub attr_ssid : ℕ
attr_ssid = 52

-- The file-scope and static variables, and the datagrams sent so far.
pub record Wifi : Type 0 where
  pub nlsock : ℤ
  pub seq : ℕ
  pub resp : Text
  pub id : ℕ
  pub ifsock : ℤ
  pub ifr_name : Text
  pub ifr_ifindex : ℤ
  pub strength : Text
  pub sent : List Text

-- What the calls for the family return: the socket, whether all bytes were sent, and the datagram.
pub record Answers : Type 0 where
  pub socket : ℤ
  pub sends : Bool
  pub received : Option Text

-- What the calls for the index of an interface return.
pub record IndexAnswers : Type 0 where
  pub socket : ℤ
  pub ifindex : Option ℤ

-- `struct nlmsghdr`, `struct genlmsghdr` and `struct nlattr` in memory.
unfoldable pub message : (type flags seq cmd attr : ℕ) (payload : Text) → Text
message type flags seq cmd attr payload =
    u_32 (nlmsg_hdrlen + genl_hdrlen + 4 + length payload)
    ++ u_16 type
    ++ u_16 flags
    ++ u_32 seq
    ++ u_32 0
    ++ (cmd ∷ 1 ∷ 0 ∷ 0 ∷ [])
    ++ u_16 (4 + length payload)
    ++ u_16 attr
    ++ payload

-- A datagram is copied to the front of `resp`.
abbrev pub receive : Text → Wifi → Wifi
receive r s = record s { resp = r ++ drop (length r) s.resp }

abbrev pub next_seq : ℕ → ℕ
next_seq n = (n + 1) % 2 ^ 32

-- `family` with its NUL.
unfoldable pub family : Text
unfolding lit
family = lit "nl80211" ++ 0 ∷ []

-- `if (p && len == 2) memcpy(&id, p, 2);`
unfoldable pub family_id : Search → ℕ → ℕ
family_id (found len p) old = if len == 2 then read_16 0 p else old
family_id absent old = old
family_id forever old = old

-- The end of `nl80211fam`, with the search of the answer.
keep_id : Search → Wifi → World → Run (ℕ × Wifi × World)
unfolding family_id
keep_id forever s w = loops
keep_id absent s w = returns (s.id, s, w)
keep_id (found len p) s w =
    let id = family_id (found len p) s.id in returns (id, record s { id = id }, w)

read_family : Option Text → Wifi → World → Run (ℕ × Wifi × World)
unfolding keep_id
read_family none s w = returns (0, s, warn (lit "recv 'AF_NETLINK':") [] w)
read_family (some r) s w =
    let s' = receive r s in
    let more = keep_id (findattr ctrl_attr_family_id (length r - 32) (drop 32 s'.resp)) s' w in
    if leb (length r) 32 then returns (0, s', w) else more

-- From the message on. `seq` counts also a message that is not sent.
ask_family : Answers → Wifi → World → Run (ℕ × Wifi × World)
unfolding read_family message family
ask_family k s w =
    let ctrl =
      message genl_id_ctrl nlm_f_request s.seq ctrl_cmd_getfamily ctrl_attr_family_name family in
    let sock = if ltb_ℤ s.nlsock (pos 0) then k.socket else s.nlsock in
    let s' = record s { seq = next_seq s.seq; nlsock = sock } in
    let more = read_family k.received (record s' { sent = s.sent ++ ctrl ∷ [] }) w in
    if ltb_ℤ sock (pos 0)
    then returns (0, s', warn (lit "socket 'AF_NETLINK':") [] w)
    else if k.sends
    then more
    else returns (0, s', warn (lit "send 'AF_NETLINK':") [] w)

unfoldable pub nl80211fam : Answers → Wifi → World → Run (ℕ × Wifi × World)
unfolding ask_family
nl80211fam k s w = if s.id == 0 then ask_family k s w else returns (s.id, s, w)

-- `ioctl(ifsock, SIOCGIFINDEX, &ifr)`, which leaves the index as it was where it fails.
look_up : Option ℤ → Wifi → World → ℤ × Wifi × World
look_up none s w = (negsuc 0, s, warn (lit "ioctl 'SIOCGIFINDEX':") [] w)
look_up (some n) s w = (n, record s { ifr_ifindex = n }, w)

-- The body of `ifindex` behind the first test.
with_socket : IndexAnswers → Text → Wifi → World → ℤ × Wifi × World
unfolding look_up
with_socket k interface s w =
    if ltb_ℤ s.ifsock (pos 0)
    then (negsuc 0, s, warn (lit "socket 'AF_UNIX':") [] w)
    else if text_eq s.ifr_name interface
    then (s.ifr_ifindex, s, w)
    else look_up k.ifindex (record s { ifr_name = interface }) w

abbrev pub opened : IndexAnswers → Wifi → Wifi
opened k s = if ltb_ℤ s.ifsock (pos 0) then record s { ifsock = k.socket } else s

-- A name has fewer than IFNAMSIZ bytes; `strcpy` would write a longer one behind the array.
unfoldable pub ifindex : IndexAnswers → Text → Wifi → World → ℤ × Wifi × World
unfolding with_socket
ifindex k interface s w = with_socket k interface (opened k s) w

-- An index as the four bytes of its two's complement.
abbrev pub index_bytes : ℤ → Text
index_bytes (pos n) = u_32 n
index_bytes (negsuc n) = u_32 (2 ^ 32 - n - 1)

-- `p[len] = 0;`, which changes nothing here where it is behind `resp`.
abbrev pub put_nul : ℕ → Text → Text
put_nul n [] = []
put_nul n (c ∷ s) = if n == 0 then 0 ∷ s else c ∷ put_nul (n - 1) s

-- The end of `wifi_essid`: `p` is where `resp` has that many bytes left.
end_essid : Search → Wifi → World → Run (Option Text × Wifi × World)
end_essid forever s w = loops
end_essid absent s w = returns (none, s, w)
end_essid (found len p) s w = returns (
  some (c_string (take len p)),
  record s { resp = put_nul (length s.resp - length p + len) s.resp },
  w,
)

read_essid : Option Text → Wifi → World → Run (Option Text × Wifi × World)
unfolding end_essid
read_essid none s w = returns (none, s, warn (lit "recv 'AF_NETLINK':") [] w)
read_essid (some r) s w =
    let s' = receive r s in
    let head = nlmsg_hdrlen + genl_hdrlen in
    let more = end_essid (findattr attr_ssid (length r - head) (drop head s'.resp)) s' w in
    if leb (length r) head then returns (none, s', w) else more

-- `fprintf(stderr, …)` with a line end prints what `warn` prints.
ask_essid :
    (sends : Bool)
    → Option Text
    → Text
    → (fam : ℕ) → ℤ × Wifi × World
    → Run (Option Text × Wifi × World)
unfolding read_essid message
ask_essid sends received interface fam (idx, s, w) =
    let req = message fam nlm_f_request s.seq cmd_get_interface attr_ifindex (index_bytes idx) in
    let s' = record s { seq = next_seq s.seq } in
    let more = read_essid received (record s' { sent = s.sent ++ req ∷ [] }) w in
    if fam == 0
    then returns (none, s, warn (lit "nl80211 family not found") [] w)
    else if ltb_ℤ idx (pos 0)
    then returns (none, s, warn (lit "interface %s not found") (str (some interface) ∷ []) w)
    else if sends
    then more
    else returns (none, s', warn (lit "send 'AF_NETLINK':") [] w)

-- `sends` and `received` are the results of the request for the interface.
unfoldable pub wifi_essid :
    Answers
    → IndexAnswers
    → (sends : Bool) → Option Text
    → Text
    → Wifi
    → World
    → Run (Option Text × Wifi × World)
unfolding nl80211fam ifindex ask_essid
wifi_essid k ki sends received interface s w =
    and_then (nl80211fam k s w)
      λ r. ask_essid sends received interface r.0 (ifindex ki interface r.1 r.2)
