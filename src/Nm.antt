-- ===== src/Nm.antt =====
-- components/nm.c: the network devices of NetworkManager by the name of their interface. libnm is the
-- record `Net`: what its objects, named by their addresses, show at a moment.
pub mod Links
pub mod Lines
pub mod Connections
pub mod Find
pub mod Registry
pub mod Roam
pub mod Update
use slstatus.Prelude.{
  ◌%◌, ◌^◌, ◌-◌, ℕ, ◌+◌, Bool, true, false, not, List, [], ◌∷◌, ◌++◌, Option, none, some, ◌==◌, ltb,
  if◌then◌else◌,
}
use slstatus.Prelude.Text.{Text, lit, glyph, text_eq}
use slstatus.Stdio.Format.{str}
use slstatus.Util.{World, bprintf, kill}
use slstatus.Bar.{sigrtmin}
use slstatus.Pool.{TailQueue, Pool, empty, find_by, insert, modify, drain_all}

abbrev pub nm_signal : ℕ
nm_signal = 3

-- NM_DEVICE_STATE_ACTIVATED of libnm.
abbrev pub activated : ℕ
activated = 100

pub data Kind : Type 0 where
  ethernet : Kind
  wifi : Kind
  other : Kind

-- An `NMDevice`. `ip4` and `ip6` are the addresses of its configurations, `none` without one.
pub record Device : Type 0 where
  pub state : ℕ
  pub kind : Kind
  pub ip4 : Option (List Text)
  pub ip6 : Option (List Text)
  pub active : Option ℕ
  pub hw_address : Option Text

-- An `NMAccessPoint`; `ssid` is its SSID in UTF-8.
pub record AccessPoint : Type 0 where
  pub ssid : Option Text
  pub strength : ℕ

pub record Net : Type 0 where
  pub by_iface : Text → Option ℕ
  pub device : ℕ → Device
  pub access_point : ℕ → AccessPoint

pub data Topic : Type 0 where
  device_state : Topic
  active_access_point : Topic
  strength : Topic

-- A gulong kept in an int of two's complement, as the 32 bits of it, and the gulong that becomes of
-- it again.
unfoldable pub int_of : ℕ → ℕ
int_of id = id % 2 ^ 32

unfoldable pub gulong_of : ℕ → ℕ
gulong_of n = if ltb n (2 ^ 31) then n else n + (2 ^ 64 - 2 ^ 32)

-- A call of `g_signal_connect`, with the entry that the callback gets and the id returned, or of
-- `g_signal_handler_disconnect`; or `g_object_unref(nm_client)`.
pub data Call : Type 0 where
  connect : (object : ℕ) → Topic → (entry id : ℕ) → Call
  disconnect : (object id : ℕ) → Call
  unref_client : Call

-- `nm_t` without `proxy`, which stays null. The three ids are ints, as their 32 bits.
pub record Entry : Type 0 where
  pub iface : Text
  pub ipv4 : Option Text
  pub ipv6 : Option Text
  pub device : ℕ
  pub state : ℕ
  pub state_id : ℕ
  pub ap : Option ℕ
  pub essid : Option Text
  pub ss : ℕ
  pub ap_id : ℕ
  pub ss_id : ℕ

-- The address after a look at a configuration, with the old one, and whether it was set.
new_address : Option (List Text) → Option Text → Option Text × Bool
new_address none old = (old, false)
new_address (some []) old = (old, false)
new_address (some (a ∷ rest)) old = (some a, true)

unfoldable pub raise : World → World
raise w = kill (sigrtmin + nm_signal) w

-- `nm_update`, on the entry.
unfoldable pub nm_update : Net → Entry → World → Entry × World
unfolding new_address
nm_update net e w =
    let d = net.device e.device in
    if d.state == activated
    then (let (ipv4, new4) = new_address d.ip4 e.ipv4 in
        let (ipv6, new6) = new_address d.ip6 e.ipv6 in
        let w' = if new4 then raise w else w in
        (record e { state = d.state; ipv4 = ipv4; ipv6 = ipv6 }, if new6 then raise w' else w'))
    else (record e { state = d.state; ipv4 = none; ipv6 = none }, raise w)

-- The essid of an entry beside an access point: an SSID replaces the old one.
unfoldable pub essid_at : AccessPoint → Option Text → Option Text
essid_at a old = elim a.ssid [ none ↦ old | some s ↦ some s ]

unfoldable pub signal_icon : ℕ → Text
signal_icon ss =
    if ltb ss 20
    then glyph 0xf092f
    else if ltb ss 40
    then glyph 0xf091f
    else if ltb ss 60
    then glyph 0xf0922
    else if ltb ss 80
    then glyph 0xf0925
    else glyph 0xf0928

-- `new_id` is the id that `g_signal_connect` returns after the calls so far.
module _ (T : TailQueue) (new_id : List Call → ℕ) where
  open T use {entries}

  -- The file-scope variables but for the client, and the calls made to libgobject.
  pub record Nm : Type 0 where
    pub pool : Pool T Entry
    pub calls : List Call

  unfoldable pub nm_init : Nm
  nm_init = record { pool = empty T; calls = [] }

  -- A connection of the entry at `p`: its id as an int, and the calls with it.
  unfoldable pub connected : (object : ℕ) → Topic → (p : ℕ) → List Call → ℕ × List Call
  unfolding int_of
  connected object topic p calls =
      let id = new_id calls in (int_of id, calls ++ connect object topic p id ∷ [])

  -- `nm_signal_strength_callback`
  unfoldable pub nm_signal_strength_callback : AccessPoint → ℕ → Nm → World → Nm × World
  nm_signal_strength_callback a p s w = elim (s.pool.cells p) [
    | none ↦ (s, w)
    | some e ↦
        if not (a.strength == e.ss)
        then (record s { pool = modify T p (record e { ss = a.strength }) s.pool }, raise w)
        else (s, w)
  ]

  -- The branch of `nm_access_point_callback` with an active access point.
  join : Net → ℕ → ℕ → Entry → Nm → World → Nm × World
  unfolding connected essid_at
  join net ap p e s w =
      let a = net.access_point ap in
      let (id, calls) = connected ap strength p s.calls in
      (
        record {
          pool =
              modify T p
                (record e { ap = some ap; essid = essid_at a e.essid; ss = a.strength; ss_id = id })
                s.pool;
          calls = calls;
        },
        raise w,
      )

  -- The branch without one.
  leave : ℕ → Entry → Option ℕ → Nm → World → Nm × World
  unfolding gulong_of
  leave p e none s w = (s, w)
  leave p e (some old) s w = (
    record {
      pool = modify T p (record e { essid = none; ap = none; ss = 0; ss_id = 0 }) s.pool;
      calls = s.calls ++ disconnect old (gulong_of e.ss_id) ∷ [];
    },
    raise w,
  )

  roam : Net → Option ℕ → ℕ → Entry → Nm → World → Nm × World
  unfolding join leave
  roam net none p e s w = leave p e e.ap s w
  roam net (some ap) p e s w = join net ap p e s w

  -- `nm_access_point_callback` of the device at an address, for the entry at `p`.
  unfoldable pub nm_access_point_callback : Net → (device p : ℕ) → Nm → World → Nm × World
  unfolding roam
  nm_access_point_callback net device p s w = elim (s.pool.cells p) [
    | none ↦ (s, w)
    | some e ↦ roam net (net.device device).active p e s w
  ]

  unfoldable pub nm_state_callback : Net → ℕ → Nm → World → Nm × World
  unfolding nm_update
  nm_state_callback net p s w = elim (s.pool.cells p) [
    | none ↦ (s, w)
    | some e ↦ let (e', w') = nm_update net e w in (record s { pool = modify T p e' s.pool }, w')
  ]

  -- The entry as `calloc` and the assignments before `nm_update` leave it.
  abbrev pub blank : Text → ℕ → Net → Entry
  blank iface device net = record {
    iface = iface;
    ipv4 = none;
    ipv6 = none;
    device = device;
    state = (net.device device).state;
    state_id = 0;
    ap = none;
    essid = none;
    ss = 0;
    ap_id = 0;
    ss_id = 0;
  }

  -- The inner `if (nm->ap)` of `nm_find`.
  watch_strength : Net → Option ℕ → ℕ → Entry × List Call → Entry × List Call
  unfolding connected essid_at
  watch_strength net none p (e, calls) = (e, calls)
  watch_strength net (some ap) p (e, calls) =
      let a = net.access_point ap in
      let (id, calls') = connected ap strength p calls in
      (record e { essid = essid_at a e.essid; ss = a.strength; ss_id = id }, calls')

  -- `if (NM_IS_DEVICE_WIFI(nm->device))`
  pub watch_wifi : Net → Kind → ℕ → Entry × List Call → Entry × List Call
  unfolding connected watch_strength
  watch_wifi net ethernet p (e, calls) = (e, calls)
  watch_wifi net other p (e, calls) = (e, calls)
  watch_wifi net wifi p (e, calls) =
      let ap = (net.device e.device).active in
      let (id, calls') = connected e.device active_access_point p calls in
      watch_strength net ap p (record e { ap = ap; ap_id = id }, calls')

  -- `nm->state_id = g_signal_connect(…)`
  watch_state : ℕ → Entry × List Call → Entry × List Call
  unfolding connected
  watch_state p (e, calls) =
      let (id, calls') = connected e.device device_state p calls in
      (record e { state_id = id }, calls')

  -- The entry is in the queue before its connections are made; nothing looks at it between.
  make_entry : Net → Text → Option ℕ → Nm → World → Option ℕ × Nm × World
  unfolding nm_update watch_wifi watch_state
  make_entry net iface none s w = (none, s, w)
  make_entry net iface (some device) s w =
      let p = s.pool.fresh in
      let (e, w') = nm_update net (blank iface device net) w in
      let (e', calls) = watch_state p (watch_wifi net (net.device device).kind p (e, s.calls)) in
      (some p, record { pool = insert T e' s.pool; calls = calls }, w')

  find_entry : Net → Text → Option ℕ → Nm → World → Option ℕ × Nm × World
  unfolding make_entry
  find_entry net iface (some p) s w = (some p, s, w)
  find_entry net iface none s w = make_entry net iface (net.by_iface iface) s w

  unfoldable pub nm_find : Net → Text → Nm → World → Option ℕ × Nm × World
  unfolding find_entry
  nm_find net iface s w = find_entry net iface (find_by T (λ e. text_eq e.iface iface) s.pool) s w
