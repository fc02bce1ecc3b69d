-- ===== src/Mm.antt =====
-- components/mm.c: the modems of ModemManager by the name of one of their ports. libmm-glib is the
-- list of modems at a moment, each with its ports, state and signal quality.
use slstatus.Prelude.{
  ℕ, ◌+◌, Bool, true, false, not, List, [], ◌∷◌, ◌++◌, Option, none, some, ◌==◌, ltb, if◌then◌else◌,
}
use slstatus.Prelude.Text.{Text, lit, glyph, text_eq}
use slstatus.Stdio.Format.{uint}
use slstatus.Util.{World, bprintf, kill}
use slstatus.Bar.{sigrtmin}
use slstatus.Pool.{TailQueue, Pool, empty, find_by, insert, modify, drain_all}
pub mod Find
pub mod Links
pub mod Registry

abbrev pub mm_signal : ℕ
mm_signal = 2

-- MM_MODEM_STATE_CONNECTED of libmm-glib.
abbrev pub connected : ℕ
connected = 11

-- An `MMModem`: `id` stands for the pointer.
pub record Modem : Type 0 where
  pub id : ℕ
  pub ports : List Text
  pub state : ℕ
  pub signal_quality : ℕ

-- `mm_t`
pub record Entry : Type 0 where
  pub iface : Text
  pub modem : ℕ
  pub state : ℕ
  pub sq : ℕ

has_port : Text → List Text → Bool
has_port iface [] = false
has_port iface (p ∷ ps) = let more = has_port iface ps in if text_eq p iface then true else more

-- The modem at which the two loops of `mm_find` stop.
unfoldable pub modem_of : Text → List Modem → Option Modem
unfolding has_port
modem_of iface [] = none
modem_of iface (m ∷ ms) =
    let more = modem_of iface ms in if has_port iface m.ports then some m else more

unfoldable pub icon_of : ℕ → Text
icon_of sq =
    if ltb sq 25
    then glyph 0xf08bf
    else if ltb sq 50
    then glyph 0xf08bc
    else if ltb sq 70
    then glyph 0xf08bd
    else glyph 0xf08be

module _ (T : TailQueue) where
  -- The file-scope variables, and the `notify` connections: a modem and the entry of its callback.
  pub record Mm : Type 0 where
    pub pool : Pool T Entry
    pub manager : Bool
    pub notified : List (ℕ × ℕ)

  -- `mm_init`: whether there is a bus, and a manager.
  unfoldable pub mm_init : (bus manager : Bool) → Mm
  mm_init bus manager = record {
    pool = empty T;
    manager = if bus then manager else false;
    notified = [];
  }

  kept : Option Entry → Option Entry
  kept o = o

  -- `mm_free`. The entries are unlinked and not freed.
  unfoldable pub mm_free : Mm → Mm
  unfolding kept
  mm_free s = record s { pool = drain_all T kept s.pool }

  make_entry : Text → Option Modem → Mm → Option ℕ × Mm
  make_entry iface none s = (none, s)
  make_entry iface (some m) s = (
    some s.pool.fresh,
    record s {
      pool =
          insert T (record { iface = iface; modem = m.id; state = m.state; sq = m.signal_quality })
            s.pool;
      notified = s.notified ++ (m.id, s.pool.fresh) ∷ [];
    },
  )

  find_entry : Text → List Modem → Option ℕ → Mm → Option ℕ × Mm
  unfolding modem_of make_entry
  find_entry iface modems (some p) s = (some p, s)
  find_entry iface modems none s = make_entry iface (modem_of iface modems) s

  -- `modems` are the objects that `g_dbus_object_manager_get_objects` lists.
  unfoldable pub mm_find : Text → List Modem → Mm → Option ℕ × Mm
  unfolding find_entry
  mm_find iface modems s = find_entry iface modems (find_by T (λ e. text_eq e.iface iface) s.pool) s

  callback_at : Modem → Text → ℕ → Option Entry → Mm → World → Mm × World
  callback_at m name p none s w = (s, w)
  callback_at m name p (some e) s w =
      if text_eq name (lit "state")
      then (if not (m.state == e.state)
          then (
            record s { pool = modify T p (record e { state = m.state }) s.pool },
            kill (sigrtmin + mm_signal) w,
          )
          else (s, w))
      else if text_eq name (lit "signal-quality")
      then (if not (m.signal_quality == e.sq)
          then (
            record s { pool = modify T p (record e { sq = m.signal_quality }) s.pool },
            kill (sigrtmin + mm_signal) w,
          )
          else (s, w))
      else (s, w)

  -- `mm_modem_callback` for the entry at `p` and the changed property's name.
  unfoldable pub mm_modem_callback : Modem → Text → ℕ → Mm → World → Mm × World
  unfolding callback_at
  mm_modem_callback m name p s w = callback_at m name p (s.pool.cells p) s w

  abbrev pub entry_at : Option ℕ → Mm → Option Entry
  entry_at none s = none
  entry_at (some p) s = s.pool.cells p

  line_of : Option Entry → Option Text
  unfolding icon_of
  line_of none = none
  line_of (some e) = if e.state == connected then some (icon_of e.sq) else none

  unfoldable pub mm_line : Text → List Modem → Mm → World → Option Text × Mm × World
  unfolding mm_find line_of
  mm_line iface modems s w =
      let (p, s') = mm_find iface modems s in (line_of (entry_at p s'), s', w)

  print_perc : Option Entry → World → Option Text × World
  print_perc none w = (none, w)
  print_perc (some e) w = bprintf (lit "%u") (uint e.sq ∷ []) w

  unfoldable pub mm_perc : Text → List Modem → Mm → World → Option Text × Mm × World
  unfolding mm_find print_perc
  mm_perc iface modems s w =
      let (p, s') = mm_find iface modems s in
      let (res, w') = print_perc (entry_at p s') w in (res, s', w')
