-- ===== src/Nm/Lines.antt =====
-- components/nm.c: the texts, and the release of the entries.
use slstatus.Prelude.{ℕ, List, [], ◌∷◌, ◌++◌, Option, none, some, ◌==◌, if◌then◌else◌}
use slstatus.Prelude.Text.{Text, lit, glyph}
use slstatus.Stdio.Format.{str}
use slstatus.Util.{World, bprintf}
use slstatus.Pool.{TailQueue, drain_all}
use slstatus.Nm.{
  Net, Kind, ethernet, wifi, other, Entry, Call, disconnect, unref_client, gulong_of, Nm, nm_find,
  activated, signal_icon,
}

-- A nonzero `state_id` is disconnected.
unfoldable pub end_state : Option Entry → List Call
unfolding gulong_of
end_state none = []
end_state (some e) = if e.state_id == 0 then [] else disconnect e.device (gulong_of e.state_id) ∷ []

unfoldable pub disconnects : (ℕ → Option Entry) → List ℕ → List Call
unfolding end_state
disconnects cells [] = []
disconnects cells (p ∷ ps) = end_state (cells p) ++ disconnects cells ps

-- The entry that `nm_free` leaves behind in memory that it does not free.
released : Option Entry → Option Entry
released none = none
released (some e) = some (record e { ipv4 = none; ipv6 = none; essid = none; state_id = 0 })

-- The bars of a Wi-Fi device, and its network's name.
wifi_line : Entry → World → Option Text × World
unfolding signal_icon
wifi_line e w = elim e.essid [
  | none ↦ (some (signal_icon e.ss), w)
  | some essid ↦ bprintf (lit "%s %s") (str (some (signal_icon e.ss)) ∷ str (some essid) ∷ []) w
]

by_kind : Kind → Entry → World → Option Text × World
unfolding wifi_line
by_kind ethernet e w = (some (glyph 0xf0200), w)
by_kind wifi e w = wifi_line e w
by_kind other e w = (none, w)

module _ (T : TailQueue) (new_id : List Call → ℕ) where
  open T use {entries}

  -- The client is not NULL.
  unfoldable pub nm_free : Nm T new_id → Nm T new_id
  unfolding disconnects released
  nm_free s = record {
    pool = drain_all T released s.pool;
    calls = s.calls ++ (disconnects s.pool.cells (entries s.pool.queue) ++ unref_client ∷ []);
  }

  -- The entry behind the pointer that `nm_find` returned.
  abbrev pub entry_at : Option ℕ → Nm T new_id → Option Entry
  entry_at none s = none
  entry_at (some p) s = s.pool.cells p

  line_of : Net → Option Entry → World → Option Text × World
  unfolding by_kind
  line_of net none w = (none, w)
  line_of net (some e) w =
      if e.state == activated then by_kind (net.device e.device).kind e w else (none, w)

  unfoldable pub nm_line : Net → Text → Nm T new_id → World → Option Text × Nm T new_id × World
  unfolding nm_find line_of
  nm_line net iface s w =
      let (p, s', w') = nm_find T new_id net iface s w in
      let (res, w'') = line_of net (entry_at p s') w' in (res, s', w'')

  unfoldable pub nm_ip4 : Net → Text → Nm T new_id → World → Option Text × Nm T new_id × World
  unfolding nm_find
  nm_ip4 net iface s w =
      let (p, s', w') = nm_find T new_id net iface s w in
      (elim (entry_at p s') [ none ↦ none | some e ↦ e.ipv4 ], s', w')

  unfoldable pub nm_ip6 : Net → Text → Nm T new_id → World → Option Text × Nm T new_id × World
  unfolding nm_find
  nm_ip6 net iface s w =
      let (p, s', w') = nm_find T new_id net iface s w in
      (elim (entry_at p s') [ none ↦ none | some e ↦ e.ipv6 ], s', w')

  unfoldable pub nm_mac : Net → Text → Nm T new_id → World → Option Text × Nm T new_id × World
  unfolding nm_find
  nm_mac net iface s w =
      let (p, s', w') = nm_find T new_id net iface s w in
      (elim (entry_at p s') [ none ↦ none | some e ↦ (net.device e.device).hw_address ], s', w')
