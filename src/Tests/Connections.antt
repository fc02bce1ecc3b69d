-- ===== src/Tests/Connections.antt =====
-- Inputs for the connections of the network devices.
use slstatus.Prelude.{
  ℕ, ◌+◌, ◌≤◌, ◌<◌, ◌≡◌, refl, List, [], ◌∷◌, none, some, if◌then◌else◌, arith, All,
}
use slstatus.Prelude.Text.{lit, text_eq}
use slstatus.Nm
use slstatus.Nm.Connections.{
  Handlers, GivesIds, IsSmall, AreAllowed, no_handlers, handlers, after, replay,
}
use slstatus.Nm.Connections.Released
use slstatus.Nm.Connections.Disconnects.{IsUnwatched}
use slstatus.Nm.Connections.Released.{Reaches, nm_free-AreAllowed}
use slstatus.Nm.Lines.{nm_free}
use slstatus.Pool.{TailQueue, find_by, empty}
use slstatus.Tests.{quiet_world, list_queue}

-- An id above all that have been given.
abbrev next_id : List Nm.Call → ℕ
next_id [] = 1
next_id (Nm.connect object topic p id ∷ calls) = id + next_id calls
next_id (Nm.disconnect object id ∷ calls) = id + next_id calls
next_id (Nm.unref_client ∷ calls) = next_id calls

next_id-pos : (calls : List Nm.Call) → 0 < next_id calls
next_id-pos [] = omega arith
next_id-pos (Nm.connect object topic p id ∷ calls) = omega (arith, next_id-pos calls)
next_id-pos (Nm.disconnect object id ∷ calls) = omega (arith, next_id-pos calls)
next_id-pos (Nm.unref_client ∷ calls) = next_id-pos calls

replay-above :
    (calls : List Nm.Call) (n : ℕ) (h : Handlers)
    → next_id calls ≤ n
    → h n ≡ none
    → replay calls h n ≡ none
unfolding replay
replay-above [] n h l free = free
replay-above (Nm.connect object topic p id ∷ calls) n h l free =
    let above = next_id-pos calls in
    replay-above calls n (after (Nm.connect object topic p id) h) (omega arith) (ground arith)
replay-above (Nm.disconnect object id ∷ calls) n h l free =
    let above = next_id-pos calls in
    replay-above calls n (after (Nm.disconnect object id) h) (omega arith) (ground arith)
replay-above (Nm.unref_client ∷ calls) n h l free = replay-above calls n h l free

next_id-GivesIds : GivesIds next_id
next_id-GivesIds = record {
  fresh = λ calls. replay-above calls (next_id calls) no_handlers (omega arith) refl;
  positive = next_id-pos;
}

-- One Wi-Fi device at the address 1, beside the access point at the address 7.
abbrev net : Nm.Net
net = record {
  by_iface = λ iface. if text_eq iface (lit "wlan0") then some 1 else none;
  device = λ d. record {
    state = 30;
    kind = Nm.wifi;
    ip4 = none;
    ip6 = none;
    active = some 7;
    hw_address = none;
  };
  access_point = λ a. record { ssid = none; strength = 50 };
}

abbrev State : Type 0
State = Nm.Nm list_queue next_id

abbrev watched : State
watched =
    (Nm.nm_find list_queue next_id net (lit "wlan0") (Nm.nm_init list_queue next_id) quiet_world).1

watched-IsSmall : All IsSmall watched.calls
unfolding Nm.nm_find Nm.nm_init Nm.connected find_by empty lit
watched-IsSmall = (omega arith, (omega arith, (omega arith, tt)))

watched-Reaches : Reaches list_queue next_id watched
watched-Reaches =
    Released.then_step _ _ Released.initialised
      (Released.find net (lit "wlan0") quiet_world watched-IsSmall)

nm_free-AreAllowed_example :
    AreAllowed (nm_free list_queue next_id watched).calls no_handlers
    × All
        (IsUnwatched (handlers (nm_free list_queue next_id watched).calls) watched.pool.cells)
        (TailQueue.entries list_queue watched.pool.queue)
nm_free-AreAllowed_example =
    nm_free-AreAllowed list_queue next_id next_id-GivesIds watched watched-Reaches
