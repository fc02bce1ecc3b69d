-- ===== src/Nm/Connections/Released.antt =====
-- The calls of `nm_free` in components/nm.c, after any lookups and callbacks.
use mathlib.Core.Path.{subst}
use slstatus.Prelude.{[], ◌∷◌, ◌++◌, ℕ, sym, ◌∙◌, List, All}
use slstatus.Prelude.Text.{Text}
use slstatus.Util.{World}
use slstatus.Pool.{TailQueue}
use slstatus.Nm.{
  unref_client, Net, Call, AccessPoint, Nm, nm_init, nm_signal_strength_callback,
  nm_access_point_callback, nm_state_callback, nm_find,
}
use slstatus.Nm.Lines.{disconnects, nm_free}
use slstatus.Nm.Connections.{
  Handlers, no_handlers, handlers, AreAllowed, replay-append, AreAllowed-append, GivesIds, IsSmall,
  replay,
}
use slstatus.Nm.Connections.Disconnects.{
  IsUnwatched, All-IsWatched, disconnects-AreAllowed, disconnects-IsUnwatched,
}
use slstatus.Nm.Connections.Kept.{
  IsMatched, nm_init-IsMatched, nm_find-IsMatched, nm_state_callback-IsMatched,
  nm_access_point_callback-IsMatched, nm_signal_strength_callback-IsMatched,
}

module _ (T : TailQueue) (new_id : List Call → ℕ) where
  open T use {entries}

  -- A lookup, or a callback of NetworkManager for some entry. The ids of connections fit into an int.
  pub data Step (s : Nm T new_id) : Nm T new_id → Type 0 where
    find :
        (net : Net) (iface : Text) (w : World)
        → All IsSmall (nm_find T new_id net iface s w).1.calls
        → Step s (nm_find T new_id net iface s w).1
    state : (net : Net) (p : ℕ) (w : World) → Step s (nm_state_callback T new_id net p s w).0
    point :
        (net : Net) (device p : ℕ) (w : World)
        → All IsSmall (nm_access_point_callback T new_id net device p s w).0.calls
        → Step s (nm_access_point_callback T new_id net device p s w).0
    bars :
        (a : AccessPoint) (p : ℕ) (w : World)
        → Step s (nm_signal_strength_callback T new_id a p s w).0

  pub data Reaches : Nm T new_id → Type 0 where
    initialised : Reaches (nm_init T new_id)
    then_step : (s t : Nm T new_id) → Reaches s → Step s t → Reaches t

  module _ (ids : GivesIds new_id) where
    Step-IsMatched :
        {s t : Nm T new_id} → IsMatched T new_id ids s → Step s t → IsMatched T new_id ids t
    Step-IsMatched {s} h (find net iface w k) = nm_find-IsMatched T new_id ids net iface s w h k
    Step-IsMatched {s} h (state net p w) = nm_state_callback-IsMatched T new_id ids net p s w h
    Step-IsMatched {s} h (point net device p w k) =
        nm_access_point_callback-IsMatched T new_id ids net device p s w h k
    Step-IsMatched {s} h (bars a p w) = nm_signal_strength_callback-IsMatched T new_id ids a p s w h

    Reaches-IsMatched : (s : Nm T new_id) → Reaches s → IsMatched T new_id ids s
    Reaches-IsMatched _ initialised = nm_init-IsMatched T new_id ids
    Reaches-IsMatched t (then_step s _ before step) =
        Step-IsMatched (Reaches-IsMatched s before) step

    -- After `nm_init` and any lookups and callbacks, in whatever order and whatever NetworkManager
    -- shows: of all calls up to the end of `nm_free`, each connection gets an id that no connected
    -- handler has, and each disconnection is of a handler that the program has connected to the
    -- object, with the id that an int has kept, and has not disconnected before; and at the end the
    -- state callback of no entry of the queue is left. It is assumed that the ids of
    -- g_signal_connect fit into an int, are not 0 and not those of connected handlers, that libnm finalizes no object to which
    -- an entry has a pointer, and that the client is not NULL.
    pub nm_free-AreAllowed :
        (s : Nm T new_id)
        → Reaches s
        → AreAllowed (nm_free T new_id s).calls no_handlers
          × All
              (IsUnwatched (handlers (nm_free T new_id s).calls) s.pool.cells)
              (entries s.pool.queue)
    unfolding nm_free AreAllowed replay
    nm_free-AreAllowed s before =
        let h = Reaches-IsMatched s before in
        let given_up = disconnects s.pool.cells (entries s.pool.queue) in
        let ended = given_up ++ unref_client ∷ [] in
        (
          AreAllowed-append s.calls ended no_handlers h.allowed (
              AreAllowed-append given_up _ (handlers s.calls)
                (disconnects-AreAllowed (handlers s.calls) s.pool.cells (entries s.pool.queue)
                  (All-IsWatched _ s.pool.cells _ h.matched) h.distinct.distinct)
                (tt, tt)),
          subst (λ (g : Handlers). All (IsUnwatched g s.pool.cells) (entries s.pool.queue))
              (sym (
                replay-append s.calls ended no_handlers
                ∙ replay-append given_up (unref_client ∷ []) (handlers s.calls)))
              (disconnects-IsUnwatched (handlers s.calls) s.pool.cells (entries s.pool.queue)
                (λ p e at. (h.matched p e at).given)),
        )
