-- ===== src/Pa/Thread.antt =====
-- components/pa.c with its two threads: the lookups of the main thread, which take no lock, and the
-- callbacks, which run in the thread of the threaded main loop. What a lookup does up to the end of
-- its walk is one step, and what it does behind it another; an insertion into the queue is one
-- access.
pub mod Grows
pub mod Held
pub mod Twice
pub mod Whole
use slstatus.Prelude.{Bool, true, false, ℕ, List, [], ◌∷◌, ◌++◌, Option, none, some, if◌then◌else◌}
use slstatus.Prelude.Int.{ℤ}
use slstatus.Prelude.Text.{Text}
use slstatus.Util.{World}
use slstatus.Util.Float.{Float}
use slstatus.Pool.{TailQueue}
use slstatus.Pa.{
  SinkInfo, by_name, Walked, found, fell_off, null_read, Pa, walk_sink, add_sink, is_default,
  pa_sink_info_callback, pa_subscribe_callback,
}

-- Where the main thread stands: outside a lookup, behind a walk that has found no entry, or with the
-- entry that the lookup has returned.
pub data Place : Type 0 where
  idle : Place
  adding : (sink : Option Text) → Place
  holding : (pa : ℕ) → Place

module _ (T : TailQueue) where
  open T use {entries}

  -- What the threads share, and the place of each: `server` is the name of the default sink while
  -- `server_info_callback` stands behind a walk that has found no entry.
  pub record System : Type 0 where
    pub pa : Pa T
    pub main : Place
    pub server : Option Text
    pub crashed : Bool
    pub world : World

  pub after_walk : Option Text → Walked → System → System
  after_walk sink (found p) s = record s { main = holding p }
  after_walk sink fell_off s = record s { main = adding sink }
  after_walk sink null_read s = record s { crashed = true }

  -- A crash at the insertion is of a request that is not taken.
  pub after_add : Option (ℕ × Pa T) → System → System
  after_add none s = record s { crashed = true; main = idle }
  after_add (some (p, pa)) s = record s { pa = pa; main = holding p }

  pub line_from : Option Text → Place → System → System
  unfolding walk_sink after_walk add_sink after_add
  line_from sink idle s =
      after_walk sink (walk_sink sink s.pa.pool.cells (entries s.pa.pool.queue)) s
  line_from sink (adding own) s = after_add (add_sink T own s.pa) s
  line_from sink (holding p) s = record s { main = idle }

  -- The next step of a function of the bar that looks a sink up: `sink` is the one that it looks for
  -- where the step begins a lookup.
  unfoldable pub line_step : Option Text → System → System
  unfolding line_from
  line_step sink s = line_from sink s.main s

  pub ask : Text → ℕ → System → System
  ask name p s =
      if s.pa.accepts
      then record s { pa = record s.pa { requests = s.pa.requests ++ by_name (some name) p ∷ [] } }
      else record s { crashed = true }

  pub after_server_walk : Text → Walked → System → System
  unfolding ask
  after_server_walk name (found p) s = ask name p s
  after_server_walk name fell_off s = record s { server = some name }
  after_server_walk name null_read s = record s { crashed = true }

  pub after_server_add : Text → Option (ℕ × Pa T) → System → System
  unfolding ask
  after_server_add name none s = record s { crashed = true; server = none }
  after_server_add name (some (p, pa)) s = ask name p (record s { pa = pa; server = none })

  pub heard : Option (Pa T) → System → System
  heard none s = record s { crashed = true }
  heard (some pa) s = record s { pa = pa }

  pub server_from : Text → Option Text → System → System
  unfolding after_server_walk after_server_add add_sink is_default ask
  server_from name none s =
      let walked = walk_sink none s.pa.pool.cells (entries s.pa.pool.queue) in
      if is_default T name s.pa.default_sink
      then s
      else after_server_walk name walked
          (record s { pa = record s.pa { default_sink = some name } })
  server_from name (some own) s = after_server_add own (add_sink T none s.pa) s

  -- The next step of `server_info_callback`, where it begins for the default sink `name`.
  unfoldable pub server_step : Text → System → System
  unfolding server_from
  server_step name s = server_from name s.server s

  -- A step of either thread between `pa_init` and `pa_free`. `ended`: the context terminates or fails. `elsewhere`: of the main thread outside
  -- this component.
  pub data Step (F : Float) (s : System) : System → Type 0 where
    line : (sink : Option Text) → Step F s (line_step sink s)
    server_info : (name : Text) → Step F s (server_step name s)
    sink_info :
        (info : Option SinkInfo) (eol : ℤ) (p : ℕ)
        → Step F s (
            let (pa, w) = pa_sink_info_callback T F info eol p s.pa s.world in
            record s { pa = pa; world = w })
    subscribed : (type index : ℕ) → Step F s (heard (pa_subscribe_callback T type index s.pa) s)
    ended : Step F s (record s { pa = record s.pa { accepts = false } })
    elsewhere : (w : World) → Step F s (record s { world = w })

  pub data Reaches (F : Float) (s : System) : System → Type 0 where
    here : Reaches F s s
    then_step : (t u : System) → Reaches F s t → Step F t u → Reaches F s u
