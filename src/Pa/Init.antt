-- ===== src/Pa/Init.antt =====
-- The connection of components/pa.c to its server: `pa_init` with its error paths, the callback of
-- the context's state, and `pa_free`.
use slstatus.Prelude.{
  ℕ, ◌-◌, ◌≡◌, refl, Bool, true, false, [], ◌∷◌, ◌++◌, Option, none, if◌then◌else◌, arith,
}
use slstatus.Prelude.Int.{ℤ, pos, ltb_ℤ}
use slstatus.Pool.{TailQueue, drain_all}
use slstatus.Pool.Drain.{drain_all-entries}
use slstatus.Pa.{Entry, Pa, server_info}

-- The pointers `pa_loop` and `pa_ctx` (set or NULL), how many loops and contexts are allocated, and
-- whether the loop is locked and its thread runs.
pub record Audio : Type 0 where
  pub pa_loop : Bool
  pub pa_ctx : Bool
  pub loops : ℕ
  pub contexts : ℕ
  pub locked : Bool
  pub running : Bool

-- What libpulse answers: whether the loop and the context could be made, what connect and start
-- return, and whether the context became ready.
pub record Answers : Type 0 where
  pub loop_new : Bool
  pub context_new : Bool
  pub connect : ℤ
  pub start : ℤ
  pub ready : Bool

-- pa_context_disconnect, pa_context_unref, pa_ctx = NULL.
drop_context : Audio → Audio
drop_context a = record a { pa_ctx = false; contexts = a.contexts - 1 }

-- pa_threaded_mainloop_unlock, pa_threaded_mainloop_free, pa_loop = NULL.
drop_loop : Audio → Audio
drop_loop a = record a { pa_loop = false; loops = a.loops - 1; locked = false; running = false }

-- `pa_init` behind the wait for the state callback.
await_ready : Answers → Audio → Audio
unfolding drop_context drop_loop
await_ready r a =
    if r.ready
    then record a { locked = false }
    else drop_loop (record (drop_context a) { running = false })

start_loop : Answers → Audio → Audio
unfolding await_ready
start_loop r a =
    if ltb_ℤ r.start (pos 0)
    then drop_loop (drop_context a)
    else await_ready r (record a { running = true })

connect_context : Answers → Audio → Audio
unfolding start_loop
connect_context r a = if ltb_ℤ r.connect (pos 0) then drop_loop (drop_context a) else start_loop r a

-- `pa_init` from the state that the program starts in.
unfoldable pub pa_init : Answers → Audio
unfolding connect_context
pa_init r =
    let none_yet : Audio = record {
      pa_loop = false;
      pa_ctx = false;
      loops = 0;
      contexts = 0;
      locked = false;
      running = false;
    } in
    let looped = record none_yet { pa_loop = true; loops = 1; locked = true } in
    if r.loop_new
    then (if r.context_new
        then connect_context r (record looped { pa_ctx = true; contexts = 1 })
        else drop_loop looped)
    else none_yet

-- Whatever fails, `pa_init` leaves the loop unlocked and either a running loop with its context or
-- no loop and no context, neither in the pointers nor allocated; and it is the first exactly if
-- nothing failed.
pub pa_init_lem :
    (r : Answers)
    → let a = pa_init r in
      let up =
        if r.loop_new
        then (if r.context_new
            then (if ltb_ℤ r.connect (pos 0)
                then false
                else if ltb_ℤ r.start (pos 0)
                then false
                else r.ready)
            else false)
        else false in
      let count : ℕ = if up then 1 else 0 in
      (a.locked ≡ false)
      × (a.pa_loop ≡ up)
      × (a.pa_ctx ≡ up)
      × (a.running ≡ up)
      × (a.loops ≡ count)
      × (a.contexts ≡ count)
unfolding pa_init
pa_init_lem r = ground arith

-- The states of a context that the callback tells apart.
pub data ContextState : Type 0 where
  ready terminated failed other : ContextState

module _ (T : TailQueue) where
  -- What `pa_state_callback` changes: whether `pa_init` may go on, and the subscription.
  pub record Connection : Type 0 where
    pub state_callback_signal : Bool
    pub subscribed : Bool
    pub pa : Pa T

  wake : Connection → Connection
  wake c = record c { state_callback_signal = true }

  -- Such a context takes no requests any more.
  ended : Connection → Connection
  ended c = record c { pa = record c.pa { accepts = false } }

  unfoldable pub pa_state_callback : ContextState → Connection → Connection
  unfolding wake ended
  pa_state_callback ready c = wake (record c {
    subscribed = true;
    pa = record c.pa { requests = c.pa.requests ++ server_info ∷ [] };
  })
  pa_state_callback terminated c = wake (ended c)
  pa_state_callback failed c = wake (ended c)
  pa_state_callback other c = c

  freed : Option Entry → Option Entry
  freed o = none

  -- `pa_free`. The pointer `pa_loop` keeps its value, and the context is not released.
  unfoldable pub pa_free : Pa T → Audio → Pa T × Audio
  unfolding freed
  pa_free s a = (
    record s { pool = drain_all T freed s.pool; default_sink = none },
    if a.pa_loop then record a { loops = a.loops - 1; running = false } else a,
  )

  -- `pa_free` leaves no entry in the queue and forgets the default sink.
  pub pa_free-empties :
      (s : Pa T) (a : Audio)
      → (TailQueue.entries T (pa_free s a).0.pool.queue ≡ [])
        × ((pa_free s a).0.default_sink ≡ none)
  unfolding pa_free
  pa_free-empties s a = (drain_all-entries T _ s.pool, refl)
