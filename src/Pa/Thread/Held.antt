-- ===== src/Pa/Thread/Held.antt =====
-- The entries that the two threads of components/pa.c and libpulse have pointers to.
use slstatus.Prelude.{true, ℕ, ◌%◌, ◌≡◌, refl, Option, none, some, ◌==◌, arith, All-append}
use slstatus.Prelude.Int.{ℤ, pos, eqb_ℤ}
use slstatus.Prelude.Text.{Text}
use slstatus.Util.{World}
use slstatus.Util.Float.{Float}
use slstatus.Pool.{TailQueue, insert, modify}
use slstatus.Pool.Find.{IsLinked-insert}
use slstatus.Pool.Links.{on_both, IsLinked-modify}
use slstatus.Pa.{
  Entry, SinkInfo, Walked, found, fell_off, null_read, Pa, new_sink, add_sink, is_default,
  update_info, pa_sink_info_callback, pa_find_by_index, ask_changed, pa_subscribe_callback,
  facility_mask_plus_one, event_sink,
}
use slstatus.Pa.Thread.{
  Place, idle, adding, holding, System, after_walk, after_add, line_from, line_step, ask,
  after_server_walk, after_server_add, heard, ended, server_from, server_step, Step, line,
  sink_info, subscribed, elsewhere, Reaches, here, then_step,
}
use slstatus.Pa.Thread
use slstatus.Pa.Thread.Grows.{
  IsHeld, AreHeld, insert-Grows, modify-Grows, All-Grows, Stands-Grows, walked-IsHeld, found-IsHeld,
}

module _ (T : TailQueue) where
  open T use {entries}

  -- A new entry, with the request for it.
  new_sink-AreHeld :
      (sink : Option Text) (s : System T)
      → AreHeld T s
      → let (p, pa) = new_sink T sink s.pa in AreHeld T (record s { pa = pa }) × IsHeld T pa.pool p
  unfolding new_sink insert
  new_sink-AreHeld sink s h =
      let (p, pa) = new_sink T sink s.pa in
      let new : IsHeld T pa.pool p = (ground arith, ground arith) in
      let g = insert-Grows T _ s.pa.pool in
      (
        record {
          linked = IsLinked-insert T _ s.pa.pool h.linked;
          asked =
              All-append _ s.pa.requests _ (All-Grows T s.pa.pool pa.pool s.pa.requests g h.asked)
                (new, tt);
          main = Stands-Grows T s.pa.pool pa.pool s.main g h.main;
        },
        new,
      )

  crash-AreHeld : (s : System T) → AreHeld T s → AreHeld T (record s { crashed = true })
  crash-AreHeld s h = record { linked = h.linked; asked = h.asked; main = h.main }

  -- The insertion of a lookup.
  after_add-AreHeld :
      (own : Option Text) (s : System T)
      → AreHeld T s
      → AreHeld T (after_add T (add_sink T own s.pa) s)
  unfolding after_add add_sink
  after_add-AreHeld own s h =
      let (sound, held) = new_sink-AreHeld own s h in
      on_both (λ o. AreHeld T (after_add T o s)) s.pa.accepts
        (record { linked = sound.linked; asked = sound.asked; main = held })
        (record { linked = h.linked; asked = h.asked; main = tt })

  ask-AreHeld :
      (name : Text) (p : ℕ) (s : System T)
      → AreHeld T s
      → IsHeld T s.pa.pool p
      → AreHeld T (ask T name p s)
  unfolding ask
  ask-AreHeld name p s h held =
      on_both (AreHeld T) s.pa.accepts
        (record {
          linked = h.linked;
          asked = All-append _ s.pa.requests _ h.asked (held, tt);
          main = h.main;
        })
        (crash-AreHeld s h)

  after_walk-AreHeld :
      (sink : Option Text) (r : Walked) (s : System T)
      → AreHeld T s
      → ((p : ℕ) → r ≡ found p → IsHeld T s.pa.pool p)
      → AreHeld T (after_walk T sink r s)
  unfolding after_walk
  after_walk-AreHeld sink (found p) s h held = record {
    linked = h.linked;
    asked = h.asked;
    main = held p refl;
  }
  after_walk-AreHeld sink fell_off s h held = record {
    linked = h.linked;
    asked = h.asked;
    main = tt;
  }
  after_walk-AreHeld sink null_read s h held = record {
    linked = h.linked;
    asked = h.asked;
    main = h.main;
  }

  line_from-AreHeld :
      (sink : Option Text) (m : Place) (s : System T)
      → s.main ≡ m
      → AreHeld T s
      → AreHeld T (line_from T sink m s)
  unfolding line_from
  line_from-AreHeld sink idle s e h =
      after_walk-AreHeld sink _ s h (λ p. walked-IsHeld T sink s.pa p h.linked)
  line_from-AreHeld sink (adding own) s e h = after_add-AreHeld own s h
  line_from-AreHeld sink (holding p) s e h = record {
    linked = h.linked;
    asked = h.asked;
    main = tt;
  }

  -- The name of the default sink and the place of the other thread may change.
  rest-AreHeld :
      (name server : Option Text) (s : System T)
      → AreHeld T s
      → AreHeld T (record s { pa = record s.pa { default_sink = name }; server = server })
  rest-AreHeld name server s h = record { linked = h.linked; asked = h.asked; main = h.main }

  after_server_walk-AreHeld :
      (name : Text) (r : Walked) (s : System T)
      → AreHeld T s
      → ((p : ℕ) → r ≡ found p → IsHeld T s.pa.pool p)
      → AreHeld T (after_server_walk T name r s)
  unfolding after_server_walk
  after_server_walk-AreHeld name (found p) s h held = ask-AreHeld name p s h (held p refl)
  after_server_walk-AreHeld name fell_off s h held = rest-AreHeld _ _ s h
  after_server_walk-AreHeld name null_read s h held = record {
    linked = h.linked;
    asked = h.asked;
    main = h.main;
  }

  server_from-AreHeld :
      (name : Text) (o : Option Text) (s : System T)
      → AreHeld T s
      → AreHeld T (server_from T name o s)
  unfolding server_from after_server_add add_sink
  server_from-AreHeld name none s h = on_both (AreHeld T) (is_default T name s.pa.default_sink) h (
      after_server_walk-AreHeld name _ _ (rest-AreHeld (some name) s.server s h)
        (λ p. walked-IsHeld T none s.pa p h.linked))
  server_from-AreHeld name (some own) s h =
      let (sound, held) = new_sink-AreHeld none s h in
      on_both (λ o. AreHeld T (after_server_add T own o s)) s.pa.accepts
        (ask-AreHeld own _ _ (rest-AreHeld _ none _ sound) held)
        (record { linked = h.linked; asked = h.asked; main = h.main })

  -- What stands in an entry may change.
  modify-AreHeld :
      (q : ℕ) (e : Entry) (w : World) (s : System T)
      → AreHeld T s
      → AreHeld T (record s { pa = record s.pa { pool = modify T q e s.pa.pool }; world = w })
  modify-AreHeld q e w s h =
      let g = modify-Grows T q e s.pa.pool in
      record {
        linked = IsLinked-modify T q e s.pa.pool h.linked;
        asked = All-Grows T s.pa.pool (modify T q e s.pa.pool) s.pa.requests g h.asked;
        main = Stands-Grows T s.pa.pool (modify T q e s.pa.pool) s.main g h.main;
      }

  -- The state of both threads after a callback.
  abbrev given : System T → Pa T × World → System T
  given s (pa, w) = record s { pa = pa; world = w }

  elsewhere-AreHeld : (w : World) (s : System T) → AreHeld T s → AreHeld T (given s (s.pa, w))
  elsewhere-AreHeld w s h = record { linked = h.linked; asked = h.asked; main = h.main }

  update_info-AreHeld :
      (F : Float) (info : SinkInfo) (p : ℕ) (o : Option Entry) (s : System T)
      → AreHeld T s
      → AreHeld T (given s (update_info T F info p o s.pa s.world))
  unfolding update_info
  update_info-AreHeld F info p none s h = elsewhere-AreHeld s.world s h
  update_info-AreHeld F info p (some e) s h = modify-AreHeld p _ _ s h

  sink_info-AreHeld :
      (F : Float) (info : Option SinkInfo) (eol : ℤ) (p : ℕ) (s : System T)
      → AreHeld T s
      → AreHeld T (given s (pa_sink_info_callback T F info eol p s.pa s.world))
  unfolding pa_sink_info_callback
  sink_info-AreHeld F none eol p s h = elsewhere-AreHeld s.world s h
  sink_info-AreHeld F (some info) eol p s h =
      on_both (λ (r : Pa T × World). AreHeld T (given s r)) (eqb_ℤ eol (pos 0))
        (update_info-AreHeld F info p (s.pa.pool.cells p) s h) (elsewhere-AreHeld s.world s h)

  ask_changed-AreHeld :
      (index : ℕ) (o : Option ℕ) (s : System T)
      → AreHeld T s
      → ((p : ℕ) → o ≡ some p → IsHeld T s.pa.pool p)
      → AreHeld T (heard T (ask_changed T index o s.pa) s)
  unfolding ask_changed heard
  ask_changed-AreHeld index none s h held = record {
    linked = h.linked;
    asked = All-append _ s.pa.requests _ h.asked (tt, tt);
    main = h.main;
  }
  ask_changed-AreHeld index (some p) s h held =
      on_both (λ o. AreHeld T (heard T o s)) s.pa.accepts
        (record {
          linked = h.linked;
          asked = All-append _ s.pa.requests _ h.asked (held p refl, tt);
          main = h.main;
        })
        (crash-AreHeld s h)

  subscribed-AreHeld :
      (type index : ℕ) (s : System T)
      → AreHeld T s
      → AreHeld T (heard T (pa_subscribe_callback T type index s.pa) s)
  unfolding heard pa_subscribe_callback pa_find_by_index
  subscribed-AreHeld type index s h =
      on_both (λ (o : Option (Pa T)). AreHeld T (heard T o s))
        (type % facility_mask_plus_one == event_sink)
        (ask_changed-AreHeld index (pa_find_by_index T index s.pa) s h
          (λ p. found-IsHeld T (λ e. e.index == index) s.pa.pool p h.linked))
        h

  Step-AreHeld : {F : Float} {s t : System T} → AreHeld T s → Step T F s t → AreHeld T t
  unfolding line_step server_step
  Step-AreHeld {s = s} h (line sink) = line_from-AreHeld sink s.main s refl h
  Step-AreHeld {s = s} h (Thread.server_info name) = server_from-AreHeld name s.server s h
  Step-AreHeld {F} {s} h (sink_info info eol p) = sink_info-AreHeld F info eol p s h
  Step-AreHeld {s = s} h (subscribed type index) = subscribed-AreHeld type index s h
  Step-AreHeld h ended = record { linked = h.linked; asked = h.asked; main = h.main }
  Step-AreHeld {s = s} h (elsewhere w) = elsewhere-AreHeld w s h

  -- If every pointer of the queue, every pointer that a request has given to libpulse, and the one
  -- that the main thread has from its lookup is to an entry, then that is so after all steps of the
  -- two threads, in whatever order and whatever the server answers.
  pub Reaches-AreHeld : (F : Float) (s t : System T) → AreHeld T s → Reaches T F s t → AreHeld T t
  Reaches-AreHeld F s _ h here = h
  Reaches-AreHeld F s u h (then_step t _ before step) =
      Step-AreHeld (Reaches-AreHeld F s t h before) step
