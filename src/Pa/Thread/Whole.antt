-- ===== src/Pa/Thread/Whole.antt =====
-- The steps of components/pa.c with nothing between them.
use slstatus.Prelude.{◌≡◌, refl, ap, ◌∙◌, ℕ, true, Option, none, some, Bool-cases, inl, inr}
use slstatus.Prelude.Text.{Text}
use slstatus.Pool.{TailQueue}
use slstatus.Pa.{
  Pa, Walked, found, fell_off, null_read, walk_sink, add_sink, end_walk, pa_find_by_sink,
  ask_default, is_default, server_info_callback,
}
use slstatus.Pa.Thread.{
  Place, idle, adding, holding, System, after_walk, line_from, line_step, ask, after_server_walk,
  after_add, after_server_add, server_from, server_step,
}

module _ (T : TailQueue) where
  open T use {entries}

  -- The insertion, where the walk has found no entry.
  abbrev settle : Place → System T → System T
  settle (adding own) s = line_step T none s
  settle _ s = s

  -- What becomes of a lookup.
  abbrev returned : System T → Option (ℕ × Pa T) → System T
  returned s none = record s { crashed = true }
  returned s (some (p, pa)) = record s { pa = pa; main = holding p }

  after_add-returned :
      (sink : Option Text) (o : Option (ℕ × Pa T)) (s : System T)
      → s.main ≡ idle
      → after_add T o (record s { main = adding sink }) ≡ returned s o
  unfolding after_add
  after_add-returned sink none s h = rw h refl
  after_add-returned sink (some (p, pa)) s h = refl

  settle-after_walk :
      (sink : Option Text) (r : Walked) (s : System T)
      → s.main ≡ idle
      → settle (after_walk T sink r s).main (after_walk T sink r s)
        ≡ returned s (end_walk T sink r s.pa)
  unfolding end_walk after_walk line_from line_step
  settle-after_walk sink (found q) s h = refl
  settle-after_walk sink fell_off s h = after_add-returned sink (add_sink T sink s.pa) s h
  settle-after_walk sink null_read s h = rw h refl

  line_step_lem :
      (sink : Option Text) (s : System T)
      → s.main ≡ idle
      → line_step T sink s
        ≡ after_walk T sink (walk_sink sink s.pa.pool.cells (entries s.pa.pool.queue)) s
  unfolding line_step line_from
  line_step_lem sink s h = ap (λ m. line_from T sink m s) h

  -- A lookup of the main thread with no step of the other thread between its own is
  -- `pa_find_by_sink`, a crash included.
  settle-line_step :
      (sink : Option Text) (s : System T)
      → s.main ≡ idle
      → settle (line_step T sink s).main (line_step T sink s)
        ≡ returned s (pa_find_by_sink T sink s.pa)
  unfolding pa_find_by_sink
  settle-line_step sink s h =
      ap (λ (t : System T). settle t.main t) (line_step_lem sink s h) ∙ settle-after_walk sink _ s h

  -- The insertion of `server_info_callback`, where its walk has found no entry.
  abbrev settle_server : Option Text → System T → System T
  settle_server none s = s
  settle_server (some name) s = server_step T name s

  abbrev Answered : System T → Option (Pa T) → Type 0
  Answered t none = t.crashed ≡ true
  Answered t (some pa) = (t.pa ≡ pa) × (t.server ≡ none)

  asked_lem :
      (name : Text) (p : ℕ) (s : System T)
      → s.server ≡ none
      → let t = ask T name p s in
        Answered (settle_server t.server t) (ask_default T name (some (p, s.pa)))
  unfolding ask ask_default
  asked_lem name p s h = elim (Bool-cases s.pa.accepts) [
    | inl a ↦ rw (a, h) (refl, refl)
    | inr a ↦ rw (a, h) refl
  ]

  after_server_add_lem :
      (name : Text) (o : Option (ℕ × Pa T)) (s : System T)
      → Answered (after_server_add T name o s) (ask_default T name o)
  unfolding after_server_add ask_default ask
  after_server_add_lem name none s = refl
  after_server_add_lem name (some (p, pa)) s = elim (Bool-cases pa.accepts) [
    | inl a ↦ rw a (refl, refl)
    | inr a ↦ rw a refl
  ]

  settle-after_server_walk :
      (name : Text) (r : Walked) (s : System T)
      → s.server ≡ none
      → let t = after_server_walk T name r s in
        Answered (settle_server t.server t) (ask_default T name (end_walk T none r s.pa))
  unfolding after_server_walk end_walk ask_default ask server_step server_from
  settle-after_server_walk name (found p) s h = asked_lem name p s h
  settle-after_server_walk name fell_off s h =
      after_server_add_lem name (add_sink T none s.pa) (record s { server = some name })
  settle-after_server_walk name null_read s h = rw h refl

  -- `server_info_callback` with no step of the main thread between its own is that function.
  settle-server_step :
      (name : Text) (s : System T)
      → s.server ≡ none
      → let t = server_step T name s in
        Answered (settle_server t.server t) (server_info_callback T name s.pa)
  unfolding server_info_callback server_step server_from pa_find_by_sink
  settle-server_step name s h = elim (Bool-cases (is_default T name s.pa.default_sink)) [
    | inl same ↦ rw (h, server_from, same) (refl, refl)
    | inr new ↦
        rw (h, server_from, new)
          (settle-after_server_walk name (walk_sink none s.pa.pool.cells (entries s.pa.pool.queue))
            (record s { pa = record s.pa { default_sink = some name }; server = none }) refl)
  ]
