-- ===== src/Pa/Named.antt =====
-- `pa_find_by_sink` of components/pa.c for a name, behind the entry of the default sink.
use slstatus.Prelude.{
  ℕ, ◌≡◌, refl, ap, ◌∙◌, List, [], ◌∷◌, ◌++◌, Option, none, some, arith, true, if◌then◌else◌,
}
use slstatus.Prelude.Int.{pos}
use slstatus.Prelude.Text.{Text}
use slstatus.Pool.{TailQueue, insert}
use slstatus.Pa.{
  Entry, Pa, null_read, matches_sink, walk_sink, end_walk, new_sink, add_sink, own_sink,
  pa_find_by_sink,
}

-- The entry of the default sink before the server has answered.
abbrev pub blank : Entry
blank = record {
  sink = none;
  name = none;
  description = none;
  index = 0;
  volume = pos 0;
  mute = pos 0;
}

module _ (T : TailQueue) where
  open T use {entries, entries-insert_tail}

  -- The walk for a name stops at an entry without one.
  walk_named :
      (name : Text) (cells : ℕ → Option Entry) (e : Entry) (p : ℕ) (ps : List ℕ)
      → cells p ≡ some e
      → e.sink ≡ none
      → walk_sink (some name) cells (p ∷ ps) ≡ null_read
  unfolding walk_sink matches_sink
  walk_named name cells e p ps c h = rw (c, walk_sink, h, matches_sink) refl

  -- Where the queue is empty and the context takes requests, the first lookup of the default sink makes its entry, and every lookup
  -- by a name from then on ends in a read at NULL: the entry of the default sink has no name and
  -- stands first.
  pub pa_find_by_sink-named :
      (s : Pa T)
      → entries s.pool.queue ≡ []
      → s.accepts ≡ true
      → (p : ℕ) × (s' : Pa T) × (pa_find_by_sink T none s ≡ some (p, s'))
        × ((name : Text) → pa_find_by_sink T (some name) s' ≡ none)
  unfolding pa_find_by_sink end_walk add_sink new_sink own_sink insert walk_sink
  pa_find_by_sink-named s h a = (
    s.pool.fresh,
    (new_sink T none s).1,
    ap (λ ps. end_walk T none (walk_sink none s.pool.cells ps) s) h
        ∙ ap (λ b. if b then some (new_sink T none s) else none) a,
    λ name.
        let s' = (new_sink T none s).1 in
        let one : entries s'.pool.queue ≡ s.pool.fresh ∷ [] =
          entries-insert_tail s.pool.queue s.pool.fresh ∙ ap (λ ps. ps ++ s.pool.fresh ∷ []) h in
        ap (λ ps. end_walk T (some name) (walk_sink (some name) s'.pool.cells ps) s') one
        ∙ ap (λ r. end_walk T (some name) r s')
            (walk_named name s'.pool.cells blank s.pool.fresh [] (ground arith) refl),
  )
