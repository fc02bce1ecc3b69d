-- ===== src/Pa/Thread/Twice.antt =====
-- Two lookups of the default sink in components/pa.c at the same time.
use slstatus.Prelude.{
  sym, true, ℕ, ◌+◌, ◌≡◌, refl, ap, ◌∙◌, false, [], ◌∷◌, ◌++◌, Option, none, some, arith,
}
use slstatus.Prelude.Text.{Text}
use mathlib.Core.Path.{subst}
use slstatus.Pool.{TailQueue, find_by, insert}
use slstatus.Pool.Find.{IsLinked, IsLinked-insert, find_by-insert, find_by-insert_old}
use slstatus.Pa.{
  Entry, Pa, by_name, new_sink, fell_off, walk_sink, end_walk, add_sink, own_sink, is_default,
  pa_find_by_sink,
}
use slstatus.Pa.Named.{blank}
use slstatus.Pa.Sink
use slstatus.Pa.Sink.{walk_default, walked, default_lem}
use slstatus.Pa.Thread.{
  idle, adding, holding, System, after_walk, line_from, line_step, ask, after_server_walk,
  after_add, after_server_add, server_from, server_step,
}

module _ (T : TailQueue) where
  open T use {entries, entries-insert_tail}

  -- Both have found no entry.
  abbrev both : Text → System T → System T
  both name s = record s {
    pa = record s.pa { default_sink = some name };
    main = adding none;
    server = some name;
  }

  walk_none :
      (s : Pa T)
      → IsLinked T s.pool
      → find_by T Sink.is_default s.pool ≡ none
      → walk_sink none s.pool.cells (entries s.pool.queue) ≡ fell_off
  unfolding find_by
  walk_none s l h = walk_default s.pool.cells s.pool.fresh _ l.all ∙ ap walked h

  both_lem :
      (name : Text) (s : System T)
      → IsLinked T s.pa.pool
      → s.main ≡ idle
      → s.server ≡ none
      → is_default T name s.pa.default_sink ≡ false
      → find_by T Sink.is_default s.pa.pool ≡ none
      → server_step T name (line_step T none s) ≡ both name s
  unfolding server_step line_step server_from line_from after_walk after_server_walk
  both_lem name s l m v d h =
      let off = walk_none s.pa l h in
      rw (m, line_from, off, after_walk, v, server_from, d) (rw off refl)

  -- An entry of the default sink.
  abbrev pub IsOwn : System T → ℕ → Type 0
  IsOwn t p = (e : Entry) × (t.pa.pool.cells p ≡ some e) × (e.sink ≡ none)

  -- Two entries of the default sink behind the others, of which the main thread has the second and
  -- lookups find the first.
  pub record IsTwice (s t : System T) : Type 0 where
    pub queue :
        entries t.pa.pool.queue
        ≡ (entries s.pa.pool.queue ++ s.pa.pool.fresh ∷ []) ++ (s.pa.pool.fresh + 1) ∷ []
    pub first : IsOwn t s.pa.pool.fresh
    pub second : IsOwn t (s.pa.pool.fresh + 1)
    pub main : t.main ≡ holding (s.pa.pool.fresh + 1)
    pub later : pa_find_by_sink T none t.pa ≡ some (s.pa.pool.fresh, t.pa)

  -- Both have inserted an entry, the server's first.
  abbrev final : Text → System T → System T
  final name s =
      let b = both name s in
      let (p, once) = new_sink T none b.pa in
      let (q, twice) =
        new_sink T none (record once { requests = once.requests ++ by_name (some name) p ∷ [] }) in
      record b { pa = twice; main = holding q; server = none }

  final_lem :
      (name other : Text) (sink : Option Text) (s : System T)
      → s.pa.accepts ≡ true
      → line_step T sink (server_step T other (both name s)) ≡ final name s
  unfolding server_step line_step server_from line_from ask add_sink new_sink after_add
      after_server_add
  final_lem name other sink s a = rw a refl

  added_lem :
      (name : Text) (s : System T)
      → IsLinked T s.pa.pool
      → find_by T Sink.is_default s.pa.pool ≡ none
      → IsTwice s (final name s)
  unfolding new_sink own_sink insert end_walk
  added_lem name s l h =
      let once = insert T blank s.pa.pool in
      let l' = IsLinked-insert T blank s.pa.pool l in
      let found = find_by-insert T Sink.is_default blank s.pa.pool l h refl in
      let t = final name s in
      record {
        queue =
            entries-insert_tail once.queue once.fresh
            ∙ ap (λ ps. ps ++ once.fresh ∷ [])
                (entries-insert_tail s.pa.pool.queue s.pa.pool.fresh);
        first = (blank, ground arith, refl);
        second = (blank, ground arith, refl);
        main = refl;
        later =
            default_lem T t.pa (IsLinked-insert T blank once l')
            ∙ ap (λ o. end_walk T none (walked o) t.pa)
                (find_by-insert_old T Sink.is_default blank once s.pa.pool.fresh l' found);
      }

  -- Where the context takes requests, every pointer of the queue points to an entry and none is of
  -- the default sink, the main thread begins to look that up, and between its walk and its insertion the server's answer comes
  -- that names a new default sink, there are two entries of the default sink at the end of the queue
  -- afterwards. The main thread has the second, and the next lookup of the default sink adds nothing
  -- and finds the first.
  pub line-server_info :
      (name other : Text) (sink : Option Text) (s : System T)
      → IsLinked T s.pa.pool
      → s.main ≡ idle
      → s.server ≡ none
      → is_default T name s.pa.default_sink ≡ false
      → find_by T Sink.is_default s.pa.pool ≡ none
      → s.pa.accepts ≡ true
      → IsTwice s (line_step T sink (server_step T other (server_step T name (line_step T none s))))
  line-server_info name other sink s l m v d h a =
      subst (IsTwice s)
        (sym (
          ap (λ t. line_step T sink (server_step T other t)) (both_lem name s l m v d h)
          ∙ final_lem name other sink s a))
        (added_lem name s l h)
