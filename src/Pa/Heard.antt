-- ===== src/Pa/Heard.antt =====
-- The lookups and callbacks of components/pa.c that can crash: a crash is of a request that is not
-- taken.
use slstatus.Prelude.{ℕ, refl, sym, ◌∙◌, Option, none, some}
use slstatus.Prelude.Text.{Text}
use slstatus.Pool.{TailQueue}
use slstatus.Pool.Find.{IsLinked, IsLinked-insert}
use slstatus.Pool.Links.{on_both}
use slstatus.Pa.{
  Pa, new_sink, add_sink, end_walk, is_default, ask_default, pa_find_by_sink, server_info_callback,
}
use slstatus.Pa.Links.{by_test, FoundLinked, HeardLinked}
use slstatus.Pa.Sink.{walked, default_lem}
use mathlib.Core.Path.{subst}

module _ (T : TailQueue) where
  walked-FoundLinked :
      (o : Option ℕ) (s : Pa T) → IsLinked T s.pool → FoundLinked T s (end_walk T none (walked o) s)
  unfolding end_walk add_sink new_sink
  walked-FoundLinked none s l =
      by_test (FoundLinked T s) s.accepts (λ a. (IsLinked-insert T _ s.pool l, refl)) (λ a. a)
  walked-FoundLinked (some p) s l = (l, refl)

  pub pa_find_by_sink-FoundLinked :
      (s : Pa T) → IsLinked T s.pool → FoundLinked T s (pa_find_by_sink T none s)
  pa_find_by_sink-FoundLinked s l =
      subst (FoundLinked T s) (sym (default_lem T s l)) (walked-FoundLinked _ s l)

  ask_default-HeardLinked :
      (name : Text) (s : Pa T) (o : Option (ℕ × Pa T))
      → FoundLinked T s o
      → HeardLinked T s (ask_default T name o)
  unfolding ask_default
  ask_default-HeardLinked name s none h = h
  ask_default-HeardLinked name s (some (p, t)) (l, same) =
      by_test (HeardLinked T s) t.accepts (λ a. (l, same)) (λ a. sym same ∙ a)

  pub server_info_callback-HeardLinked :
      (name : Text) (s : Pa T) → IsLinked T s.pool → HeardLinked T s (server_info_callback T name s)
  unfolding server_info_callback
  server_info_callback-HeardLinked name s l =
      let named = record s { default_sink = some name } in
      on_both (HeardLinked T s) (is_default T name s.default_sink) (l, refl)
        (ask_default-HeardLinked name s (pa_find_by_sink T none named)
          (pa_find_by_sink-FoundLinked named l))
