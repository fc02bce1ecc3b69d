-- ===== src/Pa/Links.antt =====
-- The pointers of the queue in components/pa.c.
use slstatus.Prelude.{ℕ, ◌≡◌, refl, Bool, true, false, Option, none, some, ◌%◌, ◌==◌, if◌then◌else◌}
use slstatus.Prelude.Int.{ℤ, pos, eqb_ℤ}
use slstatus.Prelude.Text.{Text}
use slstatus.Util.{World}
use slstatus.Util.Float.{Float}
use slstatus.Pool.{TailQueue}
use slstatus.Pool.Find.{IsLinked, IsLinked-insert}
use slstatus.Pool.Links.{on_both, IsLinked-modify}
use slstatus.Pa.{
  Entry, SinkInfo, Walked, found, fell_off, null_read, Pa, new_sink, add_sink, end_walk, walk_sink,
  pa_find_by_sink, update_info, pa_sink_info_callback, ask_changed, pa_find_by_index,
  pa_subscribe_callback, facility_mask_plus_one, event_sink,
}

-- A property of both branches, where each may use the test.
pub by_test :
    {A : Type 0} (P : A → Type 0) (b : Bool) {x y : A}
    → (b ≡ true → P x)
    → (b ≡ false → P y)
    → P (if b then x else y)
by_test P true hx hy = hx refl
by_test P false hx hy = hy refl

module _ (T : TailQueue) where
  open T use {entries}

  -- The queue of a lookup that returns.
  abbrev pub LinkedAfter : Option (ℕ × Pa T) → Type 0
  LinkedAfter none = Unit
  LinkedAfter (some (p, s)) = IsLinked T s.pool

  end_walk-IsLinked :
      (sink : Option Text) (r : Walked) (s : Pa T)
      → IsLinked T s.pool
      → LinkedAfter (end_walk T sink r s)
  unfolding end_walk add_sink new_sink
  end_walk-IsLinked sink (found p) s h = h
  end_walk-IsLinked sink fell_off s h =
      on_both LinkedAfter s.accepts (IsLinked-insert T _ s.pool h) tt
  end_walk-IsLinked sink null_read s h = tt

  pub pa_find_by_sink-IsLinked :
      (sink : Option Text) (s : Pa T) → IsLinked T s.pool → LinkedAfter (pa_find_by_sink T sink s)
  unfolding pa_find_by_sink
  pa_find_by_sink-IsLinked sink s h =
      end_walk-IsLinked sink (walk_sink sink s.pool.cells (entries s.pool.queue)) s h

  abbrev Linked : Pa T × World → Type 0
  Linked r = IsLinked T r.0.pool

  update_info-IsLinked :
      (F : Float) (info : SinkInfo) (p : ℕ) (o : Option Entry) (s : Pa T) (w : World)
      → IsLinked T s.pool
      → IsLinked T (update_info T F info p o s w).0.pool
  unfolding update_info
  update_info-IsLinked F info p none s w h = h
  update_info-IsLinked F info p (some e) s w h = IsLinked-modify T p _ s.pool h

  pub pa_sink_info_callback-IsLinked :
      (F : Float) (info : Option SinkInfo) (eol : ℤ) (p : ℕ) (s : Pa T) (w : World)
      → IsLinked T s.pool
      → IsLinked T (pa_sink_info_callback T F info eol p s w).0.pool
  unfolding pa_sink_info_callback
  pa_sink_info_callback-IsLinked F none eol p s w h = h
  pa_sink_info_callback-IsLinked F (some info) eol p s w h =
      on_both Linked (eqb_ℤ eol (pos 0)) (update_info-IsLinked F info p (s.pool.cells p) s w h) h

  -- What a callback leaves: a crash is of a request that is not taken.
  abbrev pub HeardLinked : Pa T → Option (Pa T) → Type 0
  HeardLinked s none = s.accepts ≡ false
  HeardLinked s (some s') = IsLinked T s'.pool × (s'.accepts ≡ s.accepts)

  abbrev pub FoundLinked : Pa T → Option (ℕ × Pa T) → Type 0
  FoundLinked s none = s.accepts ≡ false
  FoundLinked s (some (p, s')) = IsLinked T s'.pool × (s'.accepts ≡ s.accepts)

  update_info-accepts :
      (F : Float) (info : SinkInfo) (p : ℕ) (o : Option Entry) (s : Pa T) (w : World)
      → (update_info T F info p o s w).0.accepts ≡ s.accepts
  unfolding update_info
  update_info-accepts F info p none s w = refl
  update_info-accepts F info p (some e) s w = refl

  pub pa_sink_info_callback-accepts :
      (F : Float) (info : Option SinkInfo) (eol : ℤ) (p : ℕ) (s : Pa T) (w : World)
      → (pa_sink_info_callback T F info eol p s w).0.accepts ≡ s.accepts
  unfolding pa_sink_info_callback
  pa_sink_info_callback-accepts F none eol p s w = refl
  pa_sink_info_callback-accepts F (some info) eol p s w =
      on_both (λ (r : Pa T × World). r.0.accepts ≡ s.accepts) (eqb_ℤ eol (pos 0))
        (update_info-accepts F info p (s.pool.cells p) s w) refl

  ask_changed-IsLinked :
      (index : ℕ) (o : Option ℕ) (s : Pa T)
      → IsLinked T s.pool
      → HeardLinked s (ask_changed T index o s)
  unfolding ask_changed
  ask_changed-IsLinked index none s h = (h, refl)
  ask_changed-IsLinked index (some p) s h =
      by_test (HeardLinked s) s.accepts (λ a. (h, refl)) (λ a. a)

  pub pa_subscribe_callback-IsLinked :
      (type index : ℕ) (s : Pa T)
      → IsLinked T s.pool
      → HeardLinked s (pa_subscribe_callback T type index s)
  unfolding pa_subscribe_callback
  pa_subscribe_callback-IsLinked type index s h =
      on_both (HeardLinked s) (type % facility_mask_plus_one == event_sink)
        (ask_changed-IsLinked index (pa_find_by_index T index s) s h) (h, refl)
