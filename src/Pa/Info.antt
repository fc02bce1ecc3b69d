-- ===== src/Pa/Info.antt =====
-- `pa_sink_info_callback` of components/pa.c.
use slstatus.Prelude.{
  sym, refl, ◌⊎◌, inl, inr, Bool-cases, ◌==◌, ℕ, ◌+◌, ◌≡◌, ap, ◌∙◌, arith, true, false, Option,
  none, some, if◌then◌else◌,
}
use slstatus.Prelude.Int.{ℤ, pos, negsuc, eqb_ℤ}
use slstatus.Util.{World, kill}
use slstatus.Util.Float.{Float}
use slstatus.Bar.{sigrtmin}
use slstatus.Pool.{TailQueue, modify}
use slstatus.Pa.{
  Entry, Pa, SinkInfo, informed, news, pa_sink_info_callback, update_info, pa_signal, percent,
}

eqb_ℤ-refl : (n : ℤ) → eqb_ℤ n n ≡ true
eqb_ℤ-refl (pos n) = ground arith
eqb_ℤ-refl (negsuc n) = ground arith

eqb_ℤ-same : (m n : ℤ) → eqb_ℤ m n ≡ true → m ≡ n
eqb_ℤ-same (pos m) (pos n) h = ground arith
eqb_ℤ-same (pos m) (negsuc n) h = ground arith
eqb_ℤ-same (negsuc m) (pos n) h = ground arith
eqb_ℤ-same (negsuc m) (negsuc n) h = ground arith

eqb_ℤ-apart : (m n : ℤ) → eqb_ℤ m n ≡ false → ¬ (m ≡ n)
eqb_ℤ-apart m n h e = let t : eqb_ℤ m n ≡ true = ap (λ x. eqb_ℤ m x) (sym e) ∙ eqb_ℤ-refl m in cc

module _ (F : Float) (T : TailQueue) (info : SinkInfo) (p : ℕ) where
  news-informed : (e : Entry) → news F info (informed F info e) ≡ false
  unfolding news informed
  news-informed e = ground (arith, eqb_ℤ-refl (percent F info.volume), eqb_ℤ-refl info.mute)

  update_info_lem :
      (e : Entry) (o : Option Entry) (s : Pa T) (w : World)
      → o ≡ some e
      → update_info T F info p o s w ≡ (
        record s { pool = modify T p (informed F info e) s.pool },
        if news F info e then kill (sigrtmin + pa_signal) w else w,
      )
  unfolding update_info
  update_info_lem e none s w h = cc
  update_info_lem e (some e') s w h = ap (λ o. update_info T F info p o s w) h

  -- None of the three comparisons finds another value.
  abbrev pub IsSame : Entry → Type 0
  IsSame e = (info.index ≡ e.index) × (percent F info.volume ≡ e.volume) × (info.mute ≡ e.mute)

  news-IsSame :
      (e : Entry) → (IsSame e × (news F info e ≡ false)) ⊎ ((¬ IsSame e) × (news F info e ≡ true))
  unfolding news
  news-IsSame e = elim (Bool-cases (info.index == e.index)) [
    | inr i ↦ inr (λ h. ground (arith, i, h.0), rw i refl)
    | inl i ↦ elim (Bool-cases (eqb_ℤ (percent F info.volume) e.volume)) [
      | inr v ↦ inr (λ h. eqb_ℤ-apart _ _ v h.1, rw (i, v) refl)
      | inl v ↦ elim (Bool-cases (eqb_ℤ info.mute e.mute)) [
        | inr m ↦ inr (λ h. eqb_ℤ-apart _ _ m h.2, rw (i, v, m) refl)
        | inl m ↦ inl ((ground (arith, i), eqb_ℤ-same _ _ v, eqb_ℤ-same _ _ m), rw (i, v, m) refl)
      ]
    ]
  ]

  -- The entry of a sink with the information.
  abbrev pub filled : Entry → Entry
  filled e = record {
    sink = e.sink;
    name = some info.name;
    description = some info.description;
    index = info.index;
    volume = percent F info.volume;
    mute = info.mute;
  }

  -- The information on a sink fills the entry that it was asked for. If its index, rounded
  -- percentage and mute flag are those of the entry no signal is raised, and if one of them is
  -- another the signal of the sinks is. When the same information comes again the entry stays as it
  -- is and no signal is raised.
  pub pa_sink_info_callback_lem :
      (e : Entry) (s : Pa T) (w w' : World)
      → s.pool.cells p ≡ some e
      → let r = pa_sink_info_callback T F (some info) (pos 0) p s w in
        let again = pa_sink_info_callback T F (some info) (pos 0) p r.0 w' in
        (r.0.pool.cells p ≡ some (filled e))
        × ((IsSame e × (r.1 ≡ w)) ⊎ ((¬ IsSame e) × (r.1 ≡ kill (sigrtmin + pa_signal) w)))
        × (again.0.pool.cells p ≡ some (filled e))
        × (again.1 ≡ w')
  unfolding pa_sink_info_callback modify informed
  pa_sink_info_callback_lem e s w w' h =
      let first = update_info_lem e (s.pool.cells p) s w h in
      let r = pa_sink_info_callback T F (some info) (pos 0) p s w in
      let cell : r.0.pool.cells p ≡ some (filled e) =
        ap (λ x. x.0.pool.cells p) first ∙ ground arith in
      let second = update_info_lem (filled e) (r.0.pool.cells p) r.0 w' cell in
      (
        cell,
        elim (news-IsSame e) [
          | inl (same, old) ↦ inl (
            same,
            ap (λ x. x.1) first ∙ ap (λ b. if b then kill (sigrtmin + pa_signal) w else w) old,
          )
          | inr (other, new) ↦ inr (
            other,
            ap (λ x. x.1) first ∙ ap (λ b. if b then kill (sigrtmin + pa_signal) w else w) new,
          )
        ],
        ap (λ x. x.0.pool.cells p) second ∙ ground arith,
        ap (λ x. x.1) second
            ∙ ap (λ b. if b then kill (sigrtmin + pa_signal) w' else w') (news-informed e),
      )
