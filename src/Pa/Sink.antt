-- ===== src/Pa/Sink.antt =====
-- `pa_find_by_sink` of components/pa.c for the default sink.
use slstatus.Prelude.{
  ℕ, ◌≡◌, refl, ap, ◌∙◌, Bool, true, false, List, [], ◌∷◌, Option, none, some, arith, All,
  if◌then◌else◌, Bool-cases, Option-cases, inl, inr,
}
use slstatus.Prelude.Text.{Text}
use slstatus.Pool.{TailQueue, walk, find_by}
use slstatus.Pool.Find.{IsLinked, IsLinkedAt, IsLinked-insert, find_by-insert}
use slstatus.Pa.{
  Entry, Pa, Walked, found, fell_off, matches_sink, walk_sink, end_walk, add_sink, own_sink,
  pa_find_by_sink, new_sink,
}

-- The test of the walk for the default sink.
abbrev pub has_no_sink : Option Text → Bool
has_no_sink none = true
has_no_sink (some sink) = false

abbrev pub is_default : Entry → Bool
is_default e = has_no_sink e.sink

abbrev pub walked : Option ℕ → Walked
walked none = fell_off
walked (some p) = found p

matches_sink-none : (o : Option Text) → matches_sink none o ≡ some (has_no_sink o)
unfolding matches_sink
matches_sink-none none = refl
matches_sink-none (some own) = refl

-- The walk for the default sink never reads at NULL.
pub walk_default :
    (cells : ℕ → Option Entry) (n : ℕ) (ps : List ℕ)
    → All (IsLinkedAt cells n) ps
    → walk_sink none cells ps ≡ walked (walk is_default cells ps)
unfolding walk_sink walk
walk_default cells n [] l = refl
walk_default cells n (p ∷ ps) l = elim (Option-cases (cells p)) [
  | inl c ↦ absurd (ground (arith, c, l.0))
  | inr (e, c) ↦ elim (Bool-cases (has_no_sink e.sink)) [
    | inl t ↦ rw (c, walk_sink, walk, matches_sink-none e.sink, t) refl
    | inr t ↦ rw (c, walk_sink, walk, matches_sink-none e.sink, t) (walk_default cells n ps l.1)
  ]
]

module _ (T : TailQueue) where
  open T use {entries}

  pub default_lem :
      (s : Pa T)
      → IsLinked T s.pool
      → pa_find_by_sink T none s ≡ end_walk T none (walked (find_by T is_default s.pool)) s
  unfolding pa_find_by_sink find_by
  default_lem s l = ap (λ r. end_walk T none r s) (walk_default s.pool.cells s.pool.fresh _ l.all)

  -- What the lookup returns, by what the queue holds.
  end_lem :
      (s : Pa T) (o : Option ℕ)
      → IsLinked T s.pool
      → s.accepts ≡ true
      → find_by T is_default s.pool ≡ o
      → (p : ℕ) × (s' : Pa T) × (pa_find_by_sink T none s ≡ some (p, s'))
        × (pa_find_by_sink T none s' ≡ some (p, s'))
        × IsLinked T s'.pool
        × (s'.accepts ≡ true)
  unfolding end_walk add_sink new_sink own_sink
  end_lem s (some p) l a h =
      let e = default_lem s l ∙ ap (λ o. end_walk T none (walked o) s) h in (p, s, e, e, l, a)
  end_lem s none l a h =
      let made = (new_sink T none s).1 in
      let e : pa_find_by_sink T none s ≡ some (s.pool.fresh, made) =
        default_lem s l
        ∙ ap (λ o. end_walk T none (walked o) s) h
        ∙ ap (λ b. if b then some (new_sink T none s) else none) a in
      let l' = IsLinked-insert T _ s.pool l in
      (
        s.pool.fresh,
        made,
        e,
        default_lem made l'
            ∙ ap (λ o. end_walk T none (walked o) made)
                (find_by-insert T is_default _ s.pool l h refl),
        l',
        a,
      )

  -- Where every pointer of the queue points to an entry and the context takes requests, a lookup of
  -- the default sink returns an entry, and the same entry when it is made again; the second lookup
  -- changes nothing and asks the server for nothing.
  pub pa_find_by_sink-default :
      (s : Pa T)
      → IsLinked T s.pool
      → s.accepts ≡ true
      → (p : ℕ) × (s' : Pa T) × (pa_find_by_sink T none s ≡ some (p, s'))
        × (pa_find_by_sink T none s' ≡ some (p, s'))
        × IsLinked T s'.pool
        × (s'.accepts ≡ true)
  pa_find_by_sink-default s l a = end_lem s _ l a refl

  -- Without a context that takes requests, a lookup of the default sink that finds no entry crashes.
  pub pa_find_by_sink-refused :
      (s : Pa T)
      → IsLinked T s.pool
      → s.accepts ≡ false
      → find_by T is_default s.pool ≡ none
      → pa_find_by_sink T none s ≡ none
  unfolding end_walk add_sink
  pa_find_by_sink-refused s l a h =
      default_lem s l
      ∙ ap (λ o. end_walk T none (walked o) s) h
      ∙ ap (λ b. if b then some (new_sink T none s) else none) a
