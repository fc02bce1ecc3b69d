-- ===== src/Pa/Thread/Grows.antt =====
-- What it is to have a pointer to an entry of components/pa.c, and what keeps it so.
use mathlib.Core.Path.{subst}
use slstatus.Prelude.{
  ℕ, ◌≡◌, refl, Bool, List, [], ◌∷◌, Option, some, arith, All, Option-cases, Bool-cases, inl, inr,
}
use slstatus.Prelude.Text.{Text}
use slstatus.Pool.{TailQueue, Pool, insert, modify, find_by}
use slstatus.Pool.Find.{IsLinkedAt, IsLinked, find_by-lt, find_by_sound}
use slstatus.Pa.{
  Entry, Request, by_name, by_index, server_info, found, null_read, Pa, matches_sink, walk_sink,
}
use slstatus.Pa.Thread.{Place, idle, adding, holding, System}

walk_sink-found :
    (sink : Option Text) (cells : ℕ → Option Entry) (n : ℕ) (ps : List ℕ) (p : ℕ)
    → All (IsLinkedAt cells n) ps
    → walk_sink sink cells ps ≡ found p
    → IsLinkedAt cells n p
unfolding walk_sink
walk_sink-found sink cells n [] p l h = cc
walk_sink-found sink cells n (q ∷ ps) p l h = elim (Option-cases (cells q)) [
  | inl c ↦ absurd (ground (arith, c, l.0))
  | inr (e, c) ↦ elim (Option-cases (matches_sink sink e.sink)) [
    | inl m ↦ let e : null_read ≡ found p = (rw (c, walk_sink, m) at h) in cc
    | inr (hit, m) ↦ elim (Bool-cases hit) [
      | inl hits ↦
          let same : found q ≡ found p = (rw (c, walk_sink, m, hits) at h) in
          let apart : q ≡ p = cc in subst (IsLinkedAt cells n) apart l.0
      | inr misses ↦ walk_sink-found sink cells n ps p l.1 (rw (c, walk_sink, m, misses) at h)
    ]
  ]
]

module _ (T : TailQueue) where
  open T use {entries}

  -- The pointer is to an entry.
  abbrev pub IsHeld : Pool T Entry → ℕ → Type 0
  IsHeld pool p = IsLinkedAt pool.cells pool.fresh p

  -- The request has a pointer to an entry, if it has one.
  abbrev pub IsAsked : Pool T Entry → Request → Type 0
  IsAsked pool (by_name name p) = IsHeld pool p
  IsAsked pool (by_index index p) = IsHeld pool p
  IsAsked pool server_info = Unit

  abbrev pub Stands : Pool T Entry → Place → Type 0
  Stands pool (holding p) = IsHeld pool p
  Stands pool _ = Unit

  pub record AreHeld (s : System T) : Type 0 where
    pub linked : IsLinked T s.pa.pool
    pub asked : All (IsAsked s.pa.pool) s.pa.requests
    pub main : Stands s.pa.pool s.main

  abbrev pub Grows : Pool T Entry → Pool T Entry → Type 0
  Grows a b = (p : ℕ) → IsHeld a p → IsHeld b p

  pub insert-Grows : (e : Entry) (pool : Pool T Entry) → Grows pool (insert T e pool)
  unfolding insert
  insert-Grows e pool p h = (ground (arith, h.0), ground (arith, h.1))

  pub modify-Grows : (q : ℕ) (e : Entry) (pool : Pool T Entry) → Grows pool (modify T q e pool)
  unfolding modify
  modify-Grows q e pool p h = (h.0, ground (arith, h.1))

  IsAsked-Grows : (a b : Pool T Entry) (r : Request) → Grows a b → IsAsked a r → IsAsked b r
  IsAsked-Grows a b (by_name name p) g h = g p h
  IsAsked-Grows a b (by_index index p) g h = g p h
  IsAsked-Grows a b server_info g h = tt

  pub All-Grows :
      (a b : Pool T Entry) (rs : List Request) → Grows a b → All (IsAsked a) rs → All (IsAsked b) rs
  All-Grows a b [] g h = tt
  All-Grows a b (r ∷ rs) g h = (IsAsked-Grows a b r g h.0, All-Grows a b rs g h.1)

  pub Stands-Grows : (a b : Pool T Entry) (m : Place) → Grows a b → Stands a m → Stands b m
  Stands-Grows a b idle g h = tt
  Stands-Grows a b (adding sink) g h = tt
  Stands-Grows a b (holding p) g h = g p h

  pub walked-IsHeld :
      (sink : Option Text) (s : Pa T) (p : ℕ)
      → IsLinked T s.pool
      → walk_sink sink s.pool.cells (entries s.pool.queue) ≡ found p
      → IsHeld s.pool p
  walked-IsHeld sink s p l h = walk_sink-found sink s.pool.cells s.pool.fresh _ p l.all h

  pub found-IsHeld :
      (test : Entry → Bool) (pool : Pool T Entry) (p : ℕ)
      → IsLinked T pool
      → find_by T test pool ≡ some p
      → IsHeld pool p
  found-IsHeld test pool p l h =
      let (e, at, passed) = find_by_sound T test pool p h in
      (find_by-lt T test pool p l h, rw at refl)
