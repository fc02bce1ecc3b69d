-- ===== src/Pool/Find.antt =====
-- Finding what was inserted, and what is left alone.
use slstatus.Prelude.{
  ℕ, ◌+◌, ◌<◌, ◌≡◌, Bool, true, List, [], ◌∷◌, ◌++◌, Option, none, some, ◌==◌, arith, if◌then◌else◌,
  All, All-append, is_some, Bool-cases, Option-cases, inl, inr,
}
use slstatus.Pool.{TailQueue, Pool, walk, find_by, insert, empty}

-- A pointer of the queue was allocated and points to an entry.
abbrev pub IsLinkedAt : {E : Type 0} → (ℕ → Option E) → ℕ → ℕ → Type 0
IsLinkedAt cells fresh p = (p < fresh) × (is_some (cells p) ≡ true)

module _ {E : Type 0} where
  -- A new cell behind a walk that finds nothing is where the longer walk ends.
  walk-append :
      (test : E → Bool) (cells : ℕ → Option E) (e : E) (n : ℕ) (ps : List ℕ)
      → All (IsLinkedAt cells n) ps
      → walk test cells ps ≡ none
      → test e ≡ true
      → walk test (λ p. if p == n then some e else cells p) (ps ++ n ∷ []) ≡ some n
  unfolding walk
  walk-append test cells e n [] l h t = ground arith
  walk-append test cells e n (p ∷ ps) l h t = ground (arith, walk-append test cells e n ps l.1)

  -- A walk sees the cells of its pointers only.
  walk-same :
      (test : E → Bool) (cells : ℕ → Option E) (e : E) (n : ℕ) (ps : List ℕ) (p : ℕ)
      → All (IsLinkedAt cells n) ps
      → walk test cells ps ≡ some p
      → walk test (λ q. if q == n then some e else cells q) (ps ++ n ∷ []) ≡ some p
  unfolding walk
  walk-same test cells e n [] p l h = cc
  walk-same test cells e n (q ∷ ps) p l h = ground (arith, walk-same test cells e n ps p l.1)

  -- What a walk finds passes its test.
  pub walk_sound :
      (test : E → Bool) (cells : ℕ → Option E) (ps : List ℕ) (p : ℕ)
      → walk test cells ps ≡ some p
      → (e : E) × (cells p ≡ some e) × (test e ≡ true)
  unfolding walk
  walk_sound test cells [] p h = cc
  walk_sound test cells (q ∷ ps) p h = elim (Option-cases (cells q)) [
    | inl c ↦ absurd (ground (arith, c))
    | inr (e, c) ↦ elim (Bool-cases (test e)) [
      | inl t ↦ (e, ground (arith, c, t), t)
      | inr t ↦ walk_sound test cells ps p (ground (arith, c))
    ]
  ]

  walk-lt :
      (test : E → Bool) (cells : ℕ → Option E) (n : ℕ) (ps : List ℕ) (p : ℕ)
      → All (IsLinkedAt cells n) ps
      → walk test cells ps ≡ some p
      → p < n
  unfolding walk
  walk-lt test cells n [] p l h = cc
  walk-lt test cells n (q ∷ ps) p l h = ground (arith, walk-lt test cells n ps p l.1)

  All-linked-insert :
      (cells : ℕ → Option E) (e : E) (n : ℕ) (ps : List ℕ)
      → All (IsLinkedAt cells n) ps
      → All (IsLinkedAt (λ p. if p == n then some e else cells p) (n + 1)) ps
  All-linked-insert cells e n [] h = tt
  All-linked-insert cells e n (p ∷ ps) h = (ground arith, All-linked-insert cells e n ps h.1)

module _ (T : TailQueue) where
  open T use {entries, entries-insert_tail, entries-init}

  -- Every pointer of the queue points to an entry and is older than the next allocation.
  pub record IsLinked {E : Type 0} (s : Pool T E) : Type 0 where
    pub all : All (IsLinkedAt s.cells s.fresh) (entries s.queue)

  module _ {E : Type 0} where
    pub IsLinked-empty : IsLinked {E = E} (empty T)
    unfolding empty
    IsLinked-empty = record { all = rw entries-init tt }

    pub IsLinked-insert : (e : E) (s : Pool T E) → IsLinked s → IsLinked (insert T e s)
    unfolding insert
    IsLinked-insert e s h = record {
      all = rw entries-insert_tail (
          All-append _ (entries s.queue) _ (All-linked-insert s.cells e s.fresh _ h.all)
            (ground arith, tt));
    }

    -- A search that found nothing finds the entry that is inserted, if that passes the test.
    pub find_by-insert :
        (test : E → Bool) (e : E) (s : Pool T E)
        → IsLinked s
        → find_by T test s ≡ none
        → test e ≡ true
        → find_by T test (insert T e s) ≡ some s.fresh
    unfolding find_by insert
    find_by-insert test e s l h t =
        rw entries-insert_tail (walk-append test s.cells e s.fresh (entries s.queue) l.all h t)

    -- A search that found an entry finds the same after an insertion.
    pub find_by-insert_old :
        (test : E → Bool) (e : E) (s : Pool T E) (p : ℕ)
        → IsLinked s
        → find_by T test s ≡ some p
        → find_by T test (insert T e s) ≡ some p
    unfolding find_by insert
    find_by-insert_old test e s p l h =
        rw entries-insert_tail (walk-same test s.cells e s.fresh (entries s.queue) p l.all h)

    -- What a search finds points to an entry that passes the test.
    pub find_by_sound :
        (test : E → Bool) (s : Pool T E) (p : ℕ)
        → find_by T test s ≡ some p
        → (e : E) × (s.cells p ≡ some e) × (test e ≡ true)
    unfolding find_by
    find_by_sound test s p h = walk_sound test s.cells (entries s.queue) p h

    -- What a search finds is older than the next allocation.
    pub find_by-lt :
        (test : E → Bool) (s : Pool T E) (p : ℕ)
        → IsLinked s
        → find_by T test s ≡ some p
        → p < s.fresh
    unfolding find_by
    find_by-lt test s p l h = walk-lt test s.cells s.fresh (entries s.queue) p l.all h

    -- An insertion leaves the older entries alone.
    pub cells-insert :
        (e : E) (s : Pool T E) (p : ℕ) → p < s.fresh → (insert T e s).cells p ≡ s.cells p
    unfolding insert
    cells-insert e s p h = ground arith
