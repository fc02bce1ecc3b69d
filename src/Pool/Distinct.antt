-- ===== src/Pool/Distinct.antt =====
-- The pointers of a queue are distinct.
use slstatus.Prelude.{ℕ, ◌+◌, ◌<◌, ◌≢◌, List, [], ◌∷◌, ◌++◌, arith, All, All-append}
use slstatus.Pool.{TailQueue, Pool, empty, insert}

abbrev pub Distinct : List ℕ → Type 0
Distinct [] = Unit {0}
Distinct (p ∷ ps) = All (λ q. q ≢ p) ps × Distinct ps

older : (n : ℕ) (ps : List ℕ) → All (λ p. p < n) ps → All (λ p. p < n + 1) ps
older n [] h = tt
older n (p ∷ ps) h = (omega arith, older n ps h.1)

Distinct-append :
    (n : ℕ) (ps : List ℕ) → All (λ p. p < n) ps → Distinct ps → Distinct (ps ++ n ∷ [])
Distinct-append n [] h d = (tt, tt)
Distinct-append n (p ∷ ps) h d =
    (All-append _ ps _ d.0 ((λ e. ground arith), tt), Distinct-append n ps h.1 d.1)

module _ (T : TailQueue) where
  open T use {entries, entries-init, entries-insert_tail}

  -- They are also older than the next allocation.
  pub record AreDistinct {E : Type 0} (s : Pool T E) : Type 0 where
    pub old : All (λ p. p < s.fresh) (entries s.queue)
    pub distinct : Distinct (entries s.queue)

  module _ {E : Type 0} where
    pub empty-AreDistinct : AreDistinct {E = E} (empty T)
    unfolding empty
    empty-AreDistinct = record { old = rw entries-init tt; distinct = rw entries-init tt }

    pub insert-AreDistinct : (e : E) (s : Pool T E) → AreDistinct s → AreDistinct (insert T e s)
    unfolding insert
    insert-AreDistinct e s h = record {
      old =
          rw entries-insert_tail
            (All-append _ (entries s.queue) _ (older s.fresh _ h.old) (omega arith, tt));
      distinct =
          rw entries-insert_tail (Distinct-append s.fresh (entries s.queue) h.old h.distinct);
    }
