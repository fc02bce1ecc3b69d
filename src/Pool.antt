-- ===== src/Pool.antt =====
-- What the components that watch devices share: entries allocated by `calloc`, linked into a tail
-- queue, found by a walk over it and changed through pointers. The queue's macros (queue.h, a copy
-- of OpenBSD's) are an interface with the laws of queue(3).
pub mod Distinct
pub mod Drain
pub mod Find
pub mod Links
pub mod Modify
pub mod Registry
pub mod Seen
use slstatus.Prelude.{
  ℕ, zero, suc, ◌+◌, ◌≡◌, Bool, List, [], ◌∷◌, ◌++◌, Option, none, some, ◌==◌, if◌then◌else◌,
  length,
}

pub record TailQueue : Type 1 where
  pub Queue : Type 0
  pub init : Queue
  pub insert_tail : Queue → ℕ → Queue
  pub first : Queue → Option ℕ
  pub remove : Queue → ℕ → Queue
  -- The pointers in the order of TAILQ_FOREACH.
  pub entries : Queue → List ℕ
  pub entries-init : entries init ≡ []
  pub entries-insert_tail : (q : Queue) (p : ℕ) → entries (insert_tail q p) ≡ entries q ++ p ∷ []
  pub first-nil : (q : Queue) → entries q ≡ [] → first q ≡ none
  pub first-cons : (q : Queue) (p : ℕ) (ps : List ℕ) → entries q ≡ p ∷ ps → first q ≡ some p
  pub entries-remove :
      (q : Queue) (p : ℕ) (ps : List ℕ) → entries q ≡ p ∷ ps → entries (remove q p) ≡ ps

-- `TAILQ_FOREACH(e, &queue, entry) if (test(e)) return e;`. A walk over a pointer to no entry
-- stops.
unfoldable pub walk : {E : Type 0} → (E → Bool) → (ℕ → Option E) → List ℕ → Option ℕ
walk test cells [] = none
walk test cells (p ∷ ps) = elim (cells p) [
  | none ↦ none
  | some e ↦ let more = walk test cells ps in if test e then some p else more
]

module _ (T : TailQueue) where
  open T use {Queue, init, insert_tail, first, remove, entries}

  -- The queue, the memory, and the next address that `calloc` returns.
  pub record Pool (E : Type 0) : Type 0 where
    pub queue : Queue
    pub cells : ℕ → Option E
    pub fresh : ℕ

  module _ {E : Type 0} where
    -- TAILQ_INIT over a memory with nothing allocated.
    unfoldable pub empty : Pool E
    empty = record { queue = init; cells = λ p. none; fresh = 0 }

    unfoldable pub find_by : (E → Bool) → Pool E → Option ℕ
    unfolding walk
    find_by test s = walk test s.cells (entries s.queue)

    -- `e = calloc(…)`, its fields set, TAILQ_INSERT_TAIL.
    unfoldable pub insert : E → Pool E → Pool E
    insert e s = record {
      queue = insert_tail s.queue s.fresh;
      cells = λ p. if p == s.fresh then some e else s.cells p;
      fresh = s.fresh + 1;
    }

    -- A write through the pointer `p`.
    unfoldable pub modify : ℕ → E → Pool E → Pool E
    modify p e s = record s { cells = λ q. if q == p then some e else s.cells q }

    -- `while ((e = TAILQ_FIRST(&queue))) { TAILQ_REMOVE(&queue, e, entry); … }` on fuel. `release`
    -- says what becomes of the entry behind the pointer.
    unfoldable pub drain : (Option E → Option E) → ℕ → Pool E → Pool E
    drain release zero s = s
    drain release (suc fuel) s = elim (first s.queue) [
      | none ↦ s
      | some p ↦ drain release fuel (record s {
        queue = remove s.queue p;
        cells = λ q. if q == p then release (s.cells q) else s.cells q;
      })
    ]

    -- The loop with fuel for one round more than the queue has entries.
    unfoldable pub drain_all : (Option E → Option E) → Pool E → Pool E
    unfolding drain
    drain_all release s = drain release (suc (length (entries s.queue))) s
