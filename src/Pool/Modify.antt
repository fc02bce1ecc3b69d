-- ===== src/Pool/Modify.antt =====
-- A write to an entry beside searches and insertions.
use mathlib.Core.Path.{fun_ext}
use slstatus.Prelude.{
  ℕ, ◌<◌, ◌≡◌, refl, ap, Bool, List, [], ◌∷◌, Option, some, ◌==◌, arith, if◌then◌else◌,
}
use slstatus.Pool.{TailQueue, Pool, walk, find_by, insert, modify}

module _ {E : Type 0} where
  walk-modify :
      (test : E → Bool) (cells : ℕ → Option E) (p : ℕ) (e e' : E) (ps : List ℕ)
      → cells p ≡ some e
      → test e' ≡ test e
      → walk test (λ q. if q == p then some e' else cells q) ps ≡ walk test cells ps
  unfolding walk
  walk-modify test cells p e e' [] h t = refl
  walk-modify test cells p e e' (q ∷ ps) h t = ground (arith, walk-modify test cells p e e' ps h t)

  -- A search finds what it found before a write that its test does not see.
  pub find_by-modify :
      (T : TailQueue) (test : E → Bool) (s : Pool T E) (p : ℕ) (e e' : E)
      → s.cells p ≡ some e
      → test e' ≡ test e
      → find_by T test (modify T p e' s) ≡ find_by T test s
  unfolding find_by modify
  find_by-modify T test s p e e' h t = walk-modify test s.cells p e e' _ h t

  -- A write and an insertion do not depend on their order.
  pub insert-modify :
      (T : TailQueue) (s : Pool T E) (p : ℕ) (e x : E)
      → p < s.fresh
      → insert T x (modify T p e s) ≡ modify T p e (insert T x s)
  unfolding insert modify
  insert-modify T s p e x h =
      ap (λ (cells : ℕ → Option E). record (insert T x s) { cells = cells })
        (fun_ext λ q. ground arith)
