-- ===== src/Pool/Seen.antt =====
-- The entries of a queue without their addresses.
use slstatus.Prelude.{
  ℕ, ◌<◌, ◌≡◌, refl, ap, ◌∙◌, Bool, true, List, [], ◌∷◌, ◌++◌, Option, none, some, ◌==◌, arith,
  if◌then◌else◌, All, is_some, Bool-cases, Option-cases, inl, inr,
}
use slstatus.Pool.{TailQueue, Pool, walk, find_by, insert}
use slstatus.Pool.Find.{IsLinkedAt, IsLinked}

abbrev pub first_or : {E : Type 0} → Option E → Option E → Option E
first_or none o = o
first_or (some e) o = some e

module _ {E : Type 0} where
  -- What is behind a pointer.
  abbrev pub behind : (ℕ → Option E) → Option ℕ → Option E
  behind cells none = none
  behind cells (some p) = cells p

  -- An entry of the walk, or what is behind it.
  abbrev chosen : (E → Bool) → Option E → Option E → Option E
  chosen test none more = none
  chosen test (some e) more = if test e then some e else more

  -- The first entry that passes a test.
  abbrev pub scan : (E → Bool) → (ℕ → Option E) → List ℕ → Option E
  scan test cells [] = none
  scan test cells (p ∷ ps) = chosen test (cells p) (scan test cells ps)

  behind-walk :
      (test : E → Bool) (cells : ℕ → Option E) (ps : List ℕ)
      → behind cells (walk test cells ps) ≡ scan test cells ps
  unfolding walk
  behind-walk test cells [] = refl
  behind-walk test cells (p ∷ ps) = elim (Option-cases (cells p)) [
    | inl c ↦ rw (c, walk, behind) refl
    | inr (e, c) ↦ elim (Bool-cases (test e)) [
      | inl t ↦ rw (c, t, walk, behind) c
      | inr t ↦ rw (c, t, walk, behind) (behind-walk test cells ps)
    ]
  ]

  chosen-first_or :
      (test : E → Bool) (c more o : Option E)
      → is_some c ≡ true
      → chosen test c (first_or more o) ≡ first_or (chosen test c more) o
  chosen-first_or test none more o h = cc
  chosen-first_or test (some e) more o h = elim (Bool-cases (test e)) [
    | inl t ↦ rw t refl
    | inr t ↦ rw t refl
  ]

  old_cell :
      (cells : ℕ → Option E) (e : E) (n p : ℕ)
      → p < n
      → (if p == n then some e else cells p) ≡ cells p
  old_cell cells e n p h = ground arith

  scan-append :
      (test : E → Bool) (cells : ℕ → Option E) (e : E) (n : ℕ) (ps : List ℕ)
      → All (IsLinkedAt cells n) ps
      → scan test (λ p. if p == n then some e else cells p) (ps ++ n ∷ [])
        ≡ first_or (scan test cells ps) (if test e then some e else none)
  scan-append test cells e n [] h = ground arith
  scan-append test cells e n (p ∷ ps) h =
      ap
        (λ (c : Option E).
          chosen test c (scan test (λ q. if q == n then some e else cells q) (ps ++ n ∷ [])))
        (old_cell cells e n p h.0.0)
      ∙ ap (λ (m : Option E). chosen test (cells p) m) (scan-append test cells e n ps h.1)
      ∙ chosen-first_or test (cells p) (scan test cells ps) (if test e then some e else none) h.0.1

module _ (T : TailQueue) {E : Type 0} where
  open T use {entries, entries-insert_tail}

  -- The first entry of the queue that passes a test.
  abbrev pub seen : (E → Bool) → Pool T E → Option E
  seen test s = scan test s.cells (entries s.queue)

  pub behind-find_by :
      (test : E → Bool) (s : Pool T E) → behind s.cells (find_by T test s) ≡ seen test s
  unfolding find_by
  behind-find_by test s = behind-walk test s.cells (entries s.queue)

  -- An entry at the end of the queue is seen where no other one is.
  pub seen-insert :
      (test : E → Bool) (e : E) (s : Pool T E)
      → IsLinked T s
      → seen test (insert T e s) ≡ first_or (seen test s) (if test e then some e else none)
  unfolding insert
  seen-insert test e s h =
      rw entries-insert_tail (scan-append test s.cells e s.fresh (entries s.queue) h.all)
