-- ===== src/Pool/Drain.antt =====
-- The loops that empty a queue at the end of the program.
use slstatus.Prelude.{ℕ, zero, suc, ◌<◌, ◌≡◌, refl, List, [], ◌∷◌, Option, arith, length}
use slstatus.Pool.{TailQueue, Pool, drain, drain_all}

module _ (T : TailQueue) {E : Type 0} (release : Option E → Option E) where
  open T use {entries, first, remove, first-nil, first-cons, entries-remove}

  drain-entries :
      (fuel : ℕ) (ps : List ℕ) (s : Pool T E)
      → entries s.queue ≡ ps
      → length ps < fuel
      → entries (drain T release fuel s).queue ≡ []
  unfolding drain
  drain-entries zero ps s e h = absurd (omega arith)
  drain-entries (suc fuel) [] s e h = rw (first-nil s.queue e, drain) e
  drain-entries (suc fuel) (p ∷ ps) s e h =
      rw (first-cons s.queue p ps e, drain)
        (drain-entries fuel ps _ (entries-remove s.queue p ps e) (omega arith))

  -- The loop empties the queue, with as many rounds as the queue has entries and one more.
  pub drain_all-entries : (s : Pool T E) → entries (drain_all T release s).queue ≡ []
  unfolding drain_all
  drain_all-entries s =
      drain-entries (suc (length (entries s.queue))) (entries s.queue) s refl (omega arith)
