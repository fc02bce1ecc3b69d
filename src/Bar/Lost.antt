-- ===== src/Bar/Lost.antt =====
-- A signal that arrives while `printstatus` of slstatus.c runs.
use slstatus.Prelude.{ℕ, ◌≡◌, refl, ap, ◌∙◌, false, List, [], ◌∷◌, ◌++◌, arith, All, length}
use slstatus.Prelude.Text.{Text}
use slstatus.Bar.{Arg, Bar, Screen, due, update, printstatus}
use slstatus.Bar.Output.{bar_of, printstatus_lem}

module _ {S : Type 0} (iter : ℕ) where
  -- Entries that are not due are passed over.
  update-append :
      (pre post : List (Arg S)) (ts us : List Text) (b : Bar S)
      → length ts ≡ length pre
      → All (λ a. due iter b.upsigno a ≡ false) pre
      → update iter (pre ++ post) (ts ++ us) b
        ≡ (let (us', b') = update iter post us b in (ts ++ us', b'))
  unfolding update
  update-append [] post [] us b l h = refl
  update-append [] post (t ∷ ts) us b l h = absurd (omega (arith, l))
  update-append (a ∷ pre) post [] us b l h = absurd (omega (arith, l))
  update-append (a ∷ pre) post (t ∷ ts) us b l h =
      rw (h.0, update)
        (ap (λ (r : List Text × Bar S). let ts' : List Text = t ∷ r.0 in (ts', r.1))
          (update-append pre post ts us b (omega (arith, l)) h.1))

  -- Where no entry of the first part of the table is due when the pass begins, their statuses stay
  -- as they are and no signal is pending after the pass, whatever signals arrive while the entries
  -- of the second part are refreshed: one that is meant for the first part is lost.
  pub printstatus-lost :
      (screen : Screen) (pre post : List (Arg S)) (ts us : List Text) (b : Bar S)
      → b.statuses ≡ ts ++ us
      → length ts ≡ length pre
      → All (λ a. due iter b.upsigno a ≡ false) pre
      → let b' = bar_of (printstatus (pre ++ post) screen iter b) in
        (b'.statuses ≡ ts ++ (update iter post us b).0) × (b'.upsigno ≡ 0)
  printstatus-lost screen pre post ts us b e l h =
      let (s, u, _) = printstatus_lem (pre ++ post) screen iter b in
      (
        s
            ∙ ap (λ (v : List Text). (update iter (pre ++ post) v b).0) e
            ∙ ap (λ (r : List Text × Bar S). r.0) (update-append pre post ts us b l h),
        u,
      )
