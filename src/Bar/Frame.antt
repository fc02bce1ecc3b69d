-- ===== src/Bar/Frame.antt =====
-- The parts of the bar that the signal handler and the refreshing of entries can change.
use slstatus.Prelude.{ℕ, ◌≡◌, refl, ◌∙◌, true, List, [], ◌∷◌, arith, Bool-cases, inl, inr}
use slstatus.Prelude.Text.{Text}
use slstatus.Util.{World}
use slstatus.Bar.{Arg, Bar, sighandler, handle_all, deliver, due, call, refresh, update}

pub record Frame {S : Type 0} (b c : Bar S) : Type 0 where
  pub statuses : c.statuses ≡ b.statuses
  pub iter : c.iter ≡ b.iter
  pub sflag : c.sflag ≡ b.sflag
  pub every : c.every ≡ b.every
  pub out : c.out ≡ b.out
  pub done : b.done ≡ true → c.done ≡ true

module _ {S : Type 0} where
  pub Frame-refl : (b : Bar S) → Frame b b
  Frame-refl b = record {
    statuses = refl;
    iter = refl;
    sflag = refl;
    every = refl;
    out = refl;
    done = λ h. h;
  }

  pub Frame-trans : {a b c : Bar S} → Frame a b → Frame b c → Frame a c
  Frame-trans f g = record {
    statuses = g.statuses ∙ f.statuses;
    iter = g.iter ∙ f.iter;
    sflag = g.sflag ∙ f.sflag;
    every = g.every ∙ f.every;
    out = g.out ∙ f.out;
    done = λ h. g.done (f.done h);
  }

  Frame-sighandler : (signo : ℕ) (b : Bar S) → Frame b (sighandler signo b)
  unfolding sighandler
  Frame-sighandler signo b = ground arith

  pub Frame-handle_all : (signos : List ℕ) (b : Bar S) → Frame b (handle_all signos b)
  unfolding handle_all
  Frame-handle_all [] b = Frame-refl b
  Frame-handle_all (signo ∷ more) b =
      Frame-trans (Frame-sighandler signo b) (Frame-handle_all more (sighandler signo b))

  -- A change of the components' state and the world, and the signals handled.
  pub Frame-deliver :
      (b : Bar S) (comp : S) (w : World) → Frame b (deliver (record b { comp = comp; world = w }))
  unfolding deliver
  Frame-deliver b comp w =
      let c : Bar S = record b { comp = comp; world = record w { raised = [] } } in
      let f : Frame b c = record {
        statuses = refl;
        iter = refl;
        sflag = refl;
        every = refl;
        out = refl;
        done = λ h. h;
      } in
      Frame-trans f (Frame-handle_all w.raised c)

  pub Frame-refresh : (a : Arg S) (b : Bar S) → Frame b (refresh a b).2
  unfolding refresh call
  Frame-refresh a b =
      let (res, comp', w) = a.func a.args b.comp b.world in
      let f = Frame-deliver b comp' w in
      record {
        statuses = f.statuses;
        iter = f.iter;
        sflag = f.sflag;
        every = f.every;
        out = f.out;
        done = f.done;
      }

  pub Frame-update :
      (iter : ℕ) (args : List (Arg S)) (ts : List Text) (b : Bar S)
      → Frame b (update iter args ts b).1
  unfolding update
  Frame-update iter [] ts b = Frame-refl b
  Frame-update iter (a ∷ entries) [] b = Frame-refl b
  Frame-update iter (a ∷ entries) (t ∷ ts) b = elim (Bool-cases (due iter b.upsigno a)) [
    | inl is_due ↦ elim (Bool-cases (refresh a b).1) [
      | inl more ↦
          rw (is_due, more, update)
            (Frame-trans (Frame-refresh a b) (Frame-update iter entries ts (refresh a b).2))
      | inr stop ↦ rw (is_due, stop, update) (Frame-refresh a b)
    ]
    | inr not_due ↦ rw (not_due, update) (Frame-update iter entries ts b)
  ]
