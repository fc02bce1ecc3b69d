-- ===== src/Bar/Output.antt =====
-- What `printstatus` leaves behind and shows.
use slstatus.Prelude.{
  ℕ, ◌≡◌, true, ◌||◌, not, List, [], ◌∷◌, ◌++◌, arith, ◌==◌, if◌then◌else◌, concat,
}
use slstatus.Prelude.Int.{ltb_ℤ, pos}
use slstatus.Prelude.Text.{Text}
use mathlib.Core.List.{append-nil}
use slstatus.Bar.{
  Arg, Bar, Outcome, next, exited, waiting, Screen, Shown, line, window_name, update, show_status,
  printstatus, die,
}
use slstatus.Bar.Frame.{Frame-update}

-- The bar that an outcome holds.
abbrev pub bar_of : {S : Type 0} → Outcome S → Bar S
bar_of (next b) = b
bar_of (exited code b) = b
bar_of (waiting b) = b

-- What one `printstatus` shows of the statuses: nothing on a pass with the number 0, unless the
-- option -S is on.
abbrev pub shown : {S : Type 0} → Screen → ℕ → Bar S → List Text → List Shown
shown screen iter b ts =
    if b.every || not (iter == 0)
    then (if b.sflag
        then line (concat ts) ∷ []
        else if ltb_ℤ screen.store_name (pos 0)
        then []
        else window_name (concat ts) ∷ [])
    else []

module _ {S : Type 0} (args : List (Arg S)) (screen : Screen) (iter : ℕ) (b : Bar S) where
  -- A pass stores the refreshed statuses, forgets the signal that it served, and appends to the
  -- output what `shown` says, also where it then dies.
  pub printstatus_lem :
      let b' = bar_of (printstatus args screen iter b) in
      let ts = (update iter args b.statuses b).0 in
      (b'.statuses ≡ ts) × (b'.upsigno ≡ 0) × (b'.out ≡ b.out ++ shown screen iter b ts)
  unfolding printstatus show_status die
  printstatus_lem =
      let f = Frame-update iter args b.statuses b in
      let u = append-nil b.out in ground (arith, f.out, f.sflag, f.every, append-nil b.out)

  -- Apart from that it changes only the components' state, the world and `done`, which it can set.
  pub Frame-printstatus :
      let b' = bar_of (printstatus args screen iter b) in
      (b'.iter ≡ b.iter)
      × (b'.sflag ≡ b.sflag)
      × (b'.every ≡ b.every)
      × (b.done ≡ true → b'.done ≡ true)
  unfolding printstatus show_status die
  Frame-printstatus =
      let f = Frame-update iter args b.statuses b in
      ground (arith, f.iter, f.sflag, f.every, f.done)
