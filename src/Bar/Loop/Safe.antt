-- ===== src/Bar/Loop/Safe.antt =====
-- The sizes of `statuses` and of the texts shown, through all of `main`.
use slstatus.Prelude.{
  ℕ, ◌*◌, ◌<◌, ◌≢◌, Bool, List, [], arith, length, length-map, All, All-map, All-append, concat,
}
use slstatus.Prelude.Int.{ℤ}
use slstatus.Prelude.Text.{Text}
use slstatus.Util.{World}
use slstatus.Bar.{
  Arg, Effect, Bar, Screen, Shown, line, window_name, no_name, cmdlen, update, printstatus,
}
use slstatus.Bar.Frame.{Frame}
use slstatus.Bar.Options.{Flags}
use slstatus.Bar.Output.{bar_of, shown, printstatus_lem}
use slstatus.Bar.Sizes.{Fits, AreSized, AreSized-update, length-concat-lt}
use slstatus.Bar.Loop.{Round, run, started}
use slstatus.Bar.Loop.Keeps.{Holds, Holds-bar_of, Holds-of, run-keeps}

-- A text that the program shows fits the MAXLEN bytes of `status`, with its NUL.
abbrev pub ShownFits : {S : Type 0} → List (Arg S) → Shown → Type 0
ShownFits args (line s) = length s < cmdlen * length args
ShownFits args (window_name s) = length s < cmdlen * length args
ShownFits args no_name = Unit

pub record IsSafe {S : Type 0} (args : List (Arg S)) (b : Bar S) : Type 0 where
  pub sized : AreSized args b.statuses
  pub fits : All (ShownFits args) b.out

module _ {S : Type 0} (args : List (Arg S)) where
  IsSafe-Frame : (b c : Bar S) → Frame b c → IsSafe args b → IsSafe args c
  IsSafe-Frame b c f h = record { sized = rw f.statuses h.sized; fits = rw f.out h.fits }

  shown-fits :
      (screen : Screen) (iter : ℕ) (b : Bar S) (ts : List Text)
      → length (concat ts) < cmdlen * length args
      → All (ShownFits args) (shown screen iter b ts)
  shown-fits screen iter b ts h = ground arith

  printstatus-IsSafe :
      args ≢ []
      → (screen : Screen) (iter : ℕ) (b : Bar S) → IsSafe args b
      → Holds (IsSafe args) (printstatus args screen iter b)
  printstatus-IsSafe ne screen iter b h =
      let (ts, _, out) = printstatus_lem args screen iter b in
      let sized = AreSized-update iter args b.statuses b h.sized in
      let small = length-concat-lt args _ ne sized in
      Holds-of _ (record {
        sized = rw ts sized;
        fits = rw out (
            All-append _ b.out _ h.fits
              (shown-fits screen iter b (update iter args b.statuses b).0 small));
      })

  -- Whatever the outside does, every status always fits its CMDLEN bytes and every text shown fits
  -- MAXLEN bytes, if `args` has an entry.
  pub run-IsSafe :
      args ≢ []
      → (setup teardown : Effect S) (opened : Bool) (closed : ℤ) (rounds : List (Round S))
        (f : Flags) (comp : S) (w : World)
      → IsSafe args (bar_of (run args setup teardown opened closed rounds (started args f comp w)))
  unfolding started
  run-IsSafe ne setup teardown opened closed rounds f comp w = Holds-bar_of (
      run-keeps (IsSafe args) IsSafe-Frame args teardown closed (printstatus-IsSafe ne)
        (λ n b h. record { sized = h.sized; fits = h.fits })
        (λ b h. record { sized = h.sized; fits = All-append _ b.out _ h.fits (tt, tt) }) setup
        opened rounds _
        (record {
          sized = (length-map (λ a. []) args, All-map Fits (λ a. []) args (λ a. omega arith));
          fits = tt;
        }))
