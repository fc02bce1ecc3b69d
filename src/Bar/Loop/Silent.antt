-- ===== src/Bar/Loop/Silent.antt =====
-- What is shown without the option -S, by the passes of `printstatus` with the number 0.
use slstatus.Prelude.{
  ℕ, ◌≡◌, refl, ap, ◌∙◌, ◌+◌, ◌%◌, ◌^◌, Bool, true, false, not, ◌&&◌, if◌then◌else◌, List, [], ◌∷◌,
  ◌++◌, some, none, arith, Option,
}
use slstatus.Prelude.Int.{ℤ}
use mathlib.Core.List.{append-nil}
use slstatus.Prelude.Text.{Text}
use slstatus.Util.{World}
use slstatus.Bar.{
  Arg, Effect, Bar, Shown, Screen, update, show_status, Outcome, next, exited, waiting, printstatus,
  die, and_then,
}
use slstatus.Bar.Clock.{Timespec}
use slstatus.Bar.Frame.{Frame}
use slstatus.Bar.Options.{Flags}
use slstatus.Bar.Output.{bar_of, shown, printstatus_lem, Frame-printstatus}
use slstatus.Bar.Loop.{
  Sleep, Round, apply, sleep_loop, rest_of_round, counted, round_from, round, finish, main_loop,
  run, started,
}
use slstatus.Bar.Loop.Keeps.{Holds, Holds-bar_of, Holds-of, sleep_loop-keeps, Frame-apply}

-- The option -S is off, and the output is `out`.
abbrev IsQuiet : {S : Type 0} → List Shown → Bar S → Type 0
IsQuiet out b = (b.every ≡ false) × (b.out ≡ out)

module _ {S : Type 0} (args : List (Arg S)) where
  IsQuiet-Frame : (out : List Shown) (b c : Bar S) → Frame b c → IsQuiet out b → IsQuiet out c
  IsQuiet-Frame out b c f h = (f.every ∙ h.0, f.out ∙ h.1)

  shown-quiet :
      (screen : Screen) (iter : ℕ) (b : Bar S) (ts : List Text)
      → iter ≡ 0
      → b.every ≡ false
      → shown screen iter b ts ≡ []
  shown-quiet screen iter b ts z h = ground arith

  printstatus-IsQuiet :
      (out : List Shown) (screen : Screen) (b : Bar S)
      → IsQuiet out b
      → Holds (IsQuiet out) (printstatus args screen 0 b)
  printstatus-IsQuiet out screen b h =
      let (_, _, o) = printstatus_lem args screen 0 b in
      let (_, _, e, _) = Frame-printstatus args screen 0 b in
      Holds-of _ (
        e ∙ h.0,
        o
            ∙ (ap (λ x. b.out ++ x)
                (shown-quiet screen 0 b (update 0 args b.statuses b).0 refl h.0))
            ∙ append-nil b.out
            ∙ h.1,
      )

  -- Without -S, no signal makes the program show anything while it sleeps: the refreshed statuses
  -- wait for the next regular pass.
  pub out-sleep_loop :
      (wait : Timespec) (sleeps : List (Sleep S)) (b : Bar S)
      → b.every ≡ false
      → (bar_of (sleep_loop args wait sleeps b)).out ≡ b.out
  out-sleep_loop wait sleeps b h =
      (Holds-bar_of (
        sleep_loop-keeps (IsQuiet b.out) (IsQuiet-Frame b.out) args (printstatus-IsQuiet b.out) wait
          sleeps b (h, refl))).1

-- The bar under the option -1: no -S, stdout, `done` from the start, and nothing shown.
record IsOnce {S : Type 0} (b : Bar S) : Type 0 where
  every : b.every ≡ false
  sflag : b.sflag ≡ true
  done : b.done ≡ true
  out : b.out ≡ []

abbrev pub has_exited : {S : Type 0} → Outcome S → Bool
has_exited (next b) = false
has_exited (exited code b) = true
has_exited (waiting b) = false

-- The program has left, with nothing shown.
abbrev LeftSilent : {S : Type 0} → Outcome S → Type 0
LeftSilent o = (has_exited o ≡ true) × ((bar_of o).out ≡ [])

abbrev pub is_waiting : {S : Type 0} → Outcome S → Bool
is_waiting (next b) = false
is_waiting (exited code b) = false
is_waiting (waiting b) = true

-- Not waiting for more of the script, and still silent.
abbrev Once : {S : Type 0} → Outcome S → Type 0
Once (next b) = IsOnce b
Once (exited code b) = b.out ≡ []
Once (waiting b) = ⊥

Once-of : {S : Type 0} (o : Outcome S) → is_waiting o ≡ false → IsOnce (bar_of o) → Once o
Once-of (next b) n h = h
Once-of (exited code b) n h = h.out
Once-of (waiting b) n h = cc

Once-and_then :
    {S : Type 0} (o : Outcome S) (f : Bar S → Outcome S)
    → Once o
    → ((b : Bar S) → IsOnce b → Once (f b))
    → Once (and_then o f)
Once-and_then (next b) f h k = k b h
Once-and_then (exited code b) f h k = h
Once-and_then (waiting b) f h k = absurd h

LeftSilent-then :
    {S : Type 0} (t : Bool) (o o' : Outcome S)
    → t ≡ true
    → LeftSilent o
    → LeftSilent (if t then o else o')
LeftSilent-then true o o' e h = h
LeftSilent-then false o o' e h = cc

LeftSilent-else :
    {S : Type 0} (t : Bool) (o o' : Outcome S)
    → t ≡ false
    → LeftSilent o'
    → LeftSilent (if t then o else o')
LeftSilent-else true o o' e h = cc
LeftSilent-else false o o' e h = h

not_and : (s t : Bool) → s ≡ true → (not s && t) ≡ false
not_and s t h = ground arith

module _ {S : Type 0} (args : List (Arg S)) where
  IsOnce-Frame : (b c : Bar S) → Frame b c → IsOnce b → IsOnce c
  IsOnce-Frame b c f h = record {
    every = f.every ∙ h.every;
    sflag = f.sflag ∙ h.sflag;
    done = f.done h.done;
    out = f.out ∙ h.out;
  }

  pub not-waiting-printstatus :
      (screen : Screen) (iter : ℕ) (b : Bar S) → is_waiting (printstatus args screen iter b) ≡ false
  unfolding printstatus show_status die
  not-waiting-printstatus screen iter b = ground arith

  Once-printstatus :
      (screen : Screen) (iter : ℕ) (b : Bar S)
      → iter ≡ 0
      → IsOnce b
      → Once (printstatus args screen iter b)
  Once-printstatus screen iter b z h =
      let ts = (update iter args b.statuses b).0 in
      let (_, _, o) = printstatus_lem args screen iter b in
      let (_, s, e, d) = Frame-printstatus args screen iter b in
      Once-of _ (not-waiting-printstatus screen iter b) (record {
        every = e ∙ h.every;
        sflag = s ∙ h.sflag;
        done = d h.done;
        out =
            o
            ∙ ap (λ x. b.out ++ x) (shown-quiet args screen iter b ts z h.every)
            ∙ append-nil b.out
            ∙ h.out;
      })

  Once-rest_of_round :
      (start : Timespec) (current : Option Timespec) (sleeps : List (Sleep S)) (b : Bar S)
      → IsOnce b
      → Once (rest_of_round args start current sleeps b)
  unfolding rest_of_round
  Once-rest_of_round start none sleeps b h = simp h.done h
  Once-rest_of_round start (some current) sleeps b h = simp h.done h

  Once-round_from :
      (r : Round S) (start : Option Timespec) (b : Bar S)
      → b.iter ≡ 0
      → IsOnce b
      → Once (round_from args r start b)
  unfolding round_from counted die
  Once-round_from r none b z h = h.out
  Once-round_from r (some start) b z h =
      let c : Bar S = record b { iter = (b.iter + 1) % 2 ^ 32 } in
      Once-and_then (printstatus args r.screen b.iter c) _
        (Once-printstatus r.screen b.iter c z
          (record { every = h.every; sflag = h.sflag; done = h.done; out = h.out }))
        (Once-rest_of_round start r.current r.sleeps)

  Once-round : (r : Round S) (b : Bar S) → b.iter ≡ 0 → IsOnce b → Once (round args r b)
  unfolding round
  Once-round r b z h =
      let f = Frame-apply r.dispatched b in
      Once-round_from r r.start (apply r.dispatched b) (f.iter ∙ z)
        (IsOnce-Frame b (apply r.dispatched b) f h)

  finish-LeftSilent :
      (teardown : Effect S) (closed : ℤ) (b : Bar S)
      → IsOnce b
      → LeftSilent (finish teardown closed b)
  unfolding finish
  finish-LeftSilent teardown closed b h = simp h.sflag (refl, h.out)

  leave :
      (o : Outcome S) (f : Bar S → Outcome S)
      → Once o
      → ((b : Bar S) → IsOnce b → LeftSilent (f b))
      → LeftSilent (and_then o f)
  leave (next b) f h k = k b h
  leave (exited code b) f h k = (refl, h)
  leave (waiting b) f h k = absurd h

  main_loop-LeftSilent :
      (teardown : Effect S) (closed : ℤ) (r : Round S) (rounds : List (Round S)) (b : Bar S)
      → b.iter ≡ 0
      → IsOnce b
      → LeftSilent (main_loop args teardown closed (r ∷ rounds) b)
  unfolding main_loop
  main_loop-LeftSilent teardown closed r rounds b z h =
      leave (round args r b) _ (Once-round r b z h)
        λ c hc. LeftSilent-then c.done _ _ hc.done (finish-LeftSilent teardown closed c hc)

  -- Under the option -1 alone the program leaves in its first round, whatever the outside does, and
  -- has shown nothing: neither a line on stdout nor a window name.
  pub run-once_silent :
      (setup teardown : Effect S) (opened : Bool) (closed : ℤ) (r : Round S)
      (rounds : List (Round S)) (f : Flags) (comp : S) (w : World)
      → f.every ≡ false
      → f.sflag ≡ true
      → f.done ≡ true
      → let o = run args setup teardown opened closed (r ∷ rounds) (started args f comp w) in
        (has_exited o ≡ true) × ((bar_of o).out ≡ [])
  unfolding run started
  run-once_silent setup teardown opened closed r rounds f comp w every sflag done =
      let b : Bar S = started args f comp w in
      let s = Frame-apply setup b in
      LeftSilent-else (not b.sflag && not opened) _ _ (not_and b.sflag (not opened) sflag) (
        main_loop-LeftSilent teardown closed r rounds (apply setup b) s.iter
          (IsOnce-Frame b _ s (record { every = every; sflag = sflag; done = done; out = refl })))
