-- ===== src/Bar/Loop/State.antt =====
-- Invariants of the components' state through `main` of slstatus.c.
use mathlib.Core.Path.{subst}
use slstatus.Prelude.{
  ℕ, ◌≡◌, sym, ◌∙◌, refl, Bool, true, false, ◌||◌, not, ◌==◌, List, [], ◌∷◌, Option, none, some,
  if◌then◌else◌, All, Bool-cases, inl, inr, arith,
}
use slstatus.Prelude.Int.{ℤ}
use slstatus.Prelude.Text.{Text}
use slstatus.Util.{World}
use slstatus.Bar.{
  Arg, Effect, Bar, Outcome, next, exited, waiting, Screen, and_then, die, sighandler, handle_all,
  deliver, due, call, refresh, update, show_status, printstatus,
}
use slstatus.Bar.Clock.{Timespec, difftimespec, intspec}
use slstatus.Bar.Loop.{
  Sleep, slept, interrupted, failed, Round, apply, sleep_loop, rest_of_round, counted, round_from,
  round, finish, main_loop, run,
}

-- An outcome in which the program goes on only where `I` holds of the components' state.
pub data StaysIn {S : Type 0} (I : S → Type 0) : Outcome S → Type 0 where
  goes_on : {b : Bar S} → I b.comp → StaysIn I (next b)
  waits : {b : Bar S} → I b.comp → StaysIn I (waiting b)
  left : {code : ℕ} {b : Bar S} → StaysIn I (exited code b)

-- Every effect of a sleep, and of a round, is one of `E`.
pub data SleepOf {S : Type 0} (E : Effect S → Type 0) : Sleep S → Type 0 where
  slept_of : {f : Effect S} → E f → SleepOf E (slept f)
  interrupted_of :
      {f : Effect S} {remaining : Timespec} {screen : Screen}
      → E f
      → SleepOf E (interrupted f remaining screen)
  failed_of : SleepOf E failed

pub record RoundOf {S : Type 0} (E : Effect S → Type 0) (r : Round S) : Type 0 where
  pub dispatched : E r.dispatched
  pub sleeps : All (SleepOf E) r.sleeps

module _ {S : Type 0} (I : S → Type 0) where
  abbrev pub Keeps : Effect S → Type 0
  Keeps f = (s : S) (w : World) → I s → I (f s w).0

  abbrev pub AllKeep : List (Arg S) → Type 0
  AllKeep args = (s : S) (w : World) → I s → All (λ a. I (a.func a.args s w).1) args

  comp-sighandler : (signo : ℕ) (b : Bar S) → (sighandler signo b).comp ≡ b.comp
  unfolding sighandler
  comp-sighandler signo b = ground arith

  comp-handle_all : (signos : List ℕ) (b : Bar S) → (handle_all signos b).comp ≡ b.comp
  unfolding handle_all
  comp-handle_all [] b = refl
  comp-handle_all (signo ∷ more) b =
      comp-handle_all more (sighandler signo b) ∙ comp-sighandler signo b

  comp-deliver : (b : Bar S) → (deliver b).comp ≡ b.comp
  unfolding deliver
  comp-deliver b = comp-handle_all b.world.raised _

  apply-keeps : (f : Effect S) (b : Bar S) → Keeps f → I b.comp → I (apply f b).comp
  unfolding apply
  apply-keeps f b k h = subst I (sym (comp-deliver _)) (k b.comp b.world h)

  refresh-keeps :
      (a : Arg S) (b : Bar S) → I (a.func a.args b.comp b.world).1 → I (refresh a b).2.comp
  unfolding refresh call
  refresh-keeps a b h =
      let (_, comp', w) = a.func a.args b.comp b.world in
      subst I (sym (comp-deliver (record b { comp = comp'; world = w }))) h

  update-keeps :
      (iter : ℕ) (args : List (Arg S)) (ts : List Text) (b : Bar S)
      → AllKeep args
      → I b.comp
      → I (update iter args ts b).1.comp
  unfolding update
  update-keeps iter [] ts b k h = h
  update-keeps iter (a ∷ entries) [] b k h = h
  update-keeps iter (a ∷ entries) (t ∷ ts) b k h =
      let h' = refresh-keeps a b (k b.comp b.world h).0 in
      let rest : AllKeep entries = λ s w hs. (k s w hs).1 in
      elim (Bool-cases (due iter b.upsigno a)) [
        | inl is_due ↦ elim (Bool-cases (refresh a b).1) [
          | inl more ↦
              rw (is_due, more, update) (update-keeps iter entries ts (refresh a b).2 rest h')
          | inr stop ↦ rw (is_due, stop, update) h'
        ]
        | inr not_due ↦ rw (not_due, update) (update-keeps iter entries ts b rest h)
      ]

  StaysIn-if :
      (t : Bool) (o o' : Outcome S) → StaysIn I o → StaysIn I o' → StaysIn I (if t then o else o')
  StaysIn-if true o o' h h' = h
  StaysIn-if false o o' h h' = h'

  StaysIn-and_then :
      {o : Outcome S} {f : Bar S → Outcome S}
      → StaysIn I o
      → ((b : Bar S) → I b.comp → StaysIn I (f b))
      → StaysIn I (and_then o f)
  StaysIn-and_then (goes_on {b} h) k = k b h
  StaysIn-and_then (waits h) k = waits h
  StaysIn-and_then left k = left

  StaysIn-die : (msg : Text) (b : Bar S) → StaysIn I (die msg b)
  unfolding die
  StaysIn-die msg b = left

  show_status-StaysIn : (screen : Screen) (b : Bar S) → I b.comp → StaysIn I (show_status screen b)
  unfolding show_status
  show_status-StaysIn screen b h =
      StaysIn-if b.sflag _ _ (StaysIn-if screen.ferror _ _ (StaysIn-die _ _) (goes_on h))
        (StaysIn-if _ _ _ (StaysIn-die _ _) (goes_on h))

  module _ (E : Effect S → Type 0) (keeps : (f : Effect S) → E f → Keeps f) (args : List (Arg S))
      (funcs : AllKeep args) where
    printstatus-StaysIn :
        (screen : Screen) (iter : ℕ) (b : Bar S)
        → I b.comp
        → StaysIn I (printstatus args screen iter b)
    unfolding printstatus
    printstatus-StaysIn screen iter b h =
        let (ts, b') = update iter args b.statuses b in
        let c = record b' { statuses = ts; upsigno = 0 } in
        let h' = update-keeps iter args b.statuses b funcs h in
        StaysIn-if (b.every || not (iter == 0)) (show_status screen c) (next c)
          (show_status-StaysIn screen c h') (goes_on h')

    sleep_loop-StaysIn :
        (wait : Timespec) (sleeps : List (Sleep S)) (b : Bar S)
        → All (SleepOf E) sleeps
        → I b.comp
        → StaysIn I (sleep_loop args wait sleeps b)
    unfolding sleep_loop
    sleep_loop-StaysIn wait [] b k h = StaysIn-if _ _ _ (waits h) (goes_on h)
    sleep_loop-StaysIn wait (failed ∷ sleeps) b k h = StaysIn-if _ _ _ (StaysIn-die _ _) (goes_on h)
    sleep_loop-StaysIn wait (slept f ∷ sleeps) b (slept_of k, more) h =
        StaysIn-if _ _ _ (goes_on (apply-keeps f b (keeps f k) h)) (goes_on h)
    sleep_loop-StaysIn wait (interrupted f remaining screen ∷ sleeps) b (interrupted_of k, more) h =
        let h' = apply-keeps f b (keeps f k) h in
        StaysIn-if _ _ _
          (StaysIn-if _ _ _ (goes_on h') (
            StaysIn-and_then (printstatus-StaysIn screen 0 (apply f b) h') λ c hc.
              StaysIn-if _ _ _
                (sleep_loop-StaysIn remaining sleeps (record c { upsigno = 0 }) more hc)
                (StaysIn-die _ _)))
          (goes_on h)

    rest_of_round-StaysIn :
        (start : Timespec) (current : Option Timespec) (sleeps : List (Sleep S)) (b : Bar S)
        → All (SleepOf E) sleeps
        → I b.comp
        → StaysIn I (rest_of_round args start current sleeps b)
    unfolding rest_of_round
    rest_of_round-StaysIn start none sleeps b k h = StaysIn-if _ _ _ (goes_on h) (StaysIn-die _ _)
    rest_of_round-StaysIn start (some current) sleeps b k h =
        StaysIn-if _ _ _ (goes_on h)
          (sleep_loop-StaysIn (difftimespec intspec (difftimespec current start)) sleeps b k h)

    round_from-StaysIn :
        (r : Round S) (start : Option Timespec) (b : Bar S)
        → RoundOf E r
        → I b.comp
        → StaysIn I (round_from args r start b)
    unfolding round_from counted
    round_from-StaysIn r none b k h = StaysIn-die _ b
    round_from-StaysIn r (some start) b k h =
        StaysIn-and_then (printstatus-StaysIn r.screen b.iter _ h)
          λ c hc. rest_of_round-StaysIn start r.current r.sleeps c k.sleeps hc

    module _ (teardown : Effect S) (closed : ℤ) where
      finish-StaysIn : (b : Bar S) → StaysIn I (finish teardown closed b)
      unfolding finish
      finish-StaysIn b = StaysIn-if _ _ _ left (StaysIn-if _ _ _ (StaysIn-die _ _) left)

      main_loop-StaysIn :
          (rounds : List (Round S)) (b : Bar S)
          → All (RoundOf E) rounds
          → I b.comp
          → StaysIn I (main_loop args teardown closed rounds b)
      unfolding main_loop round
      main_loop-StaysIn [] b k h = waits h
      main_loop-StaysIn (r ∷ rounds) b (k, more) h =
          let h' = apply-keeps r.dispatched b (keeps r.dispatched k.dispatched) h in
          StaysIn-and_then (round_from-StaysIn r r.start (apply r.dispatched b) k h')
            λ c hc. StaysIn-if _ _ _ (finish-StaysIn c) (main_loop-StaysIn rounds c more hc)

      pub run-StaysIn :
          (setup : Effect S) (opened : Bool) (rounds : List (Round S)) (b : Bar S)
          → All (RoundOf E) rounds
          → I (setup b.comp b.world).0
          → StaysIn I (run args setup teardown opened closed rounds b)
      unfolding run apply
      run-StaysIn setup opened rounds b k h =
          StaysIn-if _ _ _ (StaysIn-die _ b)
            (main_loop-StaysIn rounds (apply setup b) k (subst I (sym (comp-deliver _)) h))
