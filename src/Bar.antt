-- ===== src/Bar.antt =====
-- slstatus.c: the state of the bar, its signal handler and `printstatus`. The components' state
-- `S` and the entries of `args` are parameters; an entry's function gets and returns that state
-- and the `World`.
pub mod Clock
pub mod Due
pub mod Frame
pub mod Loop
pub mod Lost
pub mod Options
pub mod Output
pub mod Sizes
use mathlib.Core.Option.{get_or}
use slstatus.Prelude.{
  ℕ, ◌+◌, ◌%◌, ◌≡◌, Bool, true, false, ◌&&◌, ◌||◌, not, List, [], ◌∷◌, ◌++◌, Option, none, some,
  ltb, leb, ◌==◌, if◌then◌else◌, concat, length,
}
use slstatus.Prelude.Int.{ℤ, pos, negsuc, pos_part, neg_part, sub_ℕ, leb_ℤ, ltb_ℤ, eqb_ℤ}
use slstatus.Prelude.Text.{Text, lit}
use slstatus.Stdio.Format.{str}
use slstatus.Util.{World, warn, esnprintf}

-- The signal numbers of Linux.
abbrev pub sigusr1 : ℕ
sigusr1 = 10

abbrev pub sigrtmin : ℕ
sigrtmin = 34

abbrev pub sigrtmax : ℕ
sigrtmax = 64

abbrev pub cmdlen : ℕ
cmdlen = 128

abbrev pub unknown_str : Text
unknown_str = []

-- What changes the components' state and the world.
abbrev pub Effect : Type 0 → Type 0
Effect S = S → World → S × World

pub record Arg (S : Type 0) : Type 0 where
  pub func : Option Text → S → World → Option Text × S × World
  pub fmt : Text
  pub args : Option Text
  pub turn : ℕ
  pub signal : ℤ

-- What the program shows: a line on stdout, or a name of the root window.
pub data Shown : Type 0 where
  line : Text → Shown
  window_name : Text → Shown
  no_name : Shown

-- The file-scope variables, the components' state, the world, and all output so far.
-- `every` is the source's `Sflag`.
pub record Bar (S : Type 0) : Type 0 where
  pub statuses : List Text
  pub iter : ℕ
  pub sflag : Bool
  pub every : Bool
  pub done : Bool
  pub upsigno : ℕ
  pub comp : S
  pub world : World
  pub out : List Shown

-- A bar that goes on, one that has left by `exit(code)`, or one whose script of the outside ended.
pub data Outcome (S : Type 0) : Type 0 where
  next : Bar S → Outcome S
  exited : ℕ → Bar S → Outcome S
  waiting : Bar S → Outcome S

-- How the writes of one `printstatus` end.
pub record Screen : Type 0 where
  pub ferror : Bool
  pub store_name : ℤ

module _ {S : Type 0} where
  abbrev pub and_then : Outcome S → (Bar S → Outcome S) → Outcome S
  and_then (next b) f = f b
  and_then (exited code b) f = exited code b
  and_then (waiting b) f = waiting b

  -- `die(fmt)`
  unfoldable pub die : Text → Bar S → Outcome S
  die msg b = exited 1 (record b { world = warn msg [] b.world })

  unfoldable pub sighandler : ℕ → Bar S → Bar S
  sighandler signo b =
      if (leb signo sigrtmax && leb sigrtmin signo) || (signo == sigusr1)
      then record b { upsigno = signo }
      else record b { done = true }

  pub handle_all : List ℕ → Bar S → Bar S
  unfolding sighandler
  handle_all [] b = b
  handle_all (signo ∷ more) b = handle_all more (sighandler signo b)

  -- The handler runs for all the signals raised, in their order.
  unfoldable pub deliver : Bar S → Bar S
  unfolding handle_all
  deliver b = handle_all b.world.raised (record b { world = record b.world { raised = [] } })

  -- The condition under which the loop of `printstatus` does not `continue`.
  unfoldable pub due : ℕ → ℕ → Arg S → Bool
  due iter upsigno a = not (
      not (iter == 0)
      && not (
          ((iter == 0) && (upsigno == 0))
          || (upsigno == sigusr1)
          || ((upsigno == 0) && ltb 0 a.turn && (iter % a.turn == 0))
          || (leb_ℤ (pos 0) a.signal && eqb_ℤ (sub_ℕ upsigno sigrtmin) a.signal)))

  -- `args[i].func(args[i].args)`, and the signals that arrived meanwhile.
  unfoldable pub call : Arg S → Bar S → Option Text × Bar S
  unfolding deliver
  call a b =
      let (res, comp', w) = a.func a.args b.comp b.world in
      (res, deliver (record b { comp = comp'; world = w }))

  -- An entry's new text in `statuses[i]`, and whether the loop goes on.
  unfoldable pub refresh : Arg S → Bar S → Text × Bool × Bar S
  unfolding call
  refresh a b =
      let (res, b') = call a b in
      let ((s, ret), w) =
        esnprintf cmdlen a.fmt (str (some (get_or res unknown_str)) ∷ []) b'.world in
      (s, not (ltb_ℤ ret (pos 0)), record b' { world = w })

  -- The first loop of `printstatus`, over the entries and their statuses.
  unfoldable pub update : ℕ → List (Arg S) → List Text → Bar S → List Text × Bar S
  unfolding refresh
  update iter [] ts b = (ts, b)
  update iter (a ∷ entries) [] b = ([], b)
  update iter (a ∷ entries) (t ∷ ts) b = elim (due iter b.upsigno a) [
    | false ↦ let (ts', b') = update iter entries ts b in (t ∷ ts', b')
    | true ↦
        let (s, more, b') = refresh a b in
        elim more [
          | false ↦ (s ∷ ts, b')
          | true ↦ let (ts', b'') = update iter entries ts b' in (s ∷ ts', b'')
        ]
  ]

  -- The text of all statuses, on stdout or as the name of the root window.
  unfoldable pub show_status : Screen → Bar S → Outcome S
  unfolding die
  show_status screen b =
      if b.sflag
      then (let b' = record b { out = b.out ++ line (concat b.statuses) ∷ [] } in
          if screen.ferror then die (lit "puts:") b' else next b')
      else if ltb_ℤ screen.store_name (pos 0)
      then die (lit "XStoreName: Allocation failed") b
      else next (record b { out = b.out ++ window_name (concat b.statuses) ∷ [] })

  unfoldable pub printstatus : List (Arg S) → Screen → ℕ → Bar S → Outcome S
  unfolding update show_status
  printstatus args screen iter b =
      let (ts, b') = update iter args b.statuses b in
      let b'' = record b' { statuses = ts; upsigno = 0 } in
      if b.every || not (iter == 0) then show_status screen b'' else next b''
