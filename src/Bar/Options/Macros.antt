-- ===== src/Bar/Options/Macros.antt =====
-- arg.h: the loop of ARGBEGIN and ARGEND around any switch, with the macros for the argument of an
-- option.
use mathlib.Core.Path.{fun_ext}
use slstatus.Prelude.{
  ℕ, ◌≡◌, refl, ap, ◌∙◌, true, false, List, [], ◌∷◌, Option, none, some, ◌==◌, if◌then◌else◌,
  Bool-cases, inl, inr,
}
use slstatus.Prelude.Text.{Text, text_eq}
use slstatus.Bar.Options.{Flags, Parsed, version, usage, letters, no_more, parse_from, parse}

-- What a case of the switch does with the variables of the program: go on without an argument;
-- take `ARGF()`; take `EARGF(x)`, where `x` is what is done without one; or leave the program.
pub data Case (A R : Type 0) : Type 0 where
  go_on : A → Case A R
  argf : (Option Text → A) → Case A R
  eargf : (Text → A) → R → Case A R
  leave : R → Case A R

-- Behind ARGEND with the arguments that are left, or out of the program.
pub data Behind (A R : Type 0) : Type 0 where
  rest : List Text → A → Behind A R
  gone : R → Behind A R

module _ {A R : Type 0} (switch : ℕ → A → Case A R) where
  -- `one` goes on behind this word, `two` behind the next one, which is `following`.
  word : Text → Option Text → A → (one two : A → Behind A R) → Behind A R
  word [] following a one two = one a
  word (c ∷ []) following a one two = elim (switch c a) [
    | go_on a' ↦ one a'
    | argf f ↦ elim following [ none ↦ one (f none) | some w ↦ two (f (some w)) ]
    | eargf f r ↦ elim following [ none ↦ gone r | some w ↦ two (f w) ]
    | leave r ↦ gone r
  ]
  word (c ∷ d ∷ cs) following a one two = elim (switch c a) [
    | go_on a' ↦ word (d ∷ cs) following a' one two
    | argf f ↦ one (f (some (d ∷ cs)))
    | eargf f r ↦ one (f (d ∷ cs))
    | leave r ↦ gone r
  ]

  -- An argument that is a dash with more behind it, or the end of the options.
  option :
      Text
      → (following : Option Text) → (here there : List Text) → A
      → (one two : A → Behind A R) → Behind A R
  unfolding word
  option [] following here there a one two = rest here a
  option (c ∷ []) following here there a one two = rest here a
  option (c ∷ d ∷ cs) following here there a one two =
      if c == b'-'
      then (if text_eq (d ∷ cs) (b'-' ∷ [])
          then rest there a
          else word (d ∷ cs) following a one two)
      else rest here a

  -- The arguments behind the program's name.
  unfoldable pub options : List Text → A → Behind A R
  unfolding option
  options [] a = rest [] a
  options (x ∷ []) a = option x none (x ∷ []) [] a (λ a'. rest [] a') (λ a'. rest [] a')
  options (x ∷ y ∷ argv) a =
      option x (some y) (x ∷ y ∷ argv) (y ∷ argv) a (λ a'. options (y ∷ argv) a')
        (λ a'. options argv a')

  -- An option with an argument takes it from the rest of its word or, the same, from the next one.
  pub options-joined :
      (c v : ℕ) (vs : Text) (argv : List Text) (a : A) (f : Text → A) (r : R)
      → (c == b'-') ≡ false
      → switch c a ≡ eargf f r
      → options ((b'-' ∷ c ∷ v ∷ vs) ∷ argv) a ≡ options ((b'-' ∷ c ∷ []) ∷ (v ∷ vs) ∷ argv) a
  unfolding options option word
  options-joined c v vs [] a f r plain e = rw (plain, e, word) refl
  options-joined c v vs (w ∷ argv) a f r plain e = rw (plain, e, word) refl

-- The switch of `main`.
unfoldable pub main_switch : ℕ → Flags → Case Flags Parsed
main_switch c f =
    if c == b'v'
    then leave version
    else if c == b'1'
    then go_on (record f { done = true; sflag = true })
    else if c == b's'
    then go_on (record f { sflag = true })
    else if c == b'S'
    then go_on (record f { every = true })
    else leave usage

-- `if (argc) usage();`
unfoldable pub main_behind : Behind Flags Parsed → Parsed
unfolding no_more
main_behind (rest argv f) = no_more argv f
main_behind (gone r) = r

-- What both make of a letter.
data Letter (c : ℕ) (f : Flags) : Type 0 where
  leaves :
      (r : Parsed)
      → ((cs : Text) (k : Flags → Parsed) → letters (c ∷ cs) f k ≡ r)
      → main_switch c f ≡ leave r
      → Letter c f
  sets :
      (f' : Flags)
      → ((cs : Text) (k : Flags → Parsed) → letters (c ∷ cs) f k ≡ letters cs f' k)
      → main_switch c f ≡ go_on f'
      → Letter c f

letter : (c : ℕ) (f : Flags) → Letter c f
unfolding letters main_switch
letter c f = elim (Bool-cases (c == b'v')) [
  | inl v ↦ leaves version (λ cs k. rw v refl) (rw v refl)
  | inr v ↦ elim (Bool-cases (c == b'1')) [
    | inl one ↦
        sets (record f { done = true; sflag = true }) (λ cs k. rw (v, one) refl) (rw (v, one) refl)
    | inr one ↦ elim (Bool-cases (c == b's')) [
      | inl s ↦ sets (record f { sflag = true }) (λ cs k. rw (v, one, s) refl) (rw (v, one, s) refl)
      | inr s ↦ elim (Bool-cases (c == b'S')) [
        | inl every ↦
            sets (record f { every = true }) (λ cs k. rw (v, one, s, every) refl)
              (rw (v, one, s, every) refl)
        | inr every ↦ leaves usage (λ cs k. rw (v, one, s, every) refl) (rw (v, one, s, every) refl)
      ]
    ]
  ]
]

letters-word :
    (xs : Text) (f : Flags) (following : Option Text) (one two : Flags → Behind Flags Parsed)
    → letters xs f (λ f'. main_behind (one f'))
      ≡ main_behind (word main_switch xs following f one two)
unfolding letters word main_behind
letters-word [] f following one two = refl
letters-word (c ∷ []) f following one two = elim (letter c f) [
  | leaves r e s ↦ e [] (λ f'. main_behind (one f')) ∙ rw (s, word) refl
  | sets f' e s ↦ e [] (λ f'. main_behind (one f')) ∙ rw (s, word) refl
]
letters-word (c ∷ d ∷ cs) f following one two = elim (letter c f) [
  | leaves r e s ↦ e (d ∷ cs) (λ f'. main_behind (one f')) ∙ rw (s, word) refl
  | sets f' e s ↦
      e (d ∷ cs) (λ g. main_behind (one g))
      ∙ rw (s, word) (letters-word (d ∷ cs) f' following one two)
]

-- The same of a word that may be an option.
option_lem :
    (x : Text) (following : Option Text) (argv : List Text) (f : Flags)
    (two : Flags → Behind Flags Parsed)
    → ((f' : Flags) → parse_from argv f' ≡ main_behind (options main_switch argv f'))
    → parse_from (x ∷ argv) f
      ≡ main_behind
          (option main_switch x following (x ∷ argv) argv f (λ f'. options main_switch argv f') two)
unfolding parse_from option main_behind
option_lem [] following argv f two h = refl
option_lem (c ∷ []) following argv f two h = refl
option_lem (c ∷ d ∷ cs) following argv f two h = elim (Bool-cases (c == b'-')) [
  | inl dash ↦ elim (Bool-cases (text_eq (d ∷ cs) (b'-' ∷ []))) [
    | inl end ↦ rw (dash, end) refl
    | inr more ↦
        rw (dash, more)
          (ap (letters (d ∷ cs) f) (fun_ext h)
            ∙ letters-word (d ∷ cs) f following (λ f'. options main_switch argv f') two)
  ]
  | inr plain ↦ rw plain refl
]

parse_from-options :
    (argv : List Text) (f : Flags) → parse_from argv f ≡ main_behind (options main_switch argv f)
unfolding parse_from options main_behind
parse_from-options [] f = refl
parse_from-options (x ∷ []) f = option_lem x none [] f _ (parse_from-options [])
parse_from-options (x ∷ y ∷ argv) f =
    option_lem x (some y) (y ∷ argv) f _ (parse_from-options (y ∷ argv))

-- The options of `main` are read as the loop of arg.h reads them around the switch of `main`.
parse-options :
    (argv : List Text)
    → parse argv
      ≡ main_behind
          (options main_switch argv (record { done = false; sflag = false; every = false }))
unfolding parse
parse-options argv = parse_from-options argv _
