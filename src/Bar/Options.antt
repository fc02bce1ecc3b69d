-- ===== src/Bar/Options.antt =====
-- The command line of `main`: the loop of arg.h (ARGBEGIN … ARGEND) with the cases of slstatus.c.
pub mod Cluster
pub mod Macros
use slstatus.Prelude.{Bool, true, false, List, [], ◌∷◌, ◌==◌, if◌then◌else◌}
use slstatus.Prelude.Text.{Text, text_eq}

pub record Flags : Type 0 where
  pub done : Bool
  pub sflag : Bool
  pub every : Bool

pub data Parsed : Type 0 where
  flags : Flags → Parsed
  version : Parsed
  usage : Parsed

-- The letters of one argument, with what is done after the last.
letters : Text → Flags → (Flags → Parsed) → Parsed
letters [] f rest = rest f
letters (c ∷ cs) f rest =
    let more =
      letters cs
        (if c == b'1'
          then record f { done = true; sflag = true }
          else if c == b's'
          then record f { sflag = true }
          else record f { every = true })
        rest in
    if c == b'v'
    then version
    else if (c == b'1')
    then more
    else if (c == b's')
    then more
    else if (c == b'S')
    then more
    else usage

-- `if (argc) usage();`
no_more : List Text → Flags → Parsed
no_more [] f = flags f
no_more (a ∷ argv) f = usage

-- The arguments behind the program's name.
parse_from : List Text → Flags → Parsed
unfolding letters no_more
parse_from [] f = flags f
parse_from ([] ∷ argv) f = usage
parse_from ((c ∷ []) ∷ argv) f = usage
parse_from ((c ∷ x ∷ cs) ∷ argv) f =
    let more = letters (x ∷ cs) f (λ f'. parse_from argv f') in
    if c == b'-' then (if text_eq (x ∷ cs) (b'-' ∷ []) then no_more argv f else more) else usage

unfoldable pub parse : List Text → Parsed
unfolding parse_from
parse argv = parse_from argv (record { done = false; sflag = false; every = false })
