-- ===== src/Lines/First.antt =====
-- The first line of a stream, in components/cat.c and components/run_command.c.
use slstatus.Prelude.{ℕ, ◌-◌, ◌||◌, [], ◌∷◌, ltb, ◌==◌, if◌then◌else◌}
use slstatus.Prelude.Text.{Text}
use slstatus.Lines.{newline}

-- The bytes before the first newline or NUL, at most `n`.
abbrev pub line_of : ℕ → Text → Text
line_of n [] = []
line_of n (c ∷ s) =
    if ltb 0 n then (if (c == newline) || (c == 0) then [] else c ∷ line_of (n - 1) s) else []
