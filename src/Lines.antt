-- ===== src/Lines.antt =====
-- Components that make one line of text: components/cat.c, components/run_command.c,
-- components/num_files.c and components/uptime.c. Files, commands, directories and the clock are
-- given by what the calls return.
pub mod First
pub mod Uptime
use slstatus.Prelude.{
  ℕ, ◌+◌, ◌-◌, ◌/◌, ◌%◌, ◌^◌, Bool, true, false, ◌||◌, List, [], ◌∷◌, Option, none, some, ltb, ◌==◌,
  if◌then◌else◌, length,
}
use slstatus.Prelude.Int.{ℤ, pos, negsuc}
use slstatus.Prelude.Text.{Text, lit, text_eq}
use slstatus.Stdio.Format.{str, int, uint}
use slstatus.Stdio.Format
use slstatus.Util.{World, Try, bprintf, warn, buf_size}

abbrev pub newline : ℕ
newline = 10

-- `fgets`: at most `n` bytes, up to the first newline and with it. A NUL ends what is seen of it.
unfoldable pub fgets : ℕ → Text → Text
fgets n [] = []
fgets n (c ∷ s) =
    let more = fgets (n - 1) s in
    if ltb 0 n then (if c == newline then c ∷ [] else c ∷ more) else []

-- The bytes up to a NUL.
unfoldable pub c_string : Text → Text
c_string [] = []
c_string (c ∷ s) = let more = c_string s in if c == 0 then [] else c ∷ more

has_newline : Text → Bool
has_newline [] = false
has_newline (c ∷ s) = (c == newline) || has_newline s

-- `if ((f = strrchr(buf, '\n'))) f[0] = '\0';`
unfoldable pub cut_last : Text → Text
unfolding has_newline
cut_last [] = []
cut_last (c ∷ s) =
    let more = cut_last s in if has_newline s then c ∷ more else if c == newline then [] else c ∷ s

-- `buf[0] ? buf : NULL`
unfoldable pub some_text : Text → Option Text
some_text [] = none
some_text (c ∷ s) = some (c ∷ s)

-- The end of `cat` and `run_command`: what the stream holds, and whether it closes.
unfoldable pub first_line : Text → (fmt arg : Text) → (closes : Bool) → Try Text
unfolding fgets c_string cut_last some_text
first_line content fmt arg closes w = elim content [
  | [] ↦ (none, if closes then w else warn fmt (str (some arg) ∷ []) w)
  | c ∷ s ↦
      let f = c_string (fgets (buf_size - 2) (c ∷ s)) in
      if closes
      then (some_text (cut_last f), record w { buf = cut_last f })
      else (none, warn fmt (str (some arg) ∷ []) (record w { buf = f }))
]

unfoldable pub cat : (closes : Bool) → Text → Try Text
unfolding first_line
cat closes path w = elim (w.files path) [
  | none ↦ (none, warn (lit "fopen '%s':") (str (some path) ∷ []) w)
  | some content ↦ first_line content (lit "fclose '%s':") path closes w
]

-- `output` is what `popen` runs, `none` where it fails.
unfoldable pub run_command : (output : Option Text) → (closes : Bool) → Text → Try Text
unfolding first_line
run_command none closes cmd w = (none, warn (lit "popen '%s':") (str (some cmd) ∷ []) w)
run_command (some content) closes cmd w = first_line content (lit "pclose '%s':") cmd closes w

-- The loop over the names of a directory.
unfoldable pub count_files : List Text → ℕ
count_files [] = 0
count_files (name ∷ names) =
    let num = count_files names in
    if text_eq name (lit ".") || text_eq name (lit "..") then num else num + 1

-- `names` is what `readdir` returns one by one, `none` where `opendir` fails.
unfoldable pub num_files : (names : Option (List Text)) → Text → Try Text
unfolding count_files
num_files none path w = (none, warn (lit "opendir '%s':") (str (some path) ∷ []) w)
num_files (some names) path w = bprintf (lit "%d") (int (pos (count_files names)) ∷ []) w

-- The conversion to uintmax_t of a time divided as C divides, towards zero.
unfoldable pub hours : ℤ → ℕ
hours (pos n) = n / 3600
hours (negsuc n) = (2 ^ 64 - (n + 1) / 3600) % 2 ^ 64

unfoldable pub minutes : ℤ → ℕ
minutes (pos n) = n % 3600 / 60
minutes (negsuc n) = (2 ^ 64 - (n + 1) % 3600 / 60) % 2 ^ 64

-- `seconds` is `tv_sec` of the time since boot, `none` where `clock_gettime` fails; CLOCK_BOOTTIME
-- is 7.
unfoldable pub uptime : (seconds : Option ℤ) → Try Text
unfolding hours minutes
uptime none w = (none, warn (lit "clock_gettime 7") [] w)
uptime (some t) w = bprintf (lit "%juh %jum") (uint (hours t) ∷ uint (minutes t) ∷ []) w
