-- ===== src/Util.antt =====
-- util.c and util.h: the shared buffer, messages on standard error, bounded printing, `pscanf`.
-- `World` holds what these functions change. A function whose `NULL` or -1 makes its callers
-- return `NULL` is a `Try`; `va_list`s are lists of values.
pub mod Bounds
pub mod Float
pub mod Human
pub mod Raised
use slstatus.Prelude.{
  ℕ, ◌+◌, ◌≡◌, Bool, true, false, List, [], ◌∷◌, ◌++◌, Option, none, some, leb, ◌==◌, if◌then◌else◌,
  length,
}
use slstatus.Prelude.Int.{ℤ, pos, negsuc, pos_part, ltb_ℤ, eqb_ℤ}
use slstatus.Prelude.Text.{Text, lit}
use slstatus.Stdio.Format.{Val, str, format, vsnprintf}
use slstatus.Stdio.Scan.{Directive, Scan, Scanned, scan, scan_count}

-- A line on standard error; `perror`: a colon and the text for `errno` stand behind it.
pub record Message : Type 0 where
  pub text : Text
  pub perror : Bool

-- `buf`, standard error, the files that can be read, and the signals that `kill(getpid(), …)` and
-- the outside have raised and that have not been handled yet.
pub record World : Type 0 where
  pub buf : Text
  pub err : List Message
  pub files : Text → Option Text
  pub raised : List ℕ

abbrev pub Try : Type 0 → Type 0
Try A = World → Option A × World

abbrev and_then : {A B : Type 0} → Option A → World → (A → Try B) → Option B × World
and_then none w f = (none, w)
and_then (some a) w f = f a w

infixl 5 ◌>>=◌ ◌>>◌
abbrev pub ◌>>=◌ : {A B : Type 0} → Try A → (A → Try B) → Try B
◌>>=◌ m f w = let (r, w') = m w in and_then r w' f

abbrev pub ◌>>◌ : {A B : Type 0} → Try A → Try B → Try B
m >> n = m >>= λ _. n

abbrev pub return : {A : Type 0} → A → Try A
return a w = (some a, w)

-- `return NULL`.
abbrev pub null : {A : Type 0} → Try A
null w = (none, w)

abbrev ends_with_colon : Text → Bool
ends_with_colon [] = false
ends_with_colon (c ∷ []) = c == b':'
ends_with_colon (c ∷ d ∷ s) = ends_with_colon (d ∷ s)

-- It is the format, not the text made of it, whose last byte is looked at.
unfoldable pub verr : Text → List Val → World → World
verr fmt ap w = record w {
  err = w.err ++ record { text = format fmt ap; perror = ends_with_colon fmt } ∷ [];
}

unfoldable pub warn : Text → List Val → World → World
unfolding verr
warn fmt ap w = verr fmt ap w

-- The string left in the buffer, the value returned, and the warnings.
unfoldable pub evsnprintf : ℕ → Text → List Val → World → (Text × ℤ) × World
evsnprintf size fmt ap w =
    let (s, ret) = vsnprintf size fmt ap in
    if ltb_ℤ ret (pos 0)
    then ((s, negsuc 0), warn (lit "vsnprintf:") [] w)
    else if leb size (pos_part ret)
    then ((s, negsuc 0), warn (lit "vsnprintf: Output truncated") [] w)
    else ((s, ret), w)

unfoldable pub esnprintf : ℕ → Text → List Val → World → (Text × ℤ) × World
unfolding evsnprintf
esnprintf size fmt ap w = evsnprintf size fmt ap w

abbrev pub buf_size : ℕ
buf_size = 1024

-- The string is in `buf` also where `NULL` is returned.
unfoldable pub bprintf : Text → List Val → Try Text
bprintf fmt ap w =
    let ((s, ret), w') = evsnprintf buf_size fmt ap w in
    let w'' = record w' { buf = s } in if ltb_ℤ ret (pos 0) then (none, w'') else (some s, w'')

-- The number of items and the items.
unfoldable pub pscanf : Text → List Directive → World → (ℤ × List Scanned) × World
pscanf path fmt w = elim (w.files path) [
  | none ↦ ((negsuc 0, []), warn (lit "fopen '%s':") (str (some path) ∷ []) w)
  | some content ↦ let r = scan fmt content in ((scan_count r, r.items), w)
]

-- `if (pscanf(…) != n) return NULL;`
unfoldable pub pscanf_all : ℕ → Text → List Directive → Try (List Scanned)
unfolding pscanf
pscanf_all n path fmt w =
    let ((count, items), w') = pscanf path fmt w in
    if eqb_ℤ count (pos n) then (some items, w') else (none, w')

-- `if (esnprintf(path, size, …) < 0) return NULL;`
unfoldable pub esnprintf_all : ℕ → Text → List Val → Try Text
unfolding esnprintf
esnprintf_all size fmt ap w =
    let ((s, ret), w') = esnprintf size fmt ap w in
    if ltb_ℤ ret (pos 0) then (none, w') else (some s, w')

-- `kill(getpid(), signo)`: the signal waits in `raised` until the handler has run.
unfoldable pub kill : ℕ → World → World
kill signo w = record w { raised = w.raised ++ signo ∷ [] }
