-- ===== src/Stdio/Scan.antt =====
-- scanf: the directives that the program uses, read from the start of a file's text.
use slstatus.Prelude.{
  ℕ, ◌-◌, ◌%◌, ◌^◌, Bool, true, false, ◌&&◌, ◌||◌, not, List, [], ◌∷◌, Option, none, some, leb, ltb,
  ◌==◌, if◌then◌else◌, length,
}
use slstatus.Prelude.Int.{ℤ, pos, negsuc}
use slstatus.Prelude.Text.{Text}
use slstatus.Stdio.Decimal.{is_digit, read_digits, skip_digits}

abbrev pub is_space : ℕ → Bool
is_space c = (c == 32) || (leb 9 c && leb c 13)

pub data Directive : Type 0 where
  space : Directive  -- white space, as much as there is
  exact : ℕ → Directive  -- this byte
  word : Directive  -- %*s
  ju : Directive  -- %ju
  d : Directive  -- %d
  ld : Directive  -- %ld
  set : ℕ → (ℕ → Bool) → Directive  -- %n[…]

-- What a conversion stores.
pub data Scanned : Type 0 where
  uint : ℕ → Scanned
  int : ℤ → Scanned
  chars : Text → Scanned

-- The values stored, and whether the input ended before anything was converted (EOF).
pub record Scan : Type 0 where
  pub items : List Scanned
  pub eof : Bool

unfoldable pub skip_space : Text → Text
skip_space [] = []
skip_space (c ∷ s) = let more = skip_space s in if is_space c then more else c ∷ s

unfoldable pub skip_word : Text → Text
skip_word [] = []
skip_word (c ∷ s) = let more = skip_word s in if is_space c then c ∷ s else more

-- The longest prefix of at most `n` bytes that pass the test, and what is behind it.
unfoldable pub span : ℕ → (ℕ → Bool) → Text → Text × Text
span n p [] = ([], [])
span n p (c ∷ s) =
    let (front, rest) = span (n - 1) p s in
    if ltb 0 n && p c then (c ∷ front, rest) else ([], c ∷ s)

abbrev pub uintmax_mod : ℕ
uintmax_mod = 2 ^ 64

-- An optional sign and digits. `none`: there is no digit.
signed_digits : Bool → Text → Option (Bool × ℕ × Text)
signed_digits negative [] = none
signed_digits negative (c ∷ s) =
    if is_digit c then some (negative, read_digits 0 (c ∷ s), skip_digits (c ∷ s)) else none

read_integer : Text → Option (Bool × ℕ × Text)
unfolding signed_digits read_digits skip_digits
read_integer [] = none
read_integer (c ∷ s) =
    if c == b'-'
    then signed_digits true s
    else if c == b'+'
    then signed_digits false s
    else signed_digits false (c ∷ s)

-- strtoumax: too large a value saturates, a minus sign negates modulo 2 ^ 64.
abbrev to_uintmax : Bool → ℕ → ℕ
to_uintmax negative n =
    if leb uintmax_mod n
    then uintmax_mod - 1
    else if negative
    then (uintmax_mod - n) % uintmax_mod
    else n

-- strtol, and the conversion of the long to int.
abbrev pub wrap_int : ℕ → ℤ
wrap_int n =
    if ltb (n % 2 ^ 32) (2 ^ 31) then pos (n % 2 ^ 32) else negsuc (2 ^ 32 - n % 2 ^ 32 - 1)

-- strtol.
abbrev to_long : Bool → ℕ → ℤ
to_long negative n =
    if negative
    then (if n == 0 then pos 0 else if leb (2 ^ 63) n then negsuc (2 ^ 63 - 1) else negsuc (n - 1))
    else pos (if leb (2 ^ 63) n then 2 ^ 63 - 1 else n)

abbrev to_int : Bool → ℕ → ℤ
to_int negative n =
    if negative
    then wrap_int (2 ^ 64 - (if leb (2 ^ 63) n then 2 ^ 63 else n))
    else wrap_int (if leb (2 ^ 63) n then 2 ^ 63 - 1 else n)

-- The text of a format between its conversions: white space matches any amount of it.
unfoldable pub literal : Text → List Directive
literal [] = []
literal (c ∷ s) = (if is_space c then space else exact c) ∷ literal s

-- atoi.
unfoldable pub atoi : Text → ℤ
unfolding skip_space read_integer
atoi s = elim (read_integer (skip_space s)) [
  | none ↦ pos 0
  | some (negative, n, behind) ↦ to_int negative n
]

-- The directives in order. `got`: something has been converted.
unfoldable pub scan_from : List Directive → Bool → Text → List Scanned × Bool
unfolding skip_space skip_word span read_integer
scan_from [] got s = ([], false)
scan_from (space ∷ ds) got s = scan_from ds got (skip_space s)
scan_from (exact x ∷ ds) got s = elim s [
  | [] ↦ ([], not got)
  | c ∷ rest ↦ elim (c == x) [ true ↦ scan_from ds got rest | false ↦ ([], false) ]
]
scan_from (word ∷ ds) got s = elim (skip_space s) [
  | [] ↦ ([], not got)
  | c ∷ rest ↦ scan_from ds got (skip_word (c ∷ rest))
]
scan_from (ju ∷ ds) got s = elim (skip_space s) [
  | [] ↦ ([], not got)
  | c ∷ rest ↦ elim (read_integer (c ∷ rest)) [
    | none ↦ ([], false)
    | some (negative, n, behind) ↦
        let (items, eof) = scan_from ds true behind in (uint (to_uintmax negative n) ∷ items, eof)
  ]
]
scan_from (d ∷ ds) got s = elim (skip_space s) [
  | [] ↦ ([], not got)
  | c ∷ rest ↦ elim (read_integer (c ∷ rest)) [
    | none ↦ ([], false)
    | some (negative, n, behind) ↦
        let (items, eof) = scan_from ds true behind in (int (to_int negative n) ∷ items, eof)
  ]
]
scan_from (ld ∷ ds) got s = elim (skip_space s) [
  | [] ↦ ([], not got)
  | c ∷ rest ↦ elim (read_integer (c ∷ rest)) [
    | none ↦ ([], false)
    | some (negative, n, behind) ↦
        let (items, eof) = scan_from ds true behind in (int (to_long negative n) ∷ items, eof)
  ]
]
scan_from (set n p ∷ ds) got s = elim s [
  | [] ↦ ([], not got)
  | c ∷ rest ↦
      let (front, behind) = span n p (c ∷ rest) in
      elim front [
        | [] ↦ ([], false)
        | x ∷ front' ↦
            let (items, eof) = scan_from ds true behind in (chars (x ∷ front') ∷ items, eof)
      ]
]

unfoldable pub scan : List Directive → Text → Scan
unfolding scan_from
scan ds s = let (items, eof) = scan_from ds false s in record { items = items; eof = eof }

-- The value that scanf returns: the number of items, or -1 for EOF.
unfoldable pub scan_count : Scan → ℤ
scan_count r = if r.eof then negsuc 0 else pos (length r.items)
