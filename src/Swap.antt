-- ===== src/Swap.antt =====
-- The Linux part of components/swap.c: the swap lines of /proc/meminfo.
pub mod FreeBsd
pub mod Lines
pub mod OpenBsd
use slstatus.Prelude.{
  ℕ, suc, ◌+◌, ◌-◌, ◌*◌, ◌/◌, ◌%◌, ◌^◌, Bool, true, false, ◌&&◌, List, [], ◌∷◌, ◌++◌, Option, none,
  some, ◌==◌, if◌then◌else◌, drop, length,
}
use slstatus.Prelude.Int.{ℤ, pos, negsuc, pos_part, neg_part, sub_ℕ, ◌-ℤ◌, eqb_ℤ, ltb_ℤ}
use slstatus.Prelude.Text.{Text, lit}
use slstatus.Stdio.Format.{str}
use slstatus.Stdio.Format
use slstatus.Stdio.Scan.{ld, Scanned, int, scan, literal, wrap_int, uintmax_mod}
use slstatus.Util.{World, Try, bprintf, warn}
use slstatus.Util.Float.{Float}
use slstatus.Util.Human.{fmt_human}
use slstatus.Keymap.{starts_with}

-- The variables behind the pointers `s_total`, `s_free` and `s_cached`, and which pointers are set.
pub record Values : Type 0 where
  pub total : ℤ
  pub free : ℤ
  pub cached : ℤ

pub record Wanted : Type 0 where
  pub total : Bool
  pub free : Bool
  pub cached : Bool

-- The lines that `getline` returns, each with its newline: `line` is the front of the first one.
lines_from : Text → Text → List Text
lines_from [] [] = []
lines_from (x ∷ line) [] = (x ∷ line) ∷ []
lines_from line (c ∷ s) =
    let done = lines_from [] s in
    let more = lines_from (line ++ c ∷ []) s in if c == b'\n' then (line ++ c ∷ []) ∷ done else more

unfoldable pub lines_of : Text → List Text
unfolding lines_from
lines_of s = lines_from [] s

scanned : List Scanned → ℤ → ℤ
scanned (int n ∷ []) old = n
scanned _ old = old

-- `sscanf(line + len + 1, "%ld kB\n", var)`, whose result is not looked at.
unfoldable pub read_value : (len : ℕ) (line : Text) → ℤ → ℤ
unfolding scanned literal
read_value len line old =
    scanned (scan (ld ∷ literal (lit " kB\n")) (drop (len + 1) line)).items old

abbrev pub is_total : Wanted → Text → Bool
is_total want line = want.total && starts_with (lit "SwapTotal") line

abbrev pub is_free : Wanted → Text → Bool
is_free want line = want.free && starts_with (lit "SwapFree") line

abbrev pub is_cached : Wanted → Text → Bool
is_cached want line = want.cached && starts_with (lit "SwapCached") line

-- The inner loop: the values after a line, and whether `left` is counted down.
unfoldable pub read_line : Wanted → Text → Values → Values × Bool
unfolding read_value
read_line want line v =
    if is_total want line
    then (record v { total = read_value 9 line v.total }, true)
    else if is_free want line
    then (record v { free = read_value 8 line v.free }, true)
    else if is_cached want line
    then (record v { cached = read_value 10 line v.cached }, true)
    else (v, false)

-- `while (left > 0 && getline(…) >= 0)`
unfoldable pub read_lines : Wanted → (left : ℕ) → List Text → Values → Values
unfolding read_line
read_lines want left [] v = v
read_lines want left (line ∷ lines) v =
    let (v', hit) = read_line want line v in
    let more = read_lines want (if hit then left - 1 else left) lines v' in
    if left == 0 then v else more

abbrev one_if : Bool → ℕ
one_if true = 1
one_if false = 0

-- The first loop.
unfoldable pub count_left : Wanted → ℕ
count_left want = one_if want.total + one_if want.free + one_if want.cached

-- What is returned (0 or 1), and the values. `ferror` is asked behind the loop.
unfoldable pub get_swap_info : (ferror : Bool) → Wanted → Values → World → ℕ × Values × World
unfolding read_lines lines_of count_left
get_swap_info ferror want v w = elim (w.files (lit "/proc/meminfo")) [
  | none ↦ (1, v, warn (lit "fopen '/proc/meminfo':") [] w)
  | some content ↦
      let v' = read_lines want (count_left want) (lines_of content) v in
      if ferror then (1, v', warn (lit "getline '/proc/meminfo':") [] w) else (0, v', w)
]

-- A long as uintmax_t, times 1024.
abbrev pub kib : ℤ → ℕ
kib n = (pos_part n + (uintmax_mod - neg_part n % uintmax_mod)) % uintmax_mod * 1024 % uintmax_mod

-- Division of C, towards zero.
abbrev pub quot : ℤ → ℤ → ℤ
quot a b =
    let size = pos_part b + neg_part b in
    let up = pos_part a / size in
    let down = neg_part a / size in if ltb_ℤ b (pos 0) then sub_ℕ down up else sub_ℕ up down

-- The low 32 bits of a long, which `%d` takes.
abbrev pub low_int : ℤ → ℤ
low_int n = wrap_int (pos_part n + (2 ^ 64 - neg_part n))

-- `100 * (total - free - cached) / total`
unfoldable pub swap_percent : Values → ℤ
unfolding ◌-ℤ◌
swap_percent v =
    let used = v.total -ℤ v.free -ℤ v.cached in
    quot (sub_ℕ (100 * pos_part used) (100 * neg_part used)) v.total

-- `garbage` is what the local variables hold at first.
unfoldable pub swap_perc : (ferror : Bool) → Values → Try Text
unfolding get_swap_info swap_percent
swap_perc ferror garbage w =
    let (failed, v, w') =
      get_swap_info ferror (record { total = true; free = true; cached = true }) garbage w in
    let more = bprintf (lit "%d") (Format.int (low_int (swap_percent v)) ∷ []) w' in
    if failed == 0 then (if eqb_ℤ v.total (pos 0) then (none, w') else more) else (none, w')

module _ (F : Float) where
  -- The three functions that print a number of bytes, by the number of kB.
  in_bytes : ℕ × Values × World → (Values → ℤ) → Option Text × World
  in_bytes (failed, v, w) f =
      let more = fmt_human F (kib (f v)) 1024 w in if failed == 0 then more else (none, w)

  unfoldable pub swap_free : (ferror : Bool) → Values → Try Text
  unfolding get_swap_info in_bytes
  swap_free ferror garbage w =
      in_bytes
        (get_swap_info ferror (record { total = false; free = true; cached = false }) garbage w)
        (λ v. v.free)

  unfoldable pub swap_total : (ferror : Bool) → Values → Try Text
  unfolding get_swap_info in_bytes
  swap_total ferror garbage w =
      in_bytes
        (get_swap_info ferror (record { total = true; free = false; cached = false }) garbage w)
        (λ v. v.total)

  unfoldable pub swap_used : (ferror : Bool) → Values → Try Text
  unfolding get_swap_info in_bytes
  swap_used ferror garbage w =
      in_bytes
        (get_swap_info ferror (record { total = true; free = true; cached = true }) garbage w)
        (λ v. v.total -ℤ v.free -ℤ v.cached)
