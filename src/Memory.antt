-- ===== src/Memory.antt =====
-- The Linux part of components/ram.c: the numbers of /proc/meminfo.
use slstatus.Prelude.{
  ℕ, ◌+◌, ◌-◌, ◌*◌, ◌/◌, ◌%◌, ◌^◌, Bool, true, false, List, [], ◌∷◌, ◌++◌, Option, none, some, ◌==◌,
  if◌then◌else◌,
}
use slstatus.Prelude.Text.{Text, lit}
use slstatus.Stdio.Format.{int}
use slstatus.Stdio.Scan.{Directive, ju, Scanned, uint, literal, wrap_int, uintmax_mod}
use slstatus.Util.{Try, ◌>>=◌, null, bprintf, pscanf_all}
use slstatus.Util.Float.{Float}
use slstatus.Util.Human.{fmt_human}
pub mod FreeBsd
pub mod OpenBsd
pub mod Percent

-- The arithmetic of uintmax_t.
abbrev pub sub_64 : ℕ → ℕ → ℕ
sub_64 a b = (a + (uintmax_mod - b % uintmax_mod)) % uintmax_mod

abbrev pub add_64 : ℕ → ℕ → ℕ
add_64 a b = (a + b) % uintmax_mod

abbrev pub mul_64 : ℕ → ℕ → ℕ
mul_64 a b = a * b % uintmax_mod

abbrev meminfo : Text
meminfo = lit "/proc/meminfo"

-- A line of the format: a name, `%ju` and the unit.
line : Text → List Directive
unfolding literal
line name = literal name ++ ju ∷ literal (lit " kB\n")

three_lines : List Directive
unfolding line
three_lines = line (lit "MemTotal: ") ++ line (lit "MemFree: ") ++ line (lit "MemAvailable: ")

five_lines : List Directive
unfolding line three_lines
five_lines = three_lines ++ line (lit "Buffers: ") ++ line (lit "Cached: ")

-- `total`, `free`, `buffers` and `cached`: the third value is overwritten by the fourth.
pub record Meminfo : Type 0 where
  pub total : ℕ
  pub free : ℕ
  pub buffers : ℕ
  pub cached : ℕ

of_five : List Scanned → Try Meminfo
of_five (uint total ∷ uint free ∷ uint available ∷ uint buffers ∷ uint cached ∷ []) =
    λ w. (some (record { total = total; free = free; buffers = buffers; cached = cached }), w)
of_five _ = null

read_five : Try Meminfo
unfolding five_lines of_five
read_five = pscanf_all 5 meminfo five_lines >>= of_five

last_of_three : List Scanned → Try ℕ
last_of_three (uint a ∷ uint b ∷ uint free ∷ []) = λ w. (some free, w)
last_of_three _ = null

only : List Scanned → Try ℕ
only (uint total ∷ []) = λ w. (some total, w)
only _ = null

-- `100 * ((total - free) - (buffers + cached)) / total`
unfoldable pub ram_percent : Meminfo → ℕ
ram_percent m = mul_64 100 (sub_64 (sub_64 m.total m.free) (add_64 m.buffers m.cached)) / m.total

-- `total - free - buffers - cached`
unfoldable pub used : Meminfo → ℕ
used m = sub_64 (sub_64 (sub_64 m.total m.free) m.buffers) m.cached

unfoldable pub ram_perc : Try Text
unfolding read_five ram_percent
ram_perc = read_five >>= λ m.
    if m.total == 0 then null else bprintf (lit "%d") (int (wrap_int (ram_percent m)) ∷ [])

module _ (F : Float) where
  unfoldable pub ram_free : Try Text
  unfolding three_lines last_of_three
  ram_free = pscanf_all 3 meminfo three_lines >>= last_of_three >>= λ free.
      fmt_human F (mul_64 free 1024) 1024

  unfoldable pub ram_total : Try Text
  unfolding line only
  ram_total = pscanf_all 1 meminfo (line (lit "MemTotal: ")) >>= only >>= λ total.
      fmt_human F (mul_64 total 1024) 1024

  unfoldable pub ram_used : Try Text
  unfolding read_five used
  ram_used = read_five >>= λ m. fmt_human F (mul_64 (used m) 1024) 1024
