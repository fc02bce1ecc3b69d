-- ===== src/Processor.antt =====
-- The Linux part of components/cpu.c. `L` is the type long double, `strtold` reads one at the front
-- of a text.
pub mod FreeBsd
pub mod OpenBsd
use slstatus.Prelude.{
  ℕ, zero, suc, ◌*◌, ◌%◌, ◌^◌, Bool, true, List, [], ◌∷◌, ◌++◌, Option, none, some, ◌==◌,
  if◌then◌else◌, drop, length,
}
use slstatus.Prelude.Text.{Text, lit}
use slstatus.Stdio.Format.{str, int}
use slstatus.Stdio.Scan.{skip_space, skip_word}
use slstatus.Util.{World, Try, ◌>>=◌, bprintf, warn}
use slstatus.Util.Float.{Float}
use slstatus.Util.Human.{fmt_human}
use slstatus.System.{read_number}

-- In kHz.
unfoldable pub cpu_freq : Float → Try Text
cpu_freq F = read_number (lit "/sys/devices/system/cpu/cpu0/cpufreq/scaling_cur_freq") >>= λ freq.
    fmt_human F (freq * 1000 % 2 ^ 64) 1000

module _ (L : Float) (strtold : Text → Option (Float.Double L × Text)) where
  open L use {Double, of_ℕ, add, sub, mul, div, eq, trunc}

  -- The conversions `%Lf` that are left, up to the first that fails.
  read_times : (left : ℕ) → Text → List Double
  read_times zero s = []
  read_times (suc left) s = elim (strtold (skip_space s)) [
    | none ↦ []
    | some (x, rest) ↦ x ∷ read_times left rest
  ]

  -- "%*s %Lf %Lf %Lf %Lf %Lf %Lf %Lf" of /proc/stat. Without the file nothing is read.
  unfoldable pub scan_stat : World → List Double × World
  unfolding read_times
  scan_stat w = elim (w.files (lit "/proc/stat")) [
    | none ↦ ([], warn (lit "fopen '%s':") (str (some (lit "/proc/stat")) ∷ []) w)
    | some content ↦ (read_times 7 (skip_word (skip_space content)), w)
  ]

  -- The values read stand in front of what `a` held.
  abbrev pub stored : List Double → List Double → List Double
  stored read a = read ++ drop (length read) a

  -- The seven times added up, and those in which the processor worked.
  abbrev pub total : List Double → Double
  total (a ∷ b ∷ c ∷ d ∷ e ∷ f ∷ g ∷ []) = add (add (add (add (add (add a b) c) d) e) f) g
  total _ = of_ℕ 0

  abbrev pub busy : List Double → Double
  busy (a ∷ b ∷ c ∷ d ∷ e ∷ f ∷ g ∷ []) = add (add (add (add a b) c) f) g
  busy _ = of_ℕ 0

  abbrev pub is_zero : Double → Bool
  is_zero x = eq x (of_ℕ 0)

  abbrev first_is_zero : List Double → Bool
  first_is_zero [] = true
  first_is_zero (x ∷ b) = is_zero x

  -- `b` is what `a` held at the call.
  unfoldable pub print_perc : (a b : List Double) → Try Text
  print_perc a b w =
      let sum = sub (total b) (total a) in
      let work = sub (busy b) (busy a) in
      let text = bprintf (lit "%d") (int (trunc (div (mul (of_ℕ 100) work) sum)) ∷ []) w in
      if first_is_zero b then (none, w) else if is_zero sum then (none, w) else text

  -- `a` is the static array of seven.
  unfoldable pub cpu_perc : List Double → World → Option Text × List Double × World
  unfolding scan_stat print_perc
  cpu_perc a w =
      let (read, w') = scan_stat w in
      let a' = stored read a in
      let (res, w'') = print_perc a' a w' in
      if length read == 7 then (res, a', w'') else (none, a', w')
