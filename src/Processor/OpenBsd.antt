-- ===== src/Processor/OpenBsd.antt =====
-- The part of components/cpu.c for OpenBSD. `sysctl` is what it stores, `none` where it fails.
use slstatus.Prelude.{ℕ, ◌/◌, [], ◌∷◌, Option, none, some, ◌==◌, if◌then◌else◌}
use slstatus.Prelude.Int.{ℤ}
use slstatus.Prelude.Text.{Text, lit}
use slstatus.Stdio.Format.{int}
use slstatus.Stdio.Scan.{wrap_int}
use slstatus.Util.{World, Try, bprintf, warn}
use slstatus.Util.Float.{Float}
use slstatus.Util.Human.{fmt_human}
use slstatus.Memory.{add_64, sub_64, mul_64}

-- In MHz.
unfoldable pub cpu_freq : Float → (freq : Option ℤ) → Try Text
cpu_freq F none w = (none, warn (lit "sysctl 'HW_CPUSPEED':") [] w)
cpu_freq F (some freq) w = fmt_human F (F.to_uintmax (F.mul (F.of_ℤ freq) (F.of_ℕ 1000000))) 1000 w

-- The members of the array of CPUSTATES numbers that are read; the number 0 is CP_USER.
pub record States : Type 0 where
  pub cp_user : ℕ
  pub cp_nice : ℕ
  pub cp_sys : ℕ
  pub cp_intr : ℕ
  pub cp_idle : ℕ

abbrev pub busy : States → ℕ
busy a = add_64 (add_64 (add_64 a.cp_user a.cp_nice) a.cp_sys) a.cp_intr

abbrev pub total : States → ℕ
total a = add_64 (busy a) a.cp_idle

-- `b` is what the array held at the call.
unfoldable pub print_perc : (a b : States) → Try Text
print_perc a b w =
    let sum = sub_64 (total a) (total b) in
    let text =
      bprintf (lit "%d") (int (wrap_int (mul_64 100 (sub_64 (busy a) (busy b)) / sum)) ∷ []) w in
    if b.cp_user == 0 then (none, w) else if sum == 0 then (none, w) else text

unfoldable pub cpu_perc : Option States → (a : States) → World → Option Text × States × World
unfolding print_perc
cpu_perc none a w = (none, a, warn (lit "sysctl 'KERN_CPTIME':") [] w)
cpu_perc (some a') a w = let (res, w') = print_perc a' a w in (res, a', w')
