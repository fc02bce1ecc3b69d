-- ===== src/Processor/FreeBsd.antt =====
-- The part of components/cpu.c for FreeBSD. `sysctlbyname` is what it stores, `none` where it fails or
-- stores nothing. A long is an integer, which does not overflow here.
use slstatus.Prelude.{◌*◌, [], ◌∷◌, Option, none, some, if◌then◌else◌}
use slstatus.Prelude.Int.{ℤ, pos, pos_part, neg_part, sub_ℕ, ◌+ℤ◌, ◌-ℤ◌, eqb_ℤ}
use slstatus.Prelude.Text.{Text, lit}
use slstatus.Stdio.Format.{int}
use slstatus.Util.{World, Try, bprintf, warn}
use slstatus.Util.Float.{Float}
use slstatus.Util.Human.{fmt_human}
use slstatus.Swap.{quot, low_int}

-- In MHz.
unfoldable pub cpu_freq : Float → (freq : Option ℤ) → Try Text
cpu_freq F none w = (none, warn (lit "sysctlbyname 'hw.clockrate':") [] w)
cpu_freq F (some freq) w = fmt_human F (F.to_uintmax (F.mul (F.of_ℤ freq) (F.of_ℕ 1000000))) 1000 w

-- The members of the array of CPUSTATES numbers that are read; the number 0 is CP_USER.
pub record States : Type 0 where
  pub cp_user : ℤ
  pub cp_nice : ℤ
  pub cp_sys : ℤ
  pub cp_intr : ℤ
  pub cp_idle : ℤ

abbrev pub busy : States → ℤ
busy a = a.cp_user +ℤ a.cp_nice +ℤ a.cp_sys +ℤ a.cp_intr

abbrev pub total : States → ℤ
total a = busy a +ℤ a.cp_idle

abbrev pub hundred : ℤ → ℤ
hundred n = sub_ℕ (100 * pos_part n) (100 * neg_part n)

-- `b` is what the array held at the call.
unfoldable pub print_perc : (a b : States) → Try Text
print_perc a b w =
    let sum = total a -ℤ total b in
    let perc = quot (hundred (busy a -ℤ busy b)) sum in
    let text = bprintf (lit "%d") (int (low_int perc) ∷ []) w in
    if eqb_ℤ b.cp_user (pos 0) then (none, w) else if eqb_ℤ sum (pos 0) then (none, w) else text

unfoldable pub cpu_perc : Option States → (a : States) → World → Option Text × States × World
unfolding print_perc
cpu_perc none a w = (none, a, warn (lit "sysctlbyname 'kern.cp_time':") [] w)
cpu_perc (some a') a w = let (res, w') = print_perc a' a w in (res, a', w')
