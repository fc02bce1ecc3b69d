-- ===== src/Memory/FreeBsd.antt =====
-- The part of components/ram.c for FreeBSD. The arguments are what sysctl and sysctlbyname store,
-- `none` where they fail or store nothing; products of unsigned ints wrap around.
use slstatus.Prelude.{ℕ, ◌*◌, ◌/◌, ◌%◌, ◌^◌, [], ◌∷◌, Option, none, some}
use slstatus.Prelude.Text.{Text, lit}
use slstatus.Stdio.Format.{int}
use slstatus.Stdio.Scan.{wrap_int}
use slstatus.Util.{Try, bprintf, null}
use slstatus.Util.Float.{Float}
use slstatus.Util.Human.{fmt_human}
use slstatus.Memory.{mul_64}

abbrev pub mul_32 : ℕ → ℕ → ℕ
mul_32 a b = a * b % 2 ^ 32

-- `npages` is not 0.
unfoldable pub ram_perc : (npages active : Option ℕ) → Try Text
ram_perc none active = null
ram_perc (some npages) none = null
ram_perc (some npages) (some active) =
    bprintf (lit "%d") (int (wrap_int (mul_32 active 100 / npages)) ∷ [])

module _ (F : Float) (getpagesize : ℕ) where
  -- `t_free` has 64 bits.
  unfoldable pub ram_free : (t_free : Option ℕ) → Try Text
  ram_free none = null
  ram_free (some t_free) = fmt_human F (mul_64 t_free getpagesize) 1024

  unfoldable pub ram_total : (npages : Option ℕ) → Try Text
  ram_total none = null
  ram_total (some npages) = fmt_human F (mul_32 npages getpagesize) 1024

  unfoldable pub ram_used : (active : Option ℕ) → Try Text
  ram_used none = null
  ram_used (some active) = fmt_human F (mul_32 active getpagesize) 1024
