-- ===== src/Memory/OpenBsd.antt =====
-- The part of components/ram.c for OpenBSD. `uvmexp` is what sysctl stores, `none` where it fails. An
-- int that overflows keeps its low 32 bits.
use slstatus.Prelude.{ℕ, ◌-◌, ◌*◌, ◌^◌, [], ◌∷◌, Option, none, some}
use slstatus.Prelude.Int.{ℤ, pos_part, neg_part, sub_ℕ, ◌-ℤ◌}
use slstatus.Prelude.Text.{Text, lit}
use slstatus.Stdio.Format.{int}
use slstatus.Util.{Try, bprintf, null}
use slstatus.Util.Float.{Float}
use slstatus.Util.Human.{fmt_human}
use slstatus.Swap.{quot, low_int, kib}

-- The members of `struct uvmexp` that are read; `npages` is not 0, `pageshift` at least 10.
pub record Uvmexp : Type 0 where
  pub npages : ℤ
  pub active : ℤ
  pub pageshift : ℕ

abbrev pub times : ℤ → ℕ → ℤ
times n k = low_int (sub_ℕ (pos_part n * k) (neg_part n * k))

-- `(size_t)(size << (pageshift - LOG1024))`, before it is converted to size_t.
abbrev pub pagetok : ℤ → ℕ → ℤ
pagetok size pageshift = times size (2 ^ (pageshift - 10))

unfoldable pub ram_perc : Option Uvmexp → Try Text
ram_perc none = null
ram_perc (some u) = bprintf (lit "%d") (int (quot (times u.active 100) u.npages) ∷ [])

module _ (F : Float) where
  unfoldable pub ram_free : Option Uvmexp → Try Text
  ram_free none = null
  ram_free (some u) = fmt_human F (kib (pagetok (low_int (u.npages -ℤ u.active)) u.pageshift)) 1024

  unfoldable pub ram_total : Option Uvmexp → Try Text
  ram_total none = null
  ram_total (some u) = fmt_human F (kib (pagetok u.npages u.pageshift)) 1024

  unfoldable pub ram_used : Option Uvmexp → Try Text
  ram_used none = null
  ram_used (some u) = fmt_human F (kib (pagetok u.active u.pageshift)) 1024
