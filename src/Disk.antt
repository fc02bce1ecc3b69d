-- ===== src/Disk.antt =====
-- components/disk.c. `statvfs` is a function from a path, `none` where it fails.
use slstatus.Prelude.{ℕ, ◌+◌, ◌-◌, ◌*◌, ◌%◌, ◌^◌, [], ◌∷◌, Option, none, some}
use slstatus.Prelude.Text.{Text, lit}
use slstatus.Stdio.Format.{str, int}
use slstatus.Util.{Try, bprintf, warn}
use slstatus.Util.Float.{Float}
use slstatus.Util.Human.{fmt_human}

-- The members of `struct statvfs` that are read, all of 64 bits.
pub record Statvfs : Type 0 where
  pub f_frsize : ℕ
  pub f_blocks : ℕ
  pub f_bfree : ℕ
  pub f_bavail : ℕ

module _ (F : Float) (statvfs : Text → Option Statvfs) where
  open F use {of_ℕ, sub, mul, div, trunc}

  -- The guard of the four functions, and the rest of one of them.
  with_statvfs : Text → Option Statvfs → (Statvfs → Try Text) → Try Text
  with_statvfs path none f w = (none, warn (lit "statvfs '%s':") (str (some path) ∷ []) w)
  with_statvfs path (some fs) f w = f fs w

  unfoldable pub disk_free : Text → Try Text
  unfolding with_statvfs
  disk_free path =
      with_statvfs path (statvfs path) λ fs. fmt_human F (fs.f_frsize * fs.f_bavail % 2 ^ 64) 1024

  unfoldable pub disk_perc : Text → Try Text
  unfolding with_statvfs
  disk_perc path = with_statvfs path (statvfs path) λ fs.
      bprintf (lit "%d") (
        int (trunc (mul (of_ℕ 100) (sub (of_ℕ 1) (div (of_ℕ fs.f_bavail) (of_ℕ fs.f_blocks)))))
        ∷ [])

  unfoldable pub disk_total : Text → Try Text
  unfolding with_statvfs
  disk_total path =
      with_statvfs path (statvfs path) λ fs. fmt_human F (fs.f_frsize * fs.f_blocks % 2 ^ 64) 1024

  unfoldable pub disk_used : Text → Try Text
  unfolding with_statvfs
  disk_used path = with_statvfs path (statvfs path) λ fs.
      fmt_human F (fs.f_frsize * ((fs.f_blocks + (2 ^ 64 - fs.f_bfree)) % 2 ^ 64) % 2 ^ 64) 1024
