-- ===== src/Swap/FreeBsd.antt =====
-- The part of components/swap.c for FreeBSD. libkvm is what its calls return. A long does not overflow
-- here; `ksw_total` is not 0 where it is divided by.
use slstatus.Prelude.{ℕ, ◌*◌, ◌%◌, ◌^◌, Bool, true, false, [], ◌∷◌, Option, none, some}
use slstatus.Prelude.Int.{ℤ, pos, pos_part, sub_ℕ, ◌+ℤ◌}
use slstatus.Prelude.Text.{Text, lit}
use slstatus.Stdio.Format.{int}
use slstatus.Util.{Try, ◌>>=◌, bprintf, warn}
use slstatus.Util.Float.{Float}
use slstatus.Util.Human.{fmt_human}
use slstatus.Swap.{quot, low_int}

-- The members of `struct kvm_swap` that are read.
pub record KvmSwap : Type 0 where
  pub ksw_total : ℕ
  pub ksw_used : ℕ

-- `opens`: whether `kvm_openfiles` returns a descriptor; `info`: what `kvm_getswapinfo` stores.
unfoldable pub getswapinfo : (opens : Bool) → (info : Option KvmSwap) → Try KvmSwap
getswapinfo false info w = (none, warn (lit "kvm_openfiles '/dev/null':") [] w)
getswapinfo true none w = (none, warn (lit "kvm_getswapinfo:") [] w)
getswapinfo true (some info) w = (some info, w)

abbrev pub to_uintmax : ℤ → ℕ
to_uintmax n = pos_part (n +ℤ pos (2 ^ 64)) % 2 ^ 64

unfoldable pub swap_perc : Bool → Option KvmSwap → Try Text
unfolding getswapinfo
swap_perc opens info = getswapinfo opens info >>= λ s.
    bprintf (lit "%d") (int (low_int (quot (pos (s.ksw_used * 100)) (pos s.ksw_total))) ∷ [])

module _ (F : Float) (getpagesize : ℕ) where
  unfoldable pub swap_free : Bool → Option KvmSwap → Try Text
  unfolding getswapinfo
  swap_free opens info = getswapinfo opens info >>= λ s.
      fmt_human F (to_uintmax (sub_ℕ (s.ksw_total * getpagesize) (s.ksw_used * getpagesize))) 1024

  unfoldable pub swap_total : Bool → Option KvmSwap → Try Text
  unfolding getswapinfo
  swap_total opens info = getswapinfo opens info >>= λ s.
      fmt_human F (to_uintmax (pos (s.ksw_total * getpagesize))) 1024

  unfoldable pub swap_used : Bool → Option KvmSwap → Try Text
  unfolding getswapinfo
  swap_used opens info =
      getswapinfo opens info >>= λ s. fmt_human F (to_uintmax (pos (s.ksw_used * getpagesize))) 1024
