-- ===== src/Swap/OpenBsd.antt =====
-- The part of components/swap.c for OpenBSD. The calls of swapctl are what they return. An int that
-- overflows keeps its low 32 bits.
use slstatus.Prelude.{
  ℕ, zero, suc, ◌*◌, ◌/◌, ◌%◌, ◌^◌, Bool, not, List, [], ◌∷◌, none, some, if◌then◌else◌,
}
use slstatus.Prelude.Int.{ℤ, pos, pos_part, neg_part, sub_ℕ, ◌+ℤ◌, ◌-ℤ◌, eqb_ℤ, ltb_ℤ}
use slstatus.Prelude.Text.{Text, lit}
use slstatus.Stdio.Format.{int}
use slstatus.Util.{Try, ◌>>=◌, bprintf, null, warn}
use slstatus.Util.Float.{Float}
use slstatus.Util.Human.{fmt_human}
use slstatus.Swap.{quot, low_int}

-- The members of `struct swapent` that are read, which are not negative.
pub record Swapent : Type 0 where
  pub se_nblks : ℕ
  pub se_inuse : ℕ

-- What swapctl returns for SWAP_NSWAP and SWAP_STATS, the entries that it stores, and whether
-- `calloc` returns memory.
pub record Answers : Type 0 where
  pub nswap : ℤ
  pub calloc : Bool
  pub rnswap : ℤ
  pub entries : List Swapent

-- What `sep` points to: the first entry, or the zeros of `calloc`.
abbrev pub first : List Swapent → Swapent
first [] = record { se_nblks = 0; se_inuse = 0 }
first (sep ∷ rest) = sep

-- The loop, for the rounds left: `sep` stays where it is.
unfoldable pub add_up : (rounds : ℕ) → Swapent → (total used : ℤ) → ℤ × ℤ
add_up zero sep total used = (total, used)
add_up (suc rounds) sep total used =
    add_up rounds sep (low_int (total +ℤ pos (sep.se_nblks / 2)))
      (low_int (used +ℤ pos (sep.se_inuse / 2)))

-- `total` and `used`. A result of 1 is `NULL` for all callers.
unfoldable pub getstats : Answers → Try (ℤ × ℤ)
unfolding add_up
getstats k w =
    if ltb_ℤ k.nswap (pos 1)
    then (none, warn (lit "swaptctl 'SWAP_NSWAP':") [] w)
    else if not k.calloc
    then (none, warn (lit "calloc 'nswap':") [] w)
    else if ltb_ℤ k.rnswap (pos 0)
    then (none, warn (lit "swapctl 'SWAP_STATA':") [] w)
    else if not (eqb_ℤ k.nswap k.rnswap)
    then (none, warn (lit "getstats: SWAP_STATS != SWAP_NSWAP") [] w)
    else (some (add_up (pos_part k.rnswap) (first k.entries) (pos 0) (pos 0)), w)

abbrev pub times : ℤ → ℕ → ℤ
times n k = low_int (sub_ℕ (pos_part n * k) (neg_part n * k))

-- An int as uintmax_t.
abbrev pub widened : ℤ → ℕ
widened n = pos_part (n +ℤ pos (2 ^ 64)) % 2 ^ 64

unfoldable pub swap_perc : Answers → Try Text
unfolding getstats
swap_perc k = getstats k >>= λ r.
    let (total, used) = r in
    if eqb_ℤ total (pos 0)
    then null
    else bprintf (lit "%d") (int (quot (times used 100) total) ∷ [])

module _ (F : Float) where
  unfoldable pub swap_free : Answers → Try Text
  unfolding getstats
  swap_free k = getstats k >>= λ r. fmt_human F (widened (times (low_int (r.0 -ℤ r.1)) 1024)) 1024

  unfoldable pub swap_total : Answers → Try Text
  unfolding getstats
  swap_total k = getstats k >>= λ r. fmt_human F (widened (times r.0 1024)) 1024

  unfoldable pub swap_used : Answers → Try Text
  unfolding getstats
  swap_used k = getstats k >>= λ r. fmt_human F (widened (times r.1 1024)) 1024
