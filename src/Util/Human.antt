-- ===== src/Util/Human.antt =====
-- `fmt_human` of util.c: a number scaled to a prefix of its base.
pub mod Range
use slstatus.Prelude.{
  ℕ, zero, suc, ◌+◌, Bool, List, [], ◌∷◌, ◌==◌, if◌then◌else◌, get_elem?, length,
}
use slstatus.Prelude.Text.{Text, lit}
use slstatus.Stdio.Format.{str, real}
use slstatus.Util.{Try, bprintf, null, warn}
use slstatus.Util.Float.{Float}
use mathlib.Core.Option.{none}

abbrev pub prefix_1000 : List Text
prefix_1000 =
    lit "" ∷ lit "k" ∷ lit "M" ∷ lit "G" ∷ lit "T" ∷ lit "P" ∷ lit "E" ∷ lit "Z" ∷ lit "Y" ∷ []

abbrev pub prefix_1024 : List Text
prefix_1024 =
    lit ""
    ∷ lit "Ki"
    ∷ lit "Mi"
    ∷ lit "Gi"
    ∷ lit "Ti"
    ∷ lit "Pi"
    ∷ lit "Ei"
    ∷ lit "Zi"
    ∷ lit "Yi"
    ∷ []

module _ (F : Float) where
  open F use {Double, of_ℕ, div, le, show}

  -- `for (i = …; i < prefixlen && scaled >= base; i++) scaled /= base`, over the rounds left.
  unfoldable pub scale : ℕ → ℕ → ℕ → Double → Double × ℕ
  scale base zero i scaled = (scaled, i)
  scale base (suc rounds) i scaled =
      let more = scale base rounds (i + 1) (div scaled (of_ℕ base)) in
      if le (of_ℕ base) scaled then more else (scaled, i)

  -- The rest of the function for one of the two tables. `prefix[i]` behind the table is `none`.
  unfoldable pub print_scaled : ℕ → List Text → ℕ → Try Text
  unfolding scale
  print_scaled base prefix num =
      let (scaled, i) = scale base (length prefix) 0 (of_ℕ num) in
      bprintf (lit "%.1f %s") (real (show scaled) ∷ str (get_elem? prefix i) ∷ [])

  unfoldable pub fmt_human : ℕ → ℕ → Try Text
  unfolding print_scaled
  fmt_human num base w =
      if base == 1000
      then print_scaled 1000 prefix_1000 num w
      else if base == 1024
      then print_scaled 1024 prefix_1024 num w
      else (none, warn (lit "fmt_human: Invalid base") [] w)
