-- ===== src/Wifi/Attributes.antt =====
-- `findattr` of components/wifi.c. A pointer into memory is the list of the bytes from it on; a byte
-- behind the end of the list reads as 0.
pub mod Encode
use mathlib.Core.Option.{get_or}
use slstatus.Prelude.{
  ℕ, zero, suc, ◌+◌, ◌-◌, ◌*◌, ◌/◌, ◌%◌, Bool, List, [], ◌∷◌, Option, ◌==◌, if◌then◌else◌,
  get_elem?, drop,
}
use slstatus.Prelude.Text.{Text}
use slstatus.Memory.{sub_64}

abbrev pub u_16 : ℕ → Text
u_16 n = (n % 256) ∷ (n / 256 % 256) ∷ []

abbrev pub u_32 : ℕ → Text
u_32 n = (n % 256) ∷ (n / 256 % 256) ∷ (n / 65536 % 256) ∷ (n / 16777216 % 256) ∷ []

abbrev pub byte_at : ℕ → Text → ℕ
byte_at i m = get_or (get_elem? m i) 0

abbrev pub read_16 : ℕ → Text → ℕ
read_16 i m = byte_at i m + 256 * byte_at (i + 1) m

abbrev pub read_32 : ℕ → Text → ℕ
read_32 i m = read_16 i m + 65536 * read_16 (i + 2) m

-- NLA_ALIGN
abbrev pub align : ℕ → ℕ
align n = (n + 3) / 4 * 4

-- An attribute's `*len` and the pointer to its payload, none, or a loop that stays where it is.
pub data Search : Type 0 where
  found : (len : ℕ) (payload : Text) → Search
  absent : Search
  forever : Search

-- The loop, with `n` for `e - p`, on fuel for one round for each byte.
unfoldable pub findattr_from : (fuel attr n : ℕ) → Text → Search
findattr_from zero attr n m = absent
findattr_from (suc fuel) attr n m =
    let nla_len = read_16 0 m in
    let more = findattr_from fuel attr (n - align nla_len) (drop (align nla_len) m) in
    if n == 0
    then absent
    else if read_16 2 m == attr
    then found (sub_64 nla_len 4) (drop 4 m)
    else if align nla_len == 0
    then forever
    else more

unfoldable pub findattr : (attr n : ℕ) → Text → Search
unfolding findattr_from
findattr attr n m = findattr_from n attr n m
