-- ===== src/Keymap/Layout.antt =====
-- Which token the loop of `get_layout` stops at.
use slstatus.Prelude.{
  ℕ, zero, suc, ◌+◌, ◌<◌, ◌≡◌, refl, true, List, [], ◌∷◌, Option, none, some, arith, leb,
  if◌then◌else◌, Bool-cases, inl, inr,
}
use slstatus.Prelude.Text.{Text}
use slstatus.Keymap.{is_layout, layout_from, get_layout, strtok}

-- The tokens that are layouts or variants.
abbrev pub layouts : List Text → List Text
layouts [] = []
layouts (t ∷ ts) = if is_layout t then t ∷ layouts ts else layouts ts

-- The `n`th of a list, the last one where the list is shorter, and the default where it is empty.
abbrev pub nth_or_last : Option Text → ℕ → List Text → Option Text
nth_or_last o n [] = o
nth_or_last o zero (t ∷ ts) = some t
nth_or_last o (suc n) (t ∷ ts) = nth_or_last (some t) n ts

stop :
    (o : Option Text) (grp grp_num : ℕ) (ts : List Text)
    → grp_num < grp
    → layout_from o grp grp_num ts ≡ o
unfolding layout_from
stop o grp grp_num [] h = refl
stop o grp grp_num (t ∷ ts) h = ground arith

within : (grp n m : ℕ) → m ≡ grp + n → leb grp m ≡ true
within grp n m e = ground arith

-- The round of a token that is taken, with the lemma on the tokens behind it.
taken_lem :
    (o : Option Text) (t : Text) (ts : List Text) (grp n m : ℕ)
    → m ≡ grp + n
    → ((k : ℕ)
        → m ≡ grp + 1 + k
        → layout_from (some t) (grp + 1) m ts ≡ nth_or_last (some t) k (layouts ts))
    → layout_from (some t) (grp + 1) m ts ≡ nth_or_last o n (t ∷ layouts ts)
taken_lem o t ts grp zero m e ih = stop (some t) (grp + 1) m ts (omega arith)
taken_lem o t ts grp (suc k) m e ih = ih k (omega arith)

layout_from_lem :
    (o : Option Text) (grp n m : ℕ) (ts : List Text)
    → m ≡ grp + n
    → layout_from o grp m ts ≡ nth_or_last o n (layouts ts)
unfolding layout_from
layout_from_lem o grp n m [] e = refl
layout_from_lem o grp n m (t ∷ ts) e = elim (Bool-cases (is_layout t)) [
  | inr skip ↦ rw (skip, within grp n m e) (layout_from_lem o grp n m ts e)
  | inl taken ↦
      rw (taken, within grp n m e)
        (taken_lem o t ts grp n m e (λ k. layout_from_lem (some t) (grp + 1) k m ts))
]

-- `get_layout` returns the token of the group's number among the tokens that are layouts or
-- variants, the last such token where there are fewer, and NULL where there is none.
pub get_layout_lem :
    (syms : Text) (grp_num : ℕ)
    → get_layout syms grp_num ≡ nth_or_last none grp_num (layouts (strtok syms))
unfolding get_layout
get_layout_lem syms grp_num = layout_from_lem none 0 grp_num grp_num (strtok syms) (omega arith)
