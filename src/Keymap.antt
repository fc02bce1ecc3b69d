-- ===== src/Keymap.antt =====
-- components/keymap.c: the layout of a group in the symbols that the X server names. Xlib is given
-- by what its calls return.
pub mod Layout
use slstatus.Prelude.{
  ℕ, ◌+◌, ◌≡◌, Bool, true, false, ◌&&◌, ◌||◌, not, List, [], ◌∷◌, ◌++◌, Option, none, some, leb,
  ◌==◌, if◌then◌else◌, length,
}
use slstatus.Prelude.Text.{Text, lit}
use slstatus.Stdio.Decimal.{is_digit}
use slstatus.Stdio.Format.{str}
use slstatus.Util.{World, Try, bprintf, warn}

-- `!strncmp(sym, invalid, strlen(invalid))`
unfoldable pub starts_with : (prefix sym : Text) → Bool
starts_with [] sym = true
starts_with (p ∷ ps) [] = false
starts_with (p ∷ ps) (c ∷ s) = (c == p) && starts_with ps s

unfoldable pub valid_layout_or_variant : Text → Bool
unfolding starts_with
valid_layout_or_variant sym = not (
    starts_with (lit "evdev") sym
    || starts_with (lit "inet") sym
    || starts_with (lit "pc") sym
    || starts_with (lit "base") sym)

-- `strlen(tok) == 1 && isdigit(tok[0])`
is_group : Text → Bool
is_group [] = false
is_group (c ∷ []) = is_digit c
is_group (c ∷ d ∷ s) = false

abbrev is_delimiter : ℕ → Bool
is_delimiter c = (c == b'+') || (c == b':') || (c == b'_')

-- A token in front of the others, unless it is empty.
push_token : Text → List Text → List Text
push_token [] rest = rest
push_token (c ∷ s) rest = (c ∷ s) ∷ rest

split_from : Text → Text → List Text
unfolding push_token
split_from tok [] = push_token tok []
split_from tok (c ∷ s) =
    let rest = split_from [] s in
    let more = split_from (tok ++ c ∷ []) s in if is_delimiter c then push_token tok rest else more

-- The tokens that the calls of `strtok` with "+:_" return one by one.
unfoldable pub strtok : Text → List Text
unfolding split_from
strtok syms = split_from [] syms

-- A token that the loop does not skip.
unfoldable pub is_layout : Text → Bool
unfolding valid_layout_or_variant is_group
is_layout tok = valid_layout_or_variant tok && not (is_group tok)

-- The loop of `get_layout`, with the layout so far, over the tokens left.
unfoldable pub layout_from : Option Text → (grp grp_num : ℕ) → List Text → Option Text
unfolding is_layout
layout_from layout grp grp_num [] = layout
layout_from layout grp grp_num (tok ∷ toks) =
    let skip = layout_from layout grp grp_num toks in
    let use_it = layout_from (some tok) (grp + 1) grp_num toks in
    if leb grp grp_num then (if is_layout tok then use_it else skip) else layout

unfoldable pub get_layout : Text → ℕ → Option Text
unfolding strtok layout_from
get_layout syms grp_num = layout_from none 0 grp_num (strtok syms)

-- The results of the Xlib calls in `keymap`: whether the display opens, and whether the later calls
-- succeed, with the symbols and the group of the keyboard's state.
pub record Xlib : Type 0 where
  pub opens : Bool
  pub allocates : Bool
  pub gets_names : Bool
  pub group : Option ℕ
  pub symbols : Option Text
  pub closes : Bool

-- The part between the display's opening and `end`.
with_symbols : Xlib → Option Text → Option ℕ → Try Text
unfolding get_layout
with_symbols x symbols none w =
    (none, warn (lit "XkbGetState: Failed to retrieve keyboard state") [] w)
with_symbols x none (some group) w = (none, warn (lit "XGetAtomName: Failed to get atom name") [] w)
with_symbols x (some symbols) (some group) w =
    bprintf (lit "%s") (str (get_layout symbols group) ∷ []) w

with_display : Xlib → Try Text
unfolding with_symbols
with_display x w =
    if not x.allocates
    then (none, warn (lit "XkbAllocKeyboard: Failed to allocate keyboard") [] w)
    else if not x.gets_names
    then (none, warn (lit "XkbGetNames: Failed to retrieve key symbols") [] w)
    else with_symbols x x.symbols x.group w

unfoldable pub keymap : Xlib → Try Text
unfolding with_display
keymap x w =
    if not x.opens
    then (none, warn (lit "XOpenDisplay: Failed to open display") [] w)
    else let (layout, w') = with_display x w in
      (layout, if x.closes then w' else warn (lit "XCloseDisplay: Failed to close display") [] w')
