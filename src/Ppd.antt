-- ===== src/Ppd.antt =====
-- components/ppd.c: the active power profile. The proxy of gio is what its call returns: the
-- profile, or `none` where the call fails.
use slstatus.Prelude.{
  ℕ, ◌+◌, Bool, true, false, not, ◌||◌, Option, none, some, ◌==◌, if◌then◌else◌, is_some,
}
use slstatus.Prelude.Text.{Text, lit, glyph, text_eq}
use slstatus.Util.{World, kill}
use slstatus.Bar.{sigrtmin}
pub mod Update

abbrev pub ppd_signal : ℕ
ppd_signal = 5

-- A string on the heap: its address and its bytes.
pub record HeapText : Type 0 where
  pub address : ℕ
  pub text : Text

-- The file-scope variables; `callback` tells whether `ppd_callback` is connected, and `fresh` is
-- the address of the next string that glib duplicates.
pub record Ppd : Type 0 where
  pub proxy : Bool
  pub profile : Option HeapText
  pub callback : Bool
  pub fresh : ℕ

abbrev same_pointer : HeapText → Option HeapText → Bool
same_pointer p none = false
same_pointer p (some q) = p.address == q.address

abbrev differs_from : HeapText → Option HeapText → Bool
differs_from p none = false
differs_from p (some q) = not (text_eq p.text q.text)

-- `reply` is the active profile, if the call of `Get` succeeds.
unfoldable pub ppd_update : Option Text → Ppd → World → Ppd × World
ppd_update none s w = (s, w)
ppd_update (some text) s w =
    let profile : HeapText = record { address = s.fresh; text = text } in
    let s' = record s { fresh = s.fresh + 1 } in
    if not (same_pointer profile s.profile) || differs_from profile s.profile
    then (record s' { profile = some profile }, kill (sigrtmin + ppd_signal) w)
    else (s', w)

unfoldable pub ppd_callback : Option Text → Ppd → World → Ppd × World
unfolding ppd_update
ppd_callback reply s w = ppd_update reply s w

-- `proxy`: whether the proxy could be made.
unfoldable pub ppd_init : (proxy : Bool) → Option Text → Ppd → World → Ppd × World
unfolding ppd_update
ppd_init proxy reply s w =
    let (s', w') = ppd_update reply (record s { proxy = true }) w in
    if proxy then (record s' { callback = true }, w') else (record s { proxy = false }, w)

-- The profile is not freed.
unfoldable pub ppd_free : Ppd → Ppd
ppd_free s = record s { proxy = false }

abbrev line_of : Option HeapText → Option Text
line_of none = none
line_of (some p) =
    if text_eq p.text (lit "power-saver")
    then some (glyph 0xf032a)
    else if text_eq p.text (lit "balanced")
    then some (glyph 0xf05d1)
    else some (glyph 0xf140b)

unfoldable pub ppd_line : Ppd → Option Text
ppd_line s = line_of s.profile

abbrev text_of : Option HeapText → Option Text
text_of none = none
text_of (some p) = some p.text

unfoldable pub ppd_active : Ppd → Option Text
ppd_active s = text_of s.profile
