-- ===== src/Volume/Oss.antt =====
-- components/volume.c, as it is built without ALSA on other systems: the mixer of OSS. `open` and the
-- calls of ioctl are what they return; the descriptor is closed on every path behind `open`.
use slstatus.Prelude.{
  ℕ, ◌+◌, ◌/◌, ◌%◌, ◌^◌, Bool, true, false, ◌&&◌, List, [], ◌∷◌, Option, none, some, ◌==◌,
}
use slstatus.Prelude.Int.{pos}
use slstatus.Prelude.Text.{Text, lit, text_eq}
use slstatus.Stdio.Format.{str, int}
use slstatus.Util.{World, Try, bprintf, warn}

-- The mask and the values that ioctl stores, `none` where it fails.
pub record Mixer : Type 0 where
  pub devmask : Option ℕ
  pub read : ℕ → Option ℕ

-- `devmask & (1 << i) && !strcmp("vol", vnames[i])`
abbrev pub is_volume : (devmask i : ℕ) → Text → Bool
is_volume devmask i vname = (devmask / 2 ^ i % 2 == 1) && text_eq (lit "vol") vname

-- The loop from `i` on, with `v` so far.
unfoldable pub read_volume : Mixer → (devmask i : ℕ) → List Text → (v : ℕ) → Try ℕ
read_volume x devmask i [] v w = (some v, w)
read_volume x devmask i (vname ∷ vnames) v w = elim (is_volume devmask i vname) [
  | false ↦ read_volume x devmask (i + 1) vnames v w
  | true ↦ elim (x.read i) [
    | none ↦ (none, warn (lit "ioctl 'MIXER_READ(%ld)':") (int (pos i) ∷ []) w)
    | some v' ↦ read_volume x devmask (i + 1) vnames v' w
  ]
]

-- `v & 0xff`
print_low : Option ℕ × World → Option Text × World
print_low (none, w) = (none, w)
print_low (some v, w) = bprintf (lit "%d") (int (pos (v % 256)) ∷ []) w

with_mixer : Mixer → Option ℕ → List Text → (garbage : ℕ) → Try Text
unfolding read_volume print_low
with_mixer x none vnames garbage w = (none, warn (lit "ioctl 'SOUND_MIXER_READ_DEVMASK':") [] w)
with_mixer x (some devmask) vnames garbage w = print_low (read_volume x devmask 0 vnames garbage w)

-- `vnames` is SOUND_DEVICE_NAMES, and `garbage` what the variable `v` holds at first.
unfoldable pub vol_perc : Option Mixer → List Text → (garbage : ℕ) → Text → Try Text
unfolding with_mixer
vol_perc none vnames garbage card w = (none, warn (lit "open '%s':") (str (some card) ∷ []) w)
vol_perc (some x) vnames garbage card w = with_mixer x x.devmask vnames garbage w
