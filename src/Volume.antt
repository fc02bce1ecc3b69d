-- ===== src/Volume.antt =====
-- components/volume.c, as it is built with ALSA. libasound is what its calls return; the calls that
-- are made are written down in their order.

pub mod Closes
pub mod Oss
pub mod Sndio
use slstatus.Prelude.{ℕ, Bool, not, List, [], ◌∷◌, ◌++◌, Option, none, some, if◌then◌else◌}
use slstatus.Prelude.Int.{ℤ, pos, negsuc, ◌-ℤ◌, eqb_ℤ}
use slstatus.Prelude.Text.{Text, lit}
use slstatus.Stdio.Format.{Val, str, int, real}
use slstatus.Util.{World, bprintf, warn}
use slstatus.Util.Float.{Float}

pub data Call : Type 0 where
  mixer_open : Call
  attach : Call
  selem_register : Call
  load : Call
  find_selem : Call
  get_range : Call
  get_volume : Call
  free : Call
  detach : Call
  close : Call

-- What the calls return, each 0 or an error, and what they store: the range, and the volume also
-- where its call fails.
pub record Alsa : Type 0 where
  pub opened : ℤ
  pub attached : ℤ
  pub registered : ℤ
  pub loaded : ℤ
  pub found : Bool
  pub ranged : ℤ
  pub min : ℤ
  pub max : ℤ
  pub got : ℤ
  pub volume : ℤ

abbrev pub devname : Text
devname = lit "default"

-- The variables at `cleanup`, with the calls made and the world.
pub record Mixer : Type 0 where
  pub min : ℤ
  pub max : ℤ
  pub volume : ℤ
  pub calls : List Call
  pub world : World

abbrev pub made : Call → Mixer → Mixer
made c m = record m { calls = m.calls ++ c ∷ [] }

abbrev pub warned : Text → List Val → Mixer → Mixer
warned fmt ap m = record m { world = warn fmt ap m.world }

abbrev pub failed : ℤ → Bool
failed err = not (eqb_ℤ err (pos 0))

-- `if (!elem) …` and what follows it up to `cleanup`.
read_elem : Text → Alsa → Mixer → Mixer
read_elem mixname x m =
    let ranged = record (made get_range m) { min = x.min; max = x.max } in
    let read = record (made get_volume ranged) { volume = x.volume } in
    if not x.found
    then warned (lit "snd_mixer_find_selem(mixer, \"%s\") == NULL") (str (some mixname) ∷ []) m
    else if failed x.ranged
    then warned (lit "snd_mixer_selem_get_playback_volume_range(): %d") (int x.ranged ∷ [])
        (made get_range m)
    else if failed x.got
    then warned (lit "snd_mixer_selem_get_playback_volume(): %d") (int x.got ∷ []) read
    else read

-- From `snd_mixer_attach` up to `cleanup`.
read_mixer : Text → Alsa → Mixer → Mixer
unfolding read_elem
read_mixer mixname x m =
    let attached = made attach m in
    let registered = made selem_register attached in
    let loaded = made load registered in
    if failed x.attached
    then warned (lit "snd_mixer_attach(mixer, \"%s\"): %d")
        (str (some devname) ∷ int x.attached ∷ []) attached
    else if failed x.registered
    then warned (lit "snd_mixer_selem_register(mixer, NULL, NULL): %d") (int x.registered ∷ [])
        registered
    else if failed x.loaded
    then warned (lit "snd_mixer_load(mixer): %d") (int x.loaded ∷ []) loaded
    else read_elem mixname x (made find_selem loaded)

unfoldable pub cleanup : Mixer → Mixer
cleanup m = made close (made detach (made free m))

module _ (F : Float) where
  open F use {of_ℕ, of_ℤ, mul, div, show}

  -- `(volume-min)*100./(max-min)`
  unfoldable pub percent : (min max volume : ℤ) → ℕ → Text
  percent min max volume = show (div (mul (of_ℤ (volume -ℤ min)) (of_ℕ 100)) (of_ℤ (max -ℤ min)))

  -- Behind `cleanup`.
  unfoldable pub print_volume : Mixer → Option Text × List Call × World
  unfolding percent
  print_volume m =
      let (res, w) = bprintf (lit "%.0f") (real (percent m.min m.max m.volume) ∷ []) m.world in
      if eqb_ℤ m.volume (negsuc 0) then (none, m.calls, m.world) else (res, m.calls, w)

  unfoldable pub vol_perc : Alsa → Text → World → Option Text × List Call × World
  unfolding read_mixer cleanup print_volume
  vol_perc x mixname w =
      let m : Mixer = record {
        min = pos 0;
        max = pos 0;
        volume = negsuc 0;
        calls = mixer_open ∷ [];
        world = w;
      } in
      if failed x.opened
      then (none, mixer_open ∷ [], warn (lit "snd_mixer_open: %d") (int x.opened ∷ []) w)
      else print_volume (cleanup (read_mixer mixname x m))
