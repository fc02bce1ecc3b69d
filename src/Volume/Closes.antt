-- ===== src/Volume/Closes.antt =====
-- The calls of `vol_perc` to libasound on its paths to `cleanup`.
use mathlib.Core.List.{append-nil, append_assoc}
use slstatus.Prelude.{
  ◌≡◌, refl, sym, ap, ◌∙◌, Bool, true, false, not, ◌&&◌, List, [], ◌∷◌, ◌++◌, Option, none,
  Bool-cases, inl, inr, All, if◌then◌else◌,
}
use slstatus.Prelude.Int.{pos, negsuc, eqb_ℤ}
use slstatus.Prelude.Text.{Text}
use slstatus.Util.{World}
use slstatus.Util.Float.{Float}
use slstatus.Volume.{
  Call, mixer_open, attach, selem_register, load, find_selem, get_range, get_volume, free, detach,
  close, Alsa, Mixer, made, failed, read_elem, read_mixer, cleanup, print_volume, vol_perc,
}

-- A call that neither opens nor releases the mixer.
abbrev pub is_use : Call → Bool
is_use mixer_open = false
is_use attach = true
is_use selem_register = true
is_use load = true
is_use find_selem = true
is_use get_range = true
is_use get_volume = true
is_use free = false
is_use detach = false
is_use close = false

abbrev pub IsUse : Call → Type 0
IsUse c = is_use c ≡ true

-- Every call before that for the volume succeeds.
abbrev pub reads_range : Alsa → Bool
reads_range x =
    not (failed x.attached)
    && not (failed x.registered)
    && not (failed x.loaded)
    && x.found
    && not (failed x.ranged)

-- What the calls between the opening and `cleanup` do to the variables.
record Uses (x : Alsa) (m r : Mixer) : Type 0 where
  calls : List Call
  made : r.calls ≡ m.calls ++ calls
  uses : All IsUse calls
  unread : reads_range x ≡ false → r.volume ≡ m.volume

all_true :
    (a r l f g : Bool)
    → a ≡ false
    → r ≡ false
    → l ≡ false
    → not f ≡ false
    → g ≡ false
    → not a && not r && not l && f && not g ≡ true
all_true a r l false g ha hr hl hf hg = cc
all_true a r l true g ha hr hl hf hg = rw (ha, hr, hl, hg) refl

module _ (x : Alsa) where
  Uses-if :
      (m r s : Mixer) (b : Bool)
      → (b ≡ true → Uses x m r)
      → (b ≡ false → Uses x m s)
      → Uses x m (if b then r else s)
  Uses-if m r s true t f = t refl
  Uses-if m r s false t f = f refl

  -- No call, and the same volume.
  Uses-none : (m r : Mixer) → r.calls ≡ m.calls → r.volume ≡ m.volume → Uses x m r
  Uses-none m r c v = record {
    calls = [];
    made = c ∙ sym (append-nil m.calls);
    uses = tt;
    unread = λ h. v;
  }

  -- No call, where the volume may be read.
  Uses-read : (m r : Mixer) → r.calls ≡ m.calls → reads_range x ≡ true → Uses x m r
  Uses-read m r c ok = record {
    calls = [];
    made = c ∙ sym (append-nil m.calls);
    uses = tt;
    unread = λ h. absurd (cc);
  }

  -- A call in front of others.
  Uses-made : (c : Call) (m r : Mixer) → IsUse c → Uses x (made c m) r → Uses x m r
  Uses-made c m r h u = record {
    calls = c ∷ u.calls;
    made = u.made ∙ append_assoc m.calls (c ∷ []) u.calls;
    uses = (h, u.uses);
    unread = u.unread;
  }

  read_elem-Uses :
      (mixname : Text) (m : Mixer)
      → failed x.attached ≡ false
      → failed x.registered ≡ false
      → failed x.loaded ≡ false
      → Uses x m (read_elem mixname x m)
  unfolding read_elem
  read_elem-Uses mixname m ha hr hl =
      Uses-if m _ _ (not x.found) (λ h. Uses-none m _ refl refl)
        (λ hf.
          Uses-if m _ _ (failed x.ranged)
            (λ h. Uses-made get_range m _ refl (Uses-none _ _ refl refl))
            (λ hg. Uses-made get_range m _ refl (
              Uses-made get_volume _ _ refl (
                Uses-if _ _ _ (failed x.got)
                  (λ h. Uses-read _ _ refl (all_true _ _ _ _ _ ha hr hl hf hg))
                  (λ h. Uses-read _ _ refl (all_true _ _ _ _ _ ha hr hl hf hg))))))

  read_mixer-Uses : (mixname : Text) (m : Mixer) → Uses x m (read_mixer mixname x m)
  unfolding read_mixer
  read_mixer-Uses mixname m =
      Uses-if m _ _ (failed x.attached) (λ h. Uses-made attach m _ refl (Uses-none _ _ refl refl))
        (λ ha.
          Uses-if m _ _ (failed x.registered)
            (λ h.
              Uses-made attach m _ refl
                (Uses-made selem_register _ _ refl (Uses-none _ _ refl refl)))
            (λ hr.
              Uses-if m _ _ (failed x.loaded)
                (λ h. Uses-made attach m _ refl (
                  Uses-made selem_register _ _ refl
                    (Uses-made load _ _ refl (Uses-none _ _ refl refl))))
                (λ hl. Uses-made attach m _ refl (
                  Uses-made selem_register _ _ refl (
                    Uses-made load _ _ refl
                      (Uses-made find_selem _ _ refl (read_elem-Uses mixname _ ha hr hl)))))))

module _ (F : Float) where
  calls-print_volume : (m : Mixer) → (print_volume F m).1 ≡ m.calls
  unfolding print_volume
  calls-print_volume m = elim (Bool-cases (eqb_ℤ m.volume (negsuc 0))) [
    | inl h ↦ rw h refl
    | inr h ↦ rw h refl
  ]

  print_volume-unread : (m : Mixer) → m.volume ≡ negsuc 0 → (print_volume F m).0 ≡ none
  unfolding print_volume
  print_volume-unread m h = rw h refl

  abbrev opened : World → Mixer
  opened w = record {
    min = pos 0;
    max = pos 0;
    volume = negsuc 0;
    calls = mixer_open ∷ [];
    world = w;
  }

  vol_perc-opened :
      (x : Alsa) (mixname : Text) (w : World)
      → failed x.opened ≡ false
      → vol_perc F x mixname w ≡ print_volume F (cleanup (read_mixer mixname x (opened w)))
  unfolding vol_perc
  vol_perc-opened x mixname w h = rw (h, vol_perc) refl

  -- The calls with those of `cleanup` behind them.
  abbrev after_use : List Call → List Call
  after_use calls = ((calls ++ free ∷ []) ++ detach ∷ []) ++ close ∷ []

  release_at_end : (before : List Call) → after_use before ≡ before ++ (free ∷ detach ∷ close ∷ [])
  release_at_end before = append_assoc (before ++ free ∷ []) _ _ ∙ append_assoc before _ _

  if_read : (b : Bool) (o : Option Text) → (b ≡ false → o ≡ none) → o ≡ (if b then o else none)
  if_read true o h = refl
  if_read false o h = h refl

  -- Once the mixer is opened, vol_perc ends with the calls that free, detach and close it, on every
  -- path and only there, opens no other mixer, and returns NULL where a call before the one for the
  -- volume fails.
  pub vol_perc-closes :
      (x : Alsa) (mixname : Text) (w : World)
      → failed x.opened ≡ false
      → (before : List Call) × ((vol_perc F x mixname w).1
          ≡ mixer_open ∷ (before ++ (free ∷ detach ∷ close ∷ [])))
        × All IsUse before
        × ((vol_perc F x mixname w).0
            ≡ (if reads_range x then (vol_perc F x mixname w).0 else none))
  unfolding vol_perc cleanup
  vol_perc-closes x mixname w h =
      let u = read_mixer-Uses x mixname (opened w) in
      let e = vol_perc-opened x mixname w h in
      (
        u.calls,
        ap (λ r. r.1) e
            ∙ calls-print_volume (cleanup (read_mixer mixname x (opened w)))
            ∙ ap after_use u.made
            ∙ release_at_end (mixer_open ∷ u.calls),
        u.uses,
        if_read (reads_range x) _ (λ no_range.
            ap (λ r. r.0) e
            ∙ print_volume-unread (cleanup (read_mixer mixname x (opened w))) (u.unread no_range)),
      )
