-- ===== src/Volume/Sndio/Polls.antt =====
-- The list of controls through the calls of `vol_perc` of components/volume.c on BSD systems.
use slstatus.Prelude.{Bool, true, not, ◌&&◌, List, Option, none, some, if◌then◌else◌}
use slstatus.Prelude.Int.{pos, ltb_ℤ}
use slstatus.Util.{World}
use slstatus.Volume.Sndio.{
  Control, Answers, Poll, Sndio, call_all, finish_init, init, volume_from, print_volume, look_at,
  poll_controls, vol_perc,
}
use slstatus.Volume.Sndio.Controls.{
  AreDistinct, Holds, Holds-if, Holds-and_then, call_all-AreDistinct,
}

finish_init-AreDistinct :
    (k : Answers) (s : Sndio) (r : List Control × World)
    → AreDistinct r.0
    → Holds (λ t. AreDistinct t.1.controls) (finish_init k s r)
unfolding finish_init slstatus.Volume.Sndio.cleanup
finish_init-AreDistinct k s (controls, w) h =
    Holds-if _ (not k.ondesc) _ _ tt
      (Holds-if _ (not k.onval) _ _ tt (Holds-if _ (not k.calloc) _ _ tt h))

init-AreDistinct :
    (k : Answers) (s : Sndio) (w : World)
    → AreDistinct s.controls
    → Holds (λ t. AreDistinct t.1.controls) (init k s w)
unfolding init slstatus.Volume.Sndio.cleanup
init-AreDistinct k s w h =
    Holds-if _ k.opens _ _
      (Holds-and_then (λ r. AreDistinct r.0) _ (call_all k.known s.controls w) _
        (λ r hr. finish_init-AreDistinct k (record s { hdl = true }) r hr)
        (call_all-AreDistinct k.known s.controls w h))
      tt

any : {A : Type 0} (o : Option A) → Holds (λ a. Unit) o
any none = tt
any (some a) = tt

print_volume-AreDistinct :
    (s : Sndio) (w : World)
    → AreDistinct s.controls
    → Holds
        (λ t. AreDistinct t.1.controls)
        (slstatus.Volume.Sndio.and_then (volume_from (pos 100) s.controls) (print_volume s w))
unfolding print_volume
print_volume-AreDistinct s w h =
    Holds-and_then (λ v. Unit) _ (volume_from (pos 100) s.controls) _ (λ v u. h)
      (any (volume_from (pos 100) s.controls))

look_at-AreDistinct :
    (p : Poll) (s : Sndio) (r : List Control × World)
    → AreDistinct r.0
    → Holds (λ t. AreDistinct t.1.controls) (look_at p s r)
unfolding look_at slstatus.Volume.Sndio.cleanup
look_at-AreDistinct p s (controls, w) h =
    Holds-if _ p.hup _ _ tt (print_volume-AreDistinct (record s { controls = controls }) w h)

poll_controls-AreDistinct :
    (p : Poll) (r : Bool × Sndio × World)
    → AreDistinct r.1.controls
    → Holds (λ t. AreDistinct t.1.controls) (poll_controls p r)
unfolding poll_controls
poll_controls-AreDistinct p (ok, s, w) h = Holds-if _ (not s.hdl) _ _ h (
    Holds-if _ (ltb_ℤ (pos 0) p.pollfd && ltb_ℤ (pos 0) p.poll) _ _
      (Holds-and_then (λ r. AreDistinct r.0) _ (call_all p.events s.controls w) _
        (λ r hr. look_at-AreDistinct p (record s { initialized = ok }) r hr)
        (call_all-AreDistinct p.events s.controls w h))
      (print_volume-AreDistinct (record s { initialized = ok }) w h))

-- A call of vol_perc that does not crash leaves a list in which no two controls have the same
-- address, if it found such a list: whether it initializes, fails to, polls or is disconnected,
-- and whatever callbacks libsndio makes meanwhile, in any order.
pub vol_perc-AreDistinct :
    (k : Answers) (p : Poll) (s : Sndio) (w : World)
    → AreDistinct s.controls
    → Holds (λ t. AreDistinct t.1.controls) (vol_perc k p s w)
unfolding vol_perc
vol_perc-AreDistinct k p s w h =
    Holds-and_then (λ r. AreDistinct r.1.controls) _
      (if s.initialized then some (true, s, w) else init k s w) _
      (λ r hr. poll_controls-AreDistinct p r hr)
      (Holds-if _ s.initialized _ _ h (init-AreDistinct k s w h))
