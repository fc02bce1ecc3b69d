-- ===== src/Wifi/Index.antt =====
-- `ifindex` of components/wifi.c behind a failed ioctl.
use slstatus.Prelude.{◌≡◌, refl, false, none, sym, [], ap, ◌∙◌}
use slstatus.Prelude.Int.{ℤ, pos, negsuc, ltb_ℤ}
use slstatus.Prelude.Text.{Text, lit, text_eq, text_eq_refl}
use slstatus.Util.{World, warn}
use slstatus.Wifi.{Wifi, IndexAnswers, ifindex, look_up, with_socket, opened}

opened_same : (k : IndexAnswers) (s : Wifi) → ltb_ℤ s.ifsock (pos 0) ≡ false → opened k s ≡ s
opened_same k s h = rw h refl

-- The name that is kept is found again.
with_socket-same :
    (k : IndexAnswers) (s : Wifi) (w : World)
    → ltb_ℤ s.ifsock (pos 0) ≡ false
    → with_socket k s.ifr_name s w ≡ (s.ifr_ifindex, s, w)
unfolding with_socket
with_socket-same k s w h = rw (h, text_eq_refl s.ifr_name) refl

with_socket-fails :
    (k : IndexAnswers) (interface : Text) (s : Wifi) (w : World)
    → ltb_ℤ s.ifsock (pos 0) ≡ false
    → text_eq s.ifr_name interface ≡ false
    → k.ifindex ≡ none
    → with_socket k interface s w
      ≡ (negsuc 0, record s { ifr_name = interface }, warn (lit "ioctl 'SIOCGIFINDEX':") [] w)
unfolding with_socket look_up
with_socket-fails k interface s w h other fails = rw (h, other, fails, look_up) refl

-- Where the ioctl fails for an interface, the call returns -1, but the name is kept: a later call for
-- that interface returns the index of the interface that was asked for before, with no ioctl and
-- no warning, whatever the system would answer then.
pub ifindex-stale :
    (k later : IndexAnswers) (interface : Text) (s : Wifi) (w w' : World)
    → ltb_ℤ s.ifsock (pos 0) ≡ false
    → text_eq s.ifr_name interface ≡ false
    → k.ifindex ≡ none
    → ((ifindex k interface s w).0 ≡ negsuc 0)
      × (ifindex later interface (ifindex k interface s w).1 w'
          ≡ (s.ifr_ifindex, (ifindex k interface s w).1, w'))
unfolding ifindex
ifindex-stale k later interface s w w' open_ other fails =
    let kept : Wifi = record s { ifr_name = interface } in
    let first : ifindex k interface s w
        ≡ (negsuc 0, kept, warn (lit "ioctl 'SIOCGIFINDEX':") [] w) =
      ap (λ t. with_socket k interface t w) (opened_same k s open_)
      ∙ with_socket-fails k interface s w open_ other fails in
    (
      ap (λ r. r.0) first,
      ap (λ (r : ℤ × Wifi × World). ifindex later interface r.1 w') first
          ∙ ap (λ t. with_socket later interface t w') (opened_same later kept open_)
          ∙ with_socket-same later kept w' open_
          ∙ ap (λ (r : ℤ × Wifi × World). (s.ifr_ifindex, r.1, w')) (sym first),
    )
