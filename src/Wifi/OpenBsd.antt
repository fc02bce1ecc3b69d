-- ===== src/Wifi/OpenBsd.antt =====
-- The part of components/wifi.c for OpenBSD. The socket and the calls of ioctl are what they return;
-- the socket is closed on every path.
use slstatus.Prelude.{ℕ, Bool, not, ◌&&◌, [], ◌∷◌, none, some, ◌==◌, if◌then◌else◌}
use slstatus.Prelude.Int.{ℤ, pos, eqb_ℤ}
use slstatus.Prelude.Text.{Text, lit}
use slstatus.Stdio.Format.{str, int}
use slstatus.Util.{Try, ◌>>=◌, bprintf, warn}
use slstatus.Wifi.Perc.{rssi_to_perc}

-- The members of `struct ieee80211_nodereq` that are read.
pub record Nodereq : Type 0 where
  pub nr_rssi : ℤ
  pub nr_max_rssi : ℕ
  pub nr_nwid : Text

-- Whether a socket is returned; whether SIOCG80211BSSID succeeds, and stores zeros; whether
-- SIOCG80211NODE succeeds, and what the structure holds behind it.
pub record Answers : Type 0 where
  pub socket : Bool
  pub bssid : Bool
  pub zero_bssid : Bool
  pub node : Bool
  pub nr : Nodereq

unfoldable pub load_ieee80211_nodereq : Answers → Try Nodereq
load_ieee80211_nodereq k w =
    if not k.socket
    then (none, warn (lit "socket 'AF_INET':") [] w)
    else if not k.bssid
    then (none, warn (lit "ioctl 'SIOCG80211BSSID':") [] w)
    else if k.zero_bssid
    then (none, w)
    else if not k.node && not (eqb_ℤ k.nr.nr_rssi (pos 0))
    then (none, warn (lit "ioctl 'SIOCG80211NODE':") [] w)
    else (some k.nr, w)

-- `nodereq_rssi` is the macro IEEE80211_NODEREQ_RSSI.
unfoldable pub wifi_perc : (nodereq_rssi : Nodereq → ℤ) → Answers → Try Text
unfolding load_ieee80211_nodereq
wifi_perc nodereq_rssi k = load_ieee80211_nodereq k >>= λ nr.
    bprintf (lit "%d")
      (int (if not (nr.nr_max_rssi == 0) then nodereq_rssi nr else rssi_to_perc nr.nr_rssi) ∷ [])

unfoldable pub wifi_essid : Answers → Try Text
unfolding load_ieee80211_nodereq
wifi_essid k = load_ieee80211_nodereq k >>= λ nr. bprintf (lit "%s") (str (some nr.nr_nwid) ∷ [])
