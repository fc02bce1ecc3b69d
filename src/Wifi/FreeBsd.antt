-- ===== src/Wifi/FreeBsd.antt =====
-- The part of components/wifi.c for FreeBSD. The socket and the calls of ioctl are what they return;
-- the socket is closed on every path.
use slstatus.Prelude.{
  ℕ, ◌+◌, Bool, true, false, [], ◌∷◌, Option, none, some, ltb, if◌then◌else◌, take,
}
use slstatus.Prelude.Int.{ℤ, pos, ◌+ℤ◌}
use slstatus.Prelude.Text.{Text, lit}
use slstatus.Stdio.Format.{str, int, vsnprintf}
use slstatus.Util.{Try, ◌>>=◌, bprintf, warn}
use slstatus.Lines.{c_string}
use slstatus.Swap.{quot}
use slstatus.Wifi.Perc.{rssi_to_perc}

-- `answer` is what ioctl stores. The message is the format of `warn` itself.
unfoldable pub load_ieee80211req : {A : Type 0} → (type : ℕ) → (answer : Option A) → Try A
load_ieee80211req type none w =
    (none, warn (vsnprintf 256 (lit "ioctl: 'SIOCG80211': %d") (int (pos type) ∷ [])).0 [] w)
load_ieee80211req type (some a) w = (some a, w)

-- IEEE80211_IOC_SSID, IEEE80211_IOC_BSSID and IEEE80211_IOC_STA_INFO of net80211.
pub record Constants : Type 0 where
  pub ioc_ssid : ℕ
  pub ioc_bssid : ℕ
  pub ioc_sta_info : ℕ

-- The members of the station's first entry that are read.
pub record Station : Type 0 where
  pub isi_noise : ℤ
  pub isi_rssi : ℤ

with_socket : {A : Type 0} → (socket : Bool) → Try A → Try A
with_socket false f w = (none, warn (lit "socket 'AF_INET':") [] w)
with_socket true f w = f w

unfoldable pub wifi_perc :
    Constants → (socket : Bool) → (bssid : Option Text) → (info : Option Station) → Try Text
unfolding with_socket load_ieee80211req
wifi_perc c socket bssid info = with_socket socket (
    load_ieee80211req c.ioc_bssid bssid >>= λ mac. load_ieee80211req c.ioc_sta_info info >>= λ sta.
    bprintf (lit "%d") (int (rssi_to_perc (sta.isi_noise +ℤ quot sta.isi_rssi (pos 2))) ∷ []))

-- IEEE80211_NWID_LEN
abbrev pub nwid_len : ℕ
nwid_len = 32

-- The string in `ssid` with a NUL behind `len` bytes, or in the last byte.
abbrev pub terminated : (len : ℕ) → Text → Text
terminated len ssid = c_string (take (if ltb len (nwid_len + 1) then len else nwid_len) ssid)

-- `ssid`: the bytes that ioctl stores, and the length that it gives.
unfoldable pub wifi_essid : Constants → (socket : Bool) → (ssid : Option (Text × ℕ)) → Try Text
unfolding with_socket load_ieee80211req
wifi_essid c socket ssid = with_socket socket (
    load_ieee80211req c.ioc_ssid ssid >>= λ r.
    bprintf (lit "%s") (str (some (terminated r.1 r.0)) ∷ []))
