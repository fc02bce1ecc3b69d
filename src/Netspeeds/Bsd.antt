-- ===== src/Netspeeds/Bsd.antt =====
-- The part of components/netspeeds.c for OpenBSD and FreeBSD: the counters of the interfaces that
-- `getifaddrs` lists.
use slstatus.Prelude.{
  ℕ, Bool, true, false, not, List, [], ◌∷◌, Option, none, some, ◌==◌, if◌then◌else◌,
}
use slstatus.Prelude.Text.{Text, lit, text_eq}
use slstatus.Util.{World, warn}
use slstatus.Util.Float.{Float}
use slstatus.Util.Human.{fmt_human}
use slstatus.Memory.{add_64}
use slstatus.Netspeeds.{rate}

-- A `struct if_data`.
pub record IfData : Type 0 where
  pub ifi_ibytes : ℕ
  pub ifi_obytes : ℕ

-- A `struct ifaddrs`.
pub record Ifaddrs : Type 0 where
  pub ifa_name : Text
  pub ifa_data : Option IfData

-- What one entry adds to the counter, if it adds anything.
abbrev counted : (IfData → ℕ) → Text → Text → Option IfData → Option ℕ
counted f interface name none = none
counted f interface name (some d) = if text_eq name interface then some (f d) else none

abbrev add_count : Option ℕ → ℕ × Bool → ℕ × Bool
add_count none r = r
add_count (some n) (bytes, if_ok) = (add_64 bytes n, true)

-- The loop, with the counter and `if_ok`.
unfoldable pub sum_bytes : (IfData → ℕ) → Text → List Ifaddrs → ℕ × Bool → ℕ × Bool
sum_bytes f interface [] r = r
sum_bytes f interface (ifa ∷ rest) r =
    sum_bytes f interface rest (add_count (counted f interface ifa.ifa_name ifa.ifa_data) r)

module _ (F : Float) where
  -- Both functions, over the counter that they read and their static variable.
  unfoldable pub netspeed :
      (IfData → ℕ) → Option (List Ifaddrs) → Text → ℕ → World → Option Text × ℕ × World
  unfolding sum_bytes
  netspeed f none interface old w = (none, old, warn (lit "getifaddrs failed") [] w)
  netspeed f (some ifal) interface old w =
      let (bytes, if_ok) = sum_bytes f interface ifal (0, false) in
      let (res, w') = fmt_human F (rate old bytes) 1024 w in
      if not if_ok
      then (none, bytes, warn (lit "reading 'if_data' failed") [] w)
      else if old == 0
      then (none, bytes, w)
      else (res, bytes, w')

  unfoldable pub netspeed_rx : Option (List Ifaddrs) → Text → ℕ → World → Option Text × ℕ × World
  unfolding netspeed
  netspeed_rx ifal interface rxbytes w = netspeed (λ d. d.ifi_ibytes) ifal interface rxbytes w

  unfoldable pub netspeed_tx : Option (List Ifaddrs) → Text → ℕ → World → Option Text × ℕ × World
  unfolding netspeed
  netspeed_tx ifal interface txbytes w = netspeed (λ d. d.ifi_obytes) ifal interface txbytes w
