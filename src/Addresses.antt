-- ===== src/Addresses.antt =====
-- components/ip.c. What `getifaddrs` lists is a parameter, with what `getnameinfo` says of each
-- address.
use slstatus.Prelude.{
  ℕ, Bool, true, false, ◌&&◌, List, [], ◌∷◌, Option, none, some, ◌==◌, if◌then◌else◌,
}
use slstatus.Prelude.Text.{Text, lit, text_eq}
use slstatus.Stdio.Format.{str}
use slstatus.Util.{World, Try, bprintf, warn}
pub mod First

-- AF_INET and AF_INET6 of Linux.
abbrev pub af_inet : ℕ
af_inet = 2

abbrev pub af_inet6 : ℕ
af_inet6 = 10

-- What `getnameinfo` leaves in `host`, or the text that `gai_strerror` has for its error.
pub data NameInfo : Type 0 where
  host : Text → NameInfo
  error : Text → NameInfo

-- A `struct sockaddr`.
pub record Address : Type 0 where
  pub sa_family : ℕ
  pub info : NameInfo

-- A `struct ifaddrs`; `up` is the flag IFF_UP.
pub record Ifaddrs : Type 0 where
  pub ifa_name : Text
  pub ifa_addr : Option Address
  pub up : Bool

-- The world, and whether the list that `getifaddrs` made is allocated.
pub record Net : Type 0 where
  pub allocated : Bool
  pub world : World

unfoldable pub freeifaddrs : Net → Net
freeifaddrs n = record n { allocated = false }

abbrev pub in_world : Try Text → Net → Option Text × Net
in_world f n = let (res, w) = f n.world in (res, record n { world = w })

unfoldable pub print_host : NameInfo → Try Text
print_host (host s) w = bprintf (lit "%s") (str (some s) ∷ []) w
print_host (error s) w = (none, warn (lit "getnameinfo: %s") (str (some s) ∷ []) w)

-- `!strcmp(ifa->ifa_name, interface) && (ifa->ifa_addr->sa_family == sa_family)`
abbrev pub is_wanted : Text → ℕ → Ifaddrs → Address → Bool
is_wanted interface sa_family ifa a = text_eq ifa.ifa_name interface && (a.sa_family == sa_family)

unfoldable pub ip_from : Text → ℕ → List Ifaddrs → Net → Option Text × Net
unfolding freeifaddrs print_host
ip_from interface sa_family [] n = (none, freeifaddrs n)
ip_from interface sa_family (ifa ∷ rest) n = elim ifa.ifa_addr [
  | none ↦ ip_from interface sa_family rest n
  | some a ↦ elim (is_wanted interface sa_family ifa a) [
    | false ↦ ip_from interface sa_family rest n
    | true ↦ in_world (print_host a.info) (freeifaddrs n)
  ]
]

-- `ifaddr` is the list of `getifaddrs`, `none` where that fails.
unfoldable pub ip : (ifaddr : Option (List Ifaddrs)) → Text → ℕ → Net → Option Text × Net
unfolding ip_from
ip none interface sa_family n = (none, record n { world = warn (lit "getifaddrs:") [] n.world })
ip (some ifaddr) interface sa_family n =
    ip_from interface sa_family ifaddr (record n { allocated = true })

unfoldable pub ipv4 : Option (List Ifaddrs) → Text → Net → Option Text × Net
unfolding ip
ipv4 ifaddr interface n = ip ifaddr interface af_inet n

unfoldable pub ipv6 : Option (List Ifaddrs) → Text → Net → Option Text × Net
unfolding ip
ipv6 ifaddr interface n = ip ifaddr interface af_inet6 n

-- `stale` is what the flag of an entry reads as once the list is freed.
module _ (stale : Ifaddrs → Bool) where
  abbrev pub read_up : Net → Ifaddrs → Bool
  read_up n ifa = if n.allocated then ifa.up else stale ifa

  -- `ifa->ifa_flags & IFF_UP ? "up" : "down"`
  abbrev pub state_of : Net → Ifaddrs → Text
  state_of n ifa = if read_up n ifa then lit "up" else lit "down"

  unfoldable pub up_from : Text → List Ifaddrs → Net → Option Text × Net
  unfolding freeifaddrs
  up_from interface [] n = (none, freeifaddrs n)
  up_from interface (ifa ∷ rest) n = elim ifa.ifa_addr [
    | none ↦ up_from interface rest n
    | some a ↦ elim (text_eq ifa.ifa_name interface) [
      | false ↦ up_from interface rest n
      | true ↦ let n' = freeifaddrs n in (some (state_of n' ifa), n')
    ]
  ]

  unfoldable pub up : Option (List Ifaddrs) → Text → Net → Option Text × Net
  unfolding up_from
  up none interface n = (none, record n { world = warn (lit "getifaddrs:") [] n.world })
  up (some ifaddr) interface n = up_from interface ifaddr (record n { allocated = true })
