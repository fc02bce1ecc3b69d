-- ===== src/Addresses/First.antt =====
-- Which entry of the list decides in components/ip.c.
use slstatus.Prelude.{
  ℕ, ◌≡◌, refl, ap, ◌∙◌, Bool, true, false, List, [], ◌∷◌, Option, none, some, if◌then◌else◌,
  Bool-cases, Option-cases, inl, inr,
}
use slstatus.Prelude.Text.{Text, lit, text_eq}
use slstatus.Addresses.{
  Address, Ifaddrs, Net, freeifaddrs, in_world, print_host, is_wanted, ip_from, up_from, ip, up,
}

abbrev first_of :
    Option (Ifaddrs × Address) → Option (Ifaddrs × Address) → Option (Ifaddrs × Address)
first_of none b = b
first_of (some x) b = some x

-- An entry with an address that passes the test, with its address.
abbrev tested : (Ifaddrs → Address → Bool) → Ifaddrs → Option Address → Option (Ifaddrs × Address)
tested test ifa none = none
tested test ifa (some a) = if test ifa a then some (ifa, a) else none

-- The first such entry.
abbrev pub first_entry : (Ifaddrs → Address → Bool) → List Ifaddrs → Option (Ifaddrs × Address)
first_entry test [] = none
first_entry test (ifa ∷ rest) = first_of (tested test ifa ifa.ifa_addr) (first_entry test rest)

module _ (test : Ifaddrs → Address → Bool) (ifa : Ifaddrs) (rest : List Ifaddrs) where
  first_entry-missing : ifa.ifa_addr ≡ none → first_entry test (ifa ∷ rest) ≡ first_entry test rest
  first_entry-missing e = ap (λ o. first_of (tested test ifa o) (first_entry test rest)) e

  first_entry-here :
      (a : Address)
      → ifa.ifa_addr ≡ some a
      → test ifa a ≡ true
      → first_entry test (ifa ∷ rest) ≡ some (ifa, a)
  first_entry-here a e t =
      ap (λ o. first_of (tested test ifa o) (first_entry test rest)) e
      ∙ ap (λ (b : Bool). first_of (if b then some (ifa, a) else none) (first_entry test rest)) t

  first_entry-other :
      (a : Address)
      → ifa.ifa_addr ≡ some a
      → test ifa a ≡ false
      → first_entry test (ifa ∷ rest) ≡ first_entry test rest
  first_entry-other a e t =
      ap (λ o. first_of (tested test ifa o) (first_entry test rest)) e
      ∙ ap (λ (b : Bool). first_of (if b then some (ifa, a) else none) (first_entry test rest)) t

abbrev pub named : Text → Ifaddrs → Address → Bool
named interface ifa a = text_eq ifa.ifa_name interface

abbrev pub ip_answer : Option (Ifaddrs × Address) → Net → Option Text × Net
ip_answer none n = (none, n)
ip_answer (some (ifa, a)) n = in_world (print_host a.info) n

abbrev pub up_answer : (Ifaddrs → Bool) → Option (Ifaddrs × Address) → Option Text
up_answer stale none = none
up_answer stale (some (ifa, a)) = some (if stale ifa then lit "up" else lit "down")

ip_from-first :
    (interface : Text) (sa_family : ℕ) (ifaddr : List Ifaddrs) (n : Net)
    → ip_from interface sa_family ifaddr n
      ≡ ip_answer
          (first_entry (is_wanted interface sa_family) ifaddr)
          (record n { allocated = false })
unfolding ip_from
ip_from-first interface sa_family [] n = refl
ip_from-first interface sa_family (ifa ∷ rest) n = elim (Option-cases ifa.ifa_addr) [
  | inl e ↦
      rw (first_entry-missing (is_wanted interface sa_family) ifa rest e, e, ip_from)
        (ip_from-first interface sa_family rest n)
  | inr (a, e) ↦ elim (Bool-cases (is_wanted interface sa_family ifa a)) [
    | inl t ↦
        rw (first_entry-here (is_wanted interface sa_family) ifa rest a e t, ip_from) simp (e, t)
    | inr t ↦
        rw (first_entry-other (is_wanted interface sa_family) ifa rest a e t, ip_from) simp (e, t)
          (ip_from-first interface sa_family rest n)
  ]
]

up_from-first :
    (stale : Ifaddrs → Bool) (interface : Text) (ifaddr : List Ifaddrs) (n : Net)
    → up_from stale interface ifaddr n
      ≡ (up_answer stale (first_entry (named interface) ifaddr), record n { allocated = false })
unfolding up_from freeifaddrs
up_from-first stale interface [] n = refl
up_from-first stale interface (ifa ∷ rest) n = elim (Option-cases ifa.ifa_addr) [
  | inl e ↦
      rw (first_entry-missing (named interface) ifa rest e, e, up_from)
        (up_from-first stale interface rest n)
  | inr (a, e) ↦ elim (Bool-cases (text_eq ifa.ifa_name interface)) [
    | inl t ↦ rw (first_entry-here (named interface) ifa rest a e t, up_from) simp (e, t)
    | inr t ↦
        rw (first_entry-other (named interface) ifa rest a e t, up_from) simp (e, t)
          (up_from-first stale interface rest n)
  ]
]

-- For a list of getifaddrs, ip prints the host of the first entry that has an address, the name and
-- the family, and up answers from the first entry that has an address and the name; without such an
-- entry they return NULL. Both have freed the list at the end, and `up` answers by what the flag
-- of its entry reads as behind the free, whatever the interface's flag was.
pub ip-up-first :
    (stale : Ifaddrs → Bool) (interface : Text) (sa_family : ℕ) (ifaddr : List Ifaddrs) (n : Net)
    → (ip (some ifaddr) interface sa_family n
        ≡ ip_answer
            (first_entry (is_wanted interface sa_family) ifaddr)
            (record n { allocated = false }))
      × (up stale (some ifaddr) interface n ≡ (
        up_answer stale (first_entry (named interface) ifaddr),
        record n { allocated = false },
      ))
unfolding ip up
ip-up-first stale interface sa_family ifaddr n =
    (ip_from-first interface sa_family ifaddr _, up_from-first stale interface ifaddr _)
