-- ===== src/Nm/Update.antt =====
-- `nm_update` of components/nm.c.
use slstatus.Prelude.{
  ◌≡◌, refl, true, false, List, [], ◌∷◌, Option, none, some, ◌==◌, Bool-cases, inl, inr,
}
use slstatus.Prelude.Text.{Text}
use slstatus.Util.{World}
use slstatus.Nm.{Net, Entry, nm_update, new_address, activated}

-- The first address of a configuration, and the old one where there is none.
abbrev head_or : Option (List Text) → Option Text → Option Text
head_or none old = old
head_or (some []) old = old
head_or (some (a ∷ rest)) old = some a

-- What an entry holds after `nm_update`.
pub record IsUpdated (net : Net) (old e : Entry) : Type 0 where
  pub state : e.state ≡ (net.device old.device).state
  pub up :
      ((net.device old.device).state == activated) ≡ true
      → (e.ipv4 ≡ head_or (net.device old.device).ip4 old.ipv4)
        × (e.ipv6 ≡ head_or (net.device old.device).ip6 old.ipv6)
  pub down :
      ((net.device old.device).state == activated) ≡ false → (e.ipv4 ≡ none) × (e.ipv6 ≡ none)
  pub iface : e.iface ≡ old.iface
  pub device : e.device ≡ old.device

new_address_lem :
    (c : Option (List Text)) (old : Option Text) → (new_address c old).0 ≡ head_or c old
unfolding new_address
new_address_lem none old = refl
new_address_lem (some []) old = refl
new_address_lem (some (a ∷ rest)) old = refl

-- `nm_update` leaves an entry in the state of its device. Where that is activated the entry has the
-- first address of each configuration, and the address that it had where there is none; in every
-- other state it has no address. Its interface and device stay.
pub nm_update_lem : (net : Net) (e : Entry) (w : World) → IsUpdated net e (nm_update net e w).0
unfolding nm_update
nm_update_lem net e w = elim (Bool-cases ((net.device e.device).state == activated)) [
  | inl on ↦ record {
    state = rw on refl;
    up = λ h. rw on (
      new_address_lem (net.device e.device).ip4 e.ipv4,
      new_address_lem (net.device e.device).ip6 e.ipv6,
    );
    down = λ h. absurd (cc);
    iface = rw on refl;
    device = rw on refl;
  }
  | inr off ↦ record {
    state = rw off refl;
    up = λ h. absurd (cc);
    down = λ h. rw off (refl, refl);
    iface = rw off refl;
    device = rw off refl;
  }
]
