-- ===== src/Ppd/Update.antt =====
-- `ppd_update` of components/ppd.c.
use slstatus.Prelude.{ℕ, ◌+◌, ◌<◌, ◌≡◌, refl, not, ◌||◌, true, Option, none, some, arith}
use slstatus.Prelude.Text.{Text}
use slstatus.Bar.{sigrtmin}
use slstatus.Util.{World, kill}
use slstatus.Ppd.{HeapText, Ppd, same_pointer, differs_from, ppd_update, ppd_active, ppd_signal}

abbrev pub IsOlder : ℕ → Option HeapText → Type 0
IsOlder n none = Unit
IsOlder n (some p) = p.address < n

-- The profile was allocated before the next allocation.
abbrev pub IsAllocated : Ppd → Type 0
IsAllocated s = IsOlder s.fresh s.profile

fresh_test :
    (p : HeapText) (o : Option HeapText)
    → IsOlder p.address o
    → (not (same_pointer p o) || differs_from p o) ≡ true
fresh_test p none h = refl
fresh_test p (some q) h = ground arith

-- Every reply that arrives is stored and raises the signal, also the reply that the profile is the
-- one already stored: the comparison of a new copy's pointer with the old one always differs.
pub ppd_update_always :
    (text : Text) (s : Ppd) (w : World)
    → IsAllocated s
    → ((ppd_update (some text) s w).1 ≡ kill (sigrtmin + ppd_signal) w)
      × (ppd_active (ppd_update (some text) s w).0 ≡ some text)
      × IsAllocated (ppd_update (some text) s w).0
unfolding ppd_update ppd_active
ppd_update_always text s w h =
    rw (fresh_test (record { address = s.fresh; text = text }) s.profile h)
      (refl, refl, omega arith)
