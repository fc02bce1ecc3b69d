-- ===== src/Volume/Sndio/Controls.antt =====
-- The addresses of the controls in components/volume.c.
use slstatus.Prelude.{
  ℕ, ◌≡◌, Bool, true, false, List, [], ◌∷◌, Option, none, some, ◌==◌, arith, if◌then◌else◌,
  Bool-cases, inl, inr, All,
}
use slstatus.Util.{World}
use slstatus.Volume.Sndio.{
  Kind, Control, Desc, delete, is_output, kind_of, add_control, ondesc, onval, Event, described,
  changed, call_back, call_all, and_then,
}

abbrev IsOther : ℕ → Control → Type 0
IsOther addr c = (c.addr == addr) ≡ false

-- No two controls of the list have the same address.
abbrev pub AreDistinct : List Control → Type 0
AreDistinct [] = Unit
AreDistinct (c ∷ controls) = All (IsOther c.addr) controls × AreDistinct controls

-- `P` holds of the value of an option, if there is one.
abbrev pub Holds : {A : Type 0} → (A → Type 0) → Option A → Type 0
Holds P none = Unit
Holds P (some a) = P a

pub Holds-if :
    {A : Type 0} (P : A → Type 0) (b : Bool) (o o' : Option A)
    → Holds P o
    → Holds P o'
    → Holds P (if b then o else o')
Holds-if P true o o' h h' = h
Holds-if P false o o' h h' = h'

delete-IsOther :
    (a addr : ℕ) (controls : List Control)
    → All (IsOther a) controls
    → All (IsOther a) (delete addr controls)
unfolding delete
delete-IsOther a addr [] h = tt
delete-IsOther a addr (c ∷ controls) h = elim (Bool-cases (addr == c.addr)) [
  | inl e ↦ rw e h.1
  | inr e ↦ rw e (h.0, delete-IsOther a addr controls h.1)
]

delete-AreDistinct :
    (addr : ℕ) (controls : List Control) → AreDistinct controls → AreDistinct (delete addr controls)
unfolding delete
delete-AreDistinct addr [] h = tt
delete-AreDistinct addr (c ∷ controls) h = elim (Bool-cases (addr == c.addr)) [
  | inl e ↦ rw e h.1
  | inr e ↦ rw e (delete-IsOther c.addr addr controls h.0, delete-AreDistinct addr controls h.1)
]

same_IsOther :
    (a b : ℕ) (controls : List Control)
    → (a == b) ≡ true
    → All (IsOther b) controls
    → All (IsOther a) controls
same_IsOther a b [] e h = tt
same_IsOther a b (c ∷ controls) e h = (ground (arith, h.0), same_IsOther a b controls e h.1)

-- Of an address that was in the list once, none is left.
delete-gone :
    (addr : ℕ) (controls : List Control)
    → AreDistinct controls
    → All (IsOther addr) (delete addr controls)
unfolding delete
delete-gone addr [] h = tt
delete-gone addr (c ∷ controls) h = elim (Bool-cases (addr == c.addr)) [
  | inl e ↦ rw e (same_IsOther addr c.addr controls e h.0)
  | inr e ↦ rw e (ground arith, delete-gone addr controls h.1)
]

add_control-AreDistinct :
    (malloc : Bool) (d : Desc) (val : ℕ) (kind : Option Kind) (controls : List Control) (w : World)
    → All (IsOther d.addr) controls
    → AreDistinct controls
    → AreDistinct (add_control malloc d val kind controls w).0
unfolding add_control
add_control-AreDistinct malloc d val none controls w o h = h
add_control-AreDistinct true d val (some kind) controls w o h = (o, h)
add_control-AreDistinct false d val (some kind) controls w o h = h

ondesc-AreDistinct :
    (malloc : Bool) (d : Option Desc) (val : ℕ) (controls : List Control) (w : World)
    → AreDistinct controls
    → AreDistinct (ondesc malloc d val controls w).0
unfolding ondesc
ondesc-AreDistinct malloc none val controls w h = h
ondesc-AreDistinct malloc (some d) val controls w h =
    add_control-AreDistinct malloc d val (if is_output d then kind_of d.type d.func else none)
      (delete d.addr controls) w (delete-gone d.addr controls h)
      (delete-AreDistinct d.addr controls h)

pub Holds-and_then :
    {A B : Type 0} (Q : A → Type 0) (P : B → Type 0) (o : Option A) (f : A → Option B)
    → ((a : A) → Q a → Holds P (f a))
    → Holds Q o
    → Holds P (and_then o f)
Holds-and_then Q P none f k h = tt
Holds-and_then Q P (some a) f k h = k a h

-- A new value leaves the addresses as they are.
onval-IsOther :
    (a addr val : ℕ) (controls : List Control)
    → All (IsOther a) controls
    → Holds (All (IsOther a)) (onval addr val controls)
unfolding onval
onval-IsOther a addr val [] h = tt
onval-IsOther a addr val (c ∷ controls) h = Holds-if (All (IsOther a)) (c.addr == addr) _ _ h (
    Holds-and_then (All (IsOther a)) (All (IsOther a)) (onval addr val controls) _
      (λ cs hs. (h.0, hs)) (onval-IsOther a addr val controls h.1))

both :
    (P Q : List Control → Type 0) (o : Option (List Control))
    → Holds P o
    → Holds Q o
    → Holds (λ cs. P cs × Q cs) o
both P Q none p q = tt
both P Q (some cs) p q = (p, q)

onval-AreDistinct :
    (addr val : ℕ) (controls : List Control)
    → AreDistinct controls
    → Holds AreDistinct (onval addr val controls)
unfolding onval
onval-AreDistinct addr val [] h = tt
onval-AreDistinct addr val (c ∷ controls) h = Holds-if AreDistinct (c.addr == addr) _ _ h (
    Holds-and_then (λ cs. All (IsOther c.addr) cs × AreDistinct cs) AreDistinct
      (onval addr val controls) _ (λ cs hs. hs)
      (both (All (IsOther c.addr)) AreDistinct (onval addr val controls)
        (onval-IsOther c.addr addr val controls h.0) (onval-AreDistinct addr val controls h.1)))

call_back-AreDistinct :
    (e : Event) (controls : List Control) (w : World)
    → AreDistinct controls
    → Holds (λ r. AreDistinct r.0) (call_back e controls w)
unfolding call_back
call_back-AreDistinct (described malloc d val) controls w h =
    ondesc-AreDistinct malloc d val controls w h
call_back-AreDistinct (changed addr val) controls w h =
    Holds-and_then AreDistinct _ (onval addr val controls) _ (λ cs hs. hs)
      (onval-AreDistinct addr val controls h)

-- Whatever callbacks libsndio makes, in any order, no two controls have the same address.
pub call_all-AreDistinct :
    (events : List Event) (controls : List Control) (w : World)
    → AreDistinct controls
    → Holds (λ r. AreDistinct r.0) (call_all events controls w)
unfolding call_all
call_all-AreDistinct [] controls w h = h
call_all-AreDistinct (e ∷ events) controls w h =
    Holds-and_then (λ r. AreDistinct r.0) _ (call_back e controls w) _
      (λ r hr. call_all-AreDistinct events r.0 r.1 hr) (call_back-AreDistinct e controls w h)
