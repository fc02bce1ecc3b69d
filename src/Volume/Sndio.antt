-- ===== src/Volume/Sndio.antt =====
-- components/volume.c, as it is built on BSD systems: the controls that sndio describes. libsndio is
-- what its calls return and the callbacks that it makes meanwhile.

pub mod Controls
pub mod Polls
pub mod Range
use slstatus.Prelude.{
  ℕ, ◌+◌, ◌*◌, ◌/◌, ◌%◌, ◌^◌, Bool, true, false, not, ◌&&◌, List, [], ◌∷◌, ◌++◌, Option, none, some,
  ◌==◌, if◌then◌else◌,
}
use slstatus.Prelude.Int.{ℤ, pos, ltb_ℤ}
use slstatus.Prelude.Text.{Text, lit, text_eq}
use slstatus.Stdio.Format.{int}
use slstatus.Stdio.Scan.{wrap_int}
use slstatus.Util.{World, bprintf, warn}

-- `none` is a crash.
abbrev pub and_then : {A B : Type 0} → Option A → (A → Option B) → Option B
and_then none f = none
and_then (some a) f = f a

-- CTRL_LEVEL and CTRL_MUTE; no control of the list has CTRL_NONE.
pub data Kind : Type 0 where
  level : Kind
  mute : Kind

-- `struct control`, with numbers of 32 bits.
pub record Control : Type 0 where
  pub addr : ℕ
  pub type : Kind
  pub maxval : ℕ
  pub val : ℕ

-- The types SIOCTL_NUM and SIOCTL_SW, or another one.
pub data DescType : Type 0 where
  num : DescType
  sw : DescType
  other : DescType

-- `struct sioctl_desc`
pub record Desc : Type 0 where
  pub addr : ℕ
  pub type : DescType
  pub func : Text
  pub group : Text
  pub node : Text
  pub maxval : ℕ

-- The list without the first control of an address.
unfoldable pub delete : ℕ → List Control → List Control
delete addr [] = []
delete addr (c ∷ controls) =
    let more = delete addr controls in if addr == c.addr then controls else c ∷ more

-- The type of the control for a description, if it has one.
unfoldable pub kind_of : DescType → Text → Option Kind
kind_of num func = if text_eq func (lit "level") then some level else none
kind_of sw func = if text_eq func (lit "mute") then some mute else none
kind_of other func = none

-- `desc->group[0] != 0 || strcmp(desc->node0.name, "output") != 0`
abbrev is_output : Desc → Bool
is_output d = text_eq d.group [] && text_eq d.node (lit "output")

-- Behind the deletion: `malloc` tells whether it returns memory.
add_control : (malloc : Bool) → Desc → ℕ → Option Kind → List Control → World → List Control × World
add_control malloc d val none controls w = (controls, w)
add_control malloc d val (some kind) controls w =
    if malloc
    then (record { addr = d.addr; type = kind; maxval = d.maxval; val = val } ∷ controls, w)
    else (controls, warn (lit "sndio: failed to allocate audio control\n") [] w)

unfoldable pub ondesc :
    (malloc : Bool) → Option Desc → (val : ℕ) → List Control → World → List Control × World
unfolding delete kind_of add_control
ondesc malloc none val controls w = (controls, w)
ondesc malloc (some d) val controls w =
    add_control malloc d val (if is_output d then kind_of d.type d.func else none)
      (delete d.addr controls) w

-- A write through NULL where no control has the address.
unfoldable pub onval : (addr val : ℕ) → List Control → Option (List Control)
onval addr val [] = none
onval addr val (c ∷ controls) =
    let more = and_then (onval addr val controls) (λ controls'. some (c ∷ controls')) in
    if c.addr == addr then some (record c { val = val } ∷ controls) else more

-- A call of one of the two callbacks.
pub data Event : Type 0 where
  described : (malloc : Bool) → Option Desc → (val : ℕ) → Event
  changed : (addr val : ℕ) → Event

-- What libsndio's calls return in `init`, and the descriptions that it makes known there.
pub record Answers : Type 0 where
  pub opens : Bool
  pub ondesc : Bool
  pub onval : Bool
  pub calloc : Bool
  pub known : List Event

-- What they return in the poll, and the callbacks made in `sioctl_revents`.
pub record Poll : Type 0 where
  pub pollfd : ℤ
  pub poll : ℤ
  pub hup : Bool
  pub events : List Event

-- The file-scope variables; of the two pointers, whether they are set.
pub record Sndio : Type 0 where
  pub controls : List Control
  pub pfds : Bool
  pub hdl : Bool
  pub initialized : Bool

-- One callback.
unfoldable pub call_back : Event → List Control → World → Option (List Control × World)
unfolding ondesc onval
call_back (described malloc d val) controls w = some (ondesc malloc d val controls w)
call_back (changed addr val) controls w =
    and_then (onval addr val controls) (λ controls'. some (controls', w))

unfoldable pub call_all : List Event → List Control → World → Option (List Control × World)
unfolding call_back
call_all [] controls w = some (controls, w)
call_all (e ∷ events) controls w =
    and_then (call_back e controls w) (λ (r : List Control × World). call_all events r.0 r.1)

unfoldable pub cleanup : Sndio → Sndio
cleanup s = record s { controls = []; pfds = false; hdl = false }

-- `init` behind `sioctl_open`, with what the callbacks have left.
finish_init : Answers → Sndio → List Control × World → Option (Bool × Sndio × World)
unfolding cleanup
finish_init k s (controls, w) =
    let s' = record s { controls = controls } in
    if not k.ondesc
    then some (false, cleanup s', warn (lit "sndio: cannot set control description call-back") [] w)
    else if not k.onval
    then some (false, cleanup s', warn (lit "sndio: cannot set control values call-back") [] w)
    else if not k.calloc
    then some (false, cleanup s', warn (lit "sndio: cannot allocate pollfd structures") [] w)
    else some (true, record s' { pfds = true }, w)

unfoldable pub init : Answers → Sndio → World → Option (Bool × Sndio × World)
unfolding cleanup finish_init call_all
init k s w =
    let opened = record s { hdl = true } in
    let more = and_then (call_all k.known s.controls w) (finish_init k opened) in
    if k.opens
    then more
    else some
        (false, cleanup (record s { hdl = false }), warn (lit "sndio: cannot open device") [] w)

-- `v`, from unsigned to int. A division by zero is a crash too.
unfoldable pub level_of : Control → Option ℤ
level_of c =
    if c.maxval == 0
    then none
    else some (wrap_int ((c.val * 100 % 2 ^ 32 + c.maxval / 2) % 2 ^ 32 / c.maxval))

abbrev smaller : ℤ → ℤ → ℤ
smaller v value = if ltb_ℤ v value then v else value

-- The loop of `vol_perc` over the controls that are left.
unfoldable pub volume_from : ℤ → List Control → Option ℤ
unfolding level_of
volume_from value [] = some value
volume_from value (c ∷ controls) = elim c.type [
  | mute ↦ elim (c.val == 1) [
    | true ↦ volume_from (pos 0) controls
    | false ↦ volume_from value controls
  ]
  | level ↦ and_then (level_of c) (λ v. volume_from (smaller v value) controls)
]

print_volume : Sndio → World → ℤ → Option (Option Text × Sndio × World)
print_volume s w value = let (res, w') = bprintf (lit "%d") (int value ∷ []) w in some (res, s, w')

-- Behind `sioctl_revents`.
look_at : Poll → Sndio → List Control × World → Option (Option Text × Sndio × World)
unfolding cleanup volume_from print_volume
look_at p s (controls, w) =
    let s' = record s { controls = controls } in
    let more = and_then (volume_from (pos 100) controls) (print_volume s' w) in
    if p.hup
    then some
        (none, record (cleanup s') { initialized = false }, warn (lit "sndio: disconnected") [] w)
    else more

-- Behind the initialization.
poll_controls : Poll → Bool × Sndio × World → Option (Option Text × Sndio × World)
unfolding look_at
poll_controls p (ok, s, w) =
    let s' = record s { initialized = ok } in
    let polled = and_then (call_all p.events s.controls w) (look_at p s') in
    let quiet = and_then (volume_from (pos 100) s.controls) (print_volume s' w) in
    if not s.hdl
    then some (none, s', w)
    else if ltb_ℤ (pos 0) p.pollfd && ltb_ℤ (pos 0) p.poll
    then polled
    else quiet

unfoldable pub vol_perc : Answers → Poll → Sndio → World → Option (Option Text × Sndio × World)
unfolding init poll_controls
vol_perc k p s w =
    and_then (if s.initialized then some (true, s, w) else init k s w) (poll_controls p)
