-- ===== src/Upower.antt =====
-- components/upower.c: the entries that `upower_find` makes and what the device callback changes.
-- libupower-glib is the list of devices, each with its properties at a moment.
pub mod Links
pub mod Find
pub mod Icons
pub mod Registry
pub mod Texts
use slstatus.Prelude.{
  ℕ, ◌+◌, Bool, true, false, not, List, [], ◌∷◌, ◌++◌, Option, none, some, ◌==◌, if◌then◌else◌,
}
use slstatus.Prelude.Text.{Text, lit, glyph, text_eq}
use slstatus.Stdio.Format.{str, int}
use slstatus.Util.{World, bprintf, kill}
use slstatus.Util.Float.{Float}
use slstatus.Bar.{sigrtmin}
use slstatus.Pool.{TailQueue, Pool, empty, find_by, insert, modify, drain_all}

abbrev pub upower_signal : ℕ
upower_signal = 6

-- UP_DEVICE_STATE_DISCHARGING of libupower-glib.
abbrev pub discharging : ℕ
discharging = 2

module _ (F : Float) where
  open F use {Double, of_ℕ, lt, eq, trunc}

  -- The properties of an `UpDevice`.
  pub record Device : Type 0 where
    pub native_path : Text
    pub kind : ℕ
    pub model : Option Text
    pub percentage : Double
    pub state : ℕ

  -- `upower_t`
  pub record Entry : Type 0 where
    pub device : Text
    pub model : Option Text
    pub percentage : Double
    pub kind : ℕ
    pub state : ℕ

  -- The icons of `upower_line` while the battery discharges.
  unfoldable pub discharging_icon : Double → Text
  discharging_icon p =
      if lt p (of_ℕ 5)
      then glyph 0xf008e
      else if lt p (of_ℕ 15)
      then glyph 0xf007a
      else if lt p (of_ℕ 25)
      then glyph 0xf007b
      else if lt p (of_ℕ 35)
      then glyph 0xf007c
      else if lt p (of_ℕ 45)
      then glyph 0xf007d
      else if lt p (of_ℕ 55)
      then glyph 0xf007e
      else if lt p (of_ℕ 65)
      then glyph 0xf007f
      else if lt p (of_ℕ 75)
      then glyph 0xf0080
      else if lt p (of_ℕ 85)
      then glyph 0xf0081
      else if lt p (of_ℕ 95)
      then glyph 0xf0082
      else glyph 0xf0079

  -- The icons in every other state.
  unfoldable pub charging_icon : Double → Text
  charging_icon p =
      if lt p (of_ℕ 5)
      then glyph 0xf089f
      else if lt p (of_ℕ 15)
      then glyph 0xf089c
      else if lt p (of_ℕ 25)
      then glyph 0xf0086
      else if lt p (of_ℕ 35)
      then glyph 0xf0087
      else if lt p (of_ℕ 45)
      then glyph 0xf0088
      else if lt p (of_ℕ 55)
      then glyph 0xf089d
      else if lt p (of_ℕ 65)
      then glyph 0xf0089
      else if lt p (of_ℕ 75)
      then glyph 0xf089e
      else if lt p (of_ℕ 85)
      then glyph 0xf008a
      else if lt p (of_ℕ 95)
      then glyph 0xf008b
      else glyph 0xf0085

  unfoldable pub icon_of : Entry → Text
  unfolding discharging_icon charging_icon
  icon_of e =
      if e.state == discharging then discharging_icon e.percentage else charging_icon e.percentage

  -- The first device whose native path is the name.
  unfoldable pub device_named : Text → List Device → Option Device
  device_named name [] = none
  device_named name (d ∷ ds) =
      let more = device_named name ds in if text_eq d.native_path name then some d else more

  -- `upower_update_from_device`, on an entry.
  unfoldable pub update_from_device : Device → Entry → World → Entry × World
  update_from_device d e w = (
    record e { kind = d.kind; model = d.model; percentage = d.percentage; state = d.state },
    kill (sigrtmin + upower_signal) w,
  )

  module _ (T : TailQueue) where
    -- The file-scope variables, and the `notify` connections: a device's path and the entry that
    -- its callback gets. `client` is `none` where `up_client_new` failed; else it gives the devices.
    pub record Upower : Type 0 where
      pub pool : Pool T Entry
      pub client : Option (List Device)
      pub connected : List (Text × ℕ)

    -- `upower_init`; `client` is what `up_client_new` returns.
    unfoldable pub upower_init : Option (List Device) → Upower
    upower_init client = record { pool = empty T; client = client; connected = [] }

    freed : Option Entry → Option Entry
    freed o = none

    unfoldable pub upower_free : Upower → Upower
    unfolding freed
    upower_free s = record s { pool = drain_all T freed s.pool; client = none }

    -- The entry as `calloc` and the first assignment leave it.
    abbrev blank : Text → Entry
    blank name = record { device = name; model = none; percentage = of_ℕ 0; kind = 0; state = 0 }

    -- The body of the loop's `if (!check)`.
    unfoldable pub add_device : Text → Device → Upower → World → Option ℕ × Upower × World
    unfolding update_from_device
    add_device name d s w =
        let (e, w') = update_from_device d (blank name) w in
        (
          some s.pool.fresh,
          record s {
            pool = insert T e s.pool;
            connected = s.connected ++ (d.native_path, s.pool.fresh) ∷ [];
          },
          w',
        )

    -- The end of the device loop: with the device that it stopped at, or without one.
    make_entry : Text → Option Device → Upower → World → Option ℕ × Upower × World
    unfolding add_device
    make_entry name none s w = (none, s, w)
    make_entry name (some d) s w = add_device name d s w

    -- Behind the walk over the queue, with what it found.
    find_entry : Text → List Device → Option ℕ → Upower → World → Option ℕ × Upower × World
    unfolding device_named make_entry
    find_entry name devices (some p) s w = (some p, s, w)
    find_entry name devices none s w = make_entry name (device_named name devices) s w

    -- Behind the test of `upower_client`.
    find_with : Text → Option (List Device) → Upower → World → Option ℕ × Upower × World
    unfolding find_entry
    find_with name none s w = (none, s, w)
    find_with name (some devices) s w =
        find_entry name devices (find_by T (λ e. text_eq e.device name) s.pool) s w

    unfoldable pub upower_find : Text → Upower → World → Option ℕ × Upower × World
    unfolding find_with
    upower_find name s w = find_with name s.client s w

    -- `upower_device_callback` for the entry at `p` (`none`: a null `user_data`).
    unfoldable pub upower_device_callback :
        Device → Text → Option ℕ → Upower → World → Upower × World
    upower_device_callback d name none s w = (s, w)
    upower_device_callback d name (some p) s w = elim (s.pool.cells p) [
      | none ↦ (s, w)
      | some e ↦
          let raise = kill (sigrtmin + upower_signal) w in
          if text_eq name (lit "percentage")
          then (if not (eq d.percentage e.percentage)
              then (
                record s { pool = modify T p (record e { percentage = d.percentage }) s.pool },
                raise,
              )
              else (s, w))
          else if text_eq name (lit "state")
          then (if not (d.state == e.state)
              then (record s { pool = modify T p (record e { state = d.state }) s.pool }, raise)
              else (s, w))
          else (s, w)
    ]
