-- ===== src/Backlight/Thread.antt =====
-- components/backlight.c with its two threads: what `backlight_loop` does between two accesses to
-- what it shares is one step, and between its steps the main thread makes its own.
pub mod Alive
pub mod Commutes
pub mod Holds
pub mod Whole
use slstatus.Prelude.{
  ℕ, ◌+◌, ◌-◌, Bool, true, false, not, Option, none, some, ◌==◌, if◌then◌else◌, is_some,
}
use slstatus.Prelude.Int.{eqb_ℤ}
use slstatus.Prelude.Text.{Text}
use slstatus.Util.{World, kill}
use slstatus.Util.Float.{Float}
use slstatus.Bar.{sigrtmin}
use slstatus.Pool.{TailQueue, empty, modify}
use slstatus.Backlight
use slstatus.Backlight.{Device, Backlight, brightness_of, backlight_find, backlight_signal}

-- Where the thread stands: before the statement named, with the local variables that are live.
pub data Pc : Type 0 where
  absent : Pc
  created : Pc
  filter_add : Pc
  enable_receiving : Pc
  get_fd : Pc
  receive_device : Pc
  receiving : (monitor : Option ℕ) → Pc
  received : Device → Pc
  comparing : Device → (backlight : ℕ) → Pc
  signalling : Pc

-- What the library answers at a step: whether there is a new monitor, and the device received.
pub record Answer : Type 0 where
  pub monitor : Bool
  pub device : Option Device

module _ (F : Float) (T : TailQueue) where
  -- What the threads share, and the place of the second one. `references` counts those to each
  -- `struct udev_monitor` by its address; one without any is freed memory.
  pub record System : Type 0 where
    pub backlight : Backlight F T
    pub udev_monitor : Option ℕ
    pub references : ℕ → ℕ
    pub fresh : ℕ
    pub thread : Pc
    pub world : World

  -- The file-scope variables before `backlight_init`.
  abbrev pub statics : World → System
  statics w = record {
    backlight = record { pool = empty T; udev = none };
    udev_monitor = none;
    references = λ m. 0;
    fresh = 0;
    thread = absent;
    world = w;
  }

  -- Without `udev` there is no thread.
  unfoldable pub backlight_init : Option (Text → Option Device) → System → System
  unfolding Backlight.backlight_init
  backlight_init udev s = record s {
    backlight = Backlight.backlight_init F T udev s.backlight;
    thread = if is_some udev then created else absent;
  }

  new_monitor : Bool → System → System
  new_monitor false s = record s { udev_monitor = none; thread = filter_add }
  new_monitor true s = record s {
    udev_monitor = some s.fresh;
    references = λ m. if m == s.fresh then 1 else s.references m;
    fresh = s.fresh + 1;
    thread = filter_add;
  }

  after_receive : Option Device → Pc
  after_receive none = receive_device
  after_receive (some d) = received d

  after_find : Device → Option ℕ → Pc
  after_find d none = receive_device
  after_find d (some p) = comparing d p

  pub look_up : Device → System → System
  unfolding backlight_find after_find
  look_up d s =
      let (p, b, w) = backlight_find F T d.sysname false s.backlight s.world in
      record s { backlight = b; world = w; thread = after_find d p }

  -- `if (brightness != backlight->brightness)` with the assignment.
  pub compare_with : Device → ℕ → System → System
  compare_with d p s = elim (s.backlight.pool.cells p) [
    | none ↦ record s { thread = receive_device }
    | some e ↦
        let brightness = brightness_of F d in
        if not (eqb_ℤ brightness e.brightness)
        then record s {
          backlight = record s.backlight {
            pool = modify T p (record e { brightness = brightness }) s.backlight.pool;
          };
          thread = signalling;
        }
        else record s { thread = receive_device }
  ]

  step_at : Pc → Answer → System → System
  unfolding new_monitor after_receive look_up compare_with
  step_at absent a s = s
  step_at created a s = new_monitor a.monitor s
  step_at filter_add a s = record s { thread = enable_receiving }
  step_at enable_receiving a s = record s { thread = get_fd }
  step_at get_fd a s = record s { thread = receive_device }
  step_at receive_device a s = record s { thread = receiving s.udev_monitor }
  step_at (receiving m) a s = record s { thread = after_receive a.device }
  step_at (received d) a s = look_up d s
  step_at (comparing d p) a s = compare_with d p s
  step_at signalling a s = record s {
    world = kill (sigrtmin + backlight_signal) s.world;
    thread = receive_device;
  }

  -- The next step of `backlight_loop`.
  unfoldable pub backlight_loop : Answer → System → System
  unfolding step_at
  backlight_loop a s = step_at s.thread a s

  -- A lookup by the main thread.
  unfoldable pub find : Text → (create : Bool) → System → System
  unfolding backlight_find
  find name create s =
      let (p, b, w) = backlight_find F T name create s.backlight s.world in
      record s { backlight = b; world = w }

  unref : Option ℕ → System → System
  unref none s = s
  unref (some m) s = record s {
    references = λ n. if n == m then s.references n - 1 else s.references n;
    udev_monitor = none;
  }

  -- `none`: there is no thread that pthread_kill could be given. The signal that it sends runs the
  -- handler of `main` in the thread, which goes on where it stands.
  free_from : Pc → System → Option System
  unfolding unref Backlight.backlight_free
  free_from absent s = none
  free_from _ s =
      let s' = unref s.udev_monitor s in
      some (record s' { backlight = Backlight.backlight_free F T s'.backlight })

  unfoldable pub backlight_free : System → Option System
  unfolding free_from
  backlight_free s = free_from s.thread s

  -- A step of either thread before `backlight_free`. `elsewhere`: of the main thread outside this
  -- component.
  pub data Step (s : System) : System → Type 0 where
    watch : (a : Answer) → Step s (backlight_loop a s)
    look : (name : Text) (create : Bool) → Step s (find name create s)
    elsewhere : (w : World) → Step s (record s { world = w })

  -- What the steps lead to, in any order, after `backlight_init`.
  pub data Reaches (udev : Option (Text → Option Device)) (w : World) : System → Type 0 where
    initialised : Reaches udev w (backlight_init udev (statics w))
    then_step : (s t : System) → Reaches udev w s → Step s t → Reaches udev w t
