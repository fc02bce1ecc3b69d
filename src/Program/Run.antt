-- ===== src/Program/Run.antt =====
-- The whole program: `main` of slstatus.c with the table of config.def.h and the setup, tick and
-- teardown of all components.
use slstatus.Prelude.{ℕ, List}
use slstatus.Util.Float.{Float}
use slstatus.Pool.{TailQueue}
use slstatus.Bar.{Effect}
use slstatus.Bar.Loop.State.{Keeps}
use slstatus.Nm
use slstatus.Program.{Components, Event, tick}

module _ (F : Float) (T : TailQueue) (new_id : List Nm.Call → ℕ) where
  -- The effects that dispatch callbacks, any number of them in any order.
  pub data Dispatches : Effect (Components F T new_id) → Type 0 where
    dispatching : (events : List (Event F T new_id)) → Dispatches (tick F T new_id events)
