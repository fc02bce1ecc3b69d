-- ===== src/Util/Raised.antt =====
-- The messages of util.c beside the signals that are raised.
use slstatus.Prelude.{ℕ, ◌≡◌, List, arith}
use slstatus.Prelude.Text.{Text}
use slstatus.Stdio.Format.{Val}
use slstatus.Util.{World, esnprintf_all, esnprintf, evsnprintf, warn, verr, kill}

-- A formatting does not depend on whether a signal was raised before it or is raised behind it.
pub esnprintf_all-kill :
    (size : ℕ) (fmt : Text) (ap : List Val) (signo : ℕ) (w : World)
    → esnprintf_all size fmt ap (kill signo w)
      ≡ (let (s, w') = esnprintf_all size fmt ap w in (s, kill signo w'))
unfolding esnprintf_all esnprintf evsnprintf warn verr kill
esnprintf_all-kill size fmt ap signo w = ground arith
