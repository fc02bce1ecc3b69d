-- ===== src/System.antt =====
-- The components that print one answer of the system: hostname.c, kernel_release.c, load_avg.c,
-- user.c, datetime.c and the Linux parts of entropy.c and temperature.c, all in components/. An
-- argument is what the system call returns, `none` where it fails.
pub mod Bsd
use slstatus.Prelude.{ℕ, ◌/◌, List, [], ◌∷◌, Option, none, some, ◌==◌, if◌then◌else◌}
use slstatus.Prelude.Int.{ℤ}
use slstatus.Prelude.Text.{Text, lit}
use slstatus.Stdio.Format.{str, int, uint, real}
use slstatus.Stdio.Scan.{Scanned, ju}
use slstatus.Stdio.Scan
use slstatus.Util.{Try, ◌>>=◌, null, bprintf, warn, pscanf_all}
use slstatus.Util.Float.{Float}

-- `gethostname(buf, sizeof(buf))`, which leaves the name in `buf`.
unfoldable pub hostname : Option Text → Try Text
hostname none w = (none, warn (lit "gethostbyname:") [] w)
hostname (some name) w = (some name, record w { buf = name })

-- `release` of what `uname` fills.
unfoldable pub kernel_release : Option Text → Try Text
kernel_release none w = (none, warn (lit "uname:") [] w)
kernel_release (some release) w = bprintf (lit "%s") (str (some release) ∷ []) w

unfoldable pub gid : ℤ → Try Text
gid getgid = bprintf (lit "%d") (int getgid ∷ [])

-- `pw_name` of what `getpwuid(geteuid())` returns.
unfoldable pub username : (geteuid : ℤ) → Option Text → Try Text
username geteuid none w = (none, warn (lit "getpwuid '%d':") (int geteuid ∷ []) w)
username geteuid (some pw_name) w = bprintf (lit "%s") (str (some pw_name) ∷ []) w

unfoldable pub uid : ℤ → Try Text
uid geteuid = bprintf (lit "%d") (int geteuid ∷ [])

-- `strftime` returns 0 or the length, and the string that it leaves in `buf`.
unfoldable pub datetime : (strftime : Text → ℕ × Text) → Text → Try Text
datetime strftime fmt w =
    let (ret, s) = strftime fmt in
    let w' = record w { buf = s } in
    if ret == 0
    then (none, warn (lit "strftime: Result string exceeds buffer size") [] w')
    else (some s, w')

scanned_uint : List Scanned → Try ℕ
scanned_uint (Scan.uint n ∷ []) = λ w. (some n, w)
scanned_uint _ = null

-- `pscanf(path, "%ju", &num) != 1`
unfoldable pub read_number : Text → Try ℕ
unfolding scanned_uint
read_number path = pscanf_all 1 path (ju ∷ []) >>= scanned_uint

unfoldable pub entropy : Try Text
unfolding read_number
entropy = read_number (lit "/proc/sys/kernel/random/entropy_avail") >>= λ num.
    bprintf (lit "%ju") (uint num ∷ [])

-- In thousandths of a degree.
unfoldable pub temp : Text → Try Text
unfolding read_number
temp file = read_number file >>= λ temp. bprintf (lit "%ju") (uint (temp / 1000) ∷ [])

module _ (F : Float) where
  open F use {Double, show}

  unfoldable pub load_avg : Option (Double × Double × Double) → Try Text
  load_avg none w = (none, warn (lit "getloadavg: Failed to obtain load average") [] w)
  load_avg (some (a, b, c)) w =
      bprintf (lit "%.2f %.2f %.2f") (real (show a) ∷ real (show b) ∷ real (show c) ∷ []) w
