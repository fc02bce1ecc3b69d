-- ===== src/Util/Bounds.antt =====
-- The bounded printing of util.c.
use slstatus.Prelude.{ℕ, ◌-◌, ◌≤◌, ◌<◌, ◌≡◌, List, [], none, some, arith, length, take, take_all}
use slstatus.Prelude.Int.{pos, negsuc}
use slstatus.Prelude.Text.{Text, lit}
use slstatus.Stdio.Format.{Val, format, vsnprintf, int_max, length-vsnprintf}
use slstatus.Util.{World, evsnprintf, esnprintf, bprintf, buf_size, warn}

-- What stays in the buffer always fits it, with its NUL.
pub length-esnprintf :
    (size : ℕ) (fmt : Text) (ap : List Val) (w : World)
    → 0 < size
    → length (esnprintf size fmt ap w).0.0 < size
unfolding esnprintf
length-esnprintf size fmt ap w h = ground (arith, length-vsnprintf size fmt ap h)

-- Where the text fits, it is stored whole, its length is returned and nothing else changes.
pub evsnprintf-fits :
    (size : ℕ) (fmt : Text) (ap : List Val) (w : World)
    → length (format fmt ap) < size
    → size ≤ int_max
    → evsnprintf size fmt ap w ≡ ((format fmt ap, pos (length (format fmt ap))), w)
unfolding evsnprintf vsnprintf
evsnprintf-fits size fmt ap w h k =
    ground (arith, take_all (size - 1) (format fmt ap) (omega arith))

-- A text that is no shorter than the buffer (and whose length is an int) is cut off, with a warning.
pub evsnprintf-truncates :
    (size : ℕ) (fmt : Text) (ap : List Val) (w : World)
    → size ≤ length (format fmt ap)
    → length (format fmt ap) ≤ int_max
    → evsnprintf size fmt ap w
      ≡ ((take (size - 1) (format fmt ap), negsuc 0), warn (lit "vsnprintf: Output truncated") [] w)
unfolding evsnprintf vsnprintf
evsnprintf-truncates size fmt ap w h k = ground arith

-- A text that fits the buffer is returned, and nothing but the buffer changes.
pub bprintf-fits :
    (fmt : Text) (ap : List Val) (w : World)
    → length (format fmt ap) < buf_size
    → bprintf fmt ap w ≡ (some (format fmt ap), record w { buf = format fmt ap })
unfolding bprintf
bprintf-fits fmt ap w h = rw (evsnprintf-fits buf_size fmt ap w h (omega arith)) (ground arith)

-- `bprintf` of a text that does not fit (and whose length is an int) returns NULL, warns, and
-- leaves the first 1023 bytes in the buffer.
pub bprintf-truncates :
    (fmt : Text) (ap : List Val) (w : World)
    → buf_size ≤ length (format fmt ap)
    → length (format fmt ap) ≤ int_max
    → bprintf fmt ap w ≡ (
      none,
      record (warn (lit "vsnprintf: Output truncated") [] w) { buf = take 1023 (format fmt ap) },
    )
unfolding bprintf
bprintf-truncates fmt ap w h k = rw (evsnprintf-truncates buf_size fmt ap w h k)

-- A text that `bprintf` returns is shorter than the buffer.
pub length-bprintf :
    (fmt : Text) (ap : List Val) (w : World) {s : Text}
    → (bprintf fmt ap w).0 ≡ some s
    → length s < buf_size
unfolding bprintf evsnprintf
length-bprintf fmt ap w h = ground (arith, length-vsnprintf buf_size fmt ap)
