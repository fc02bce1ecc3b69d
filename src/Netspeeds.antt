-- ===== src/Netspeeds.antt =====
-- The Linux part of components/netspeeds.c. Each function keeps the bytes of its last call in one
-- static variable, for all interfaces.
pub mod Bsd
pub mod Rate
use slstatus.Prelude.{
  ℕ, ◌/◌, Bool, true, false, List, [], ◌∷◌, Option, none, some, ◌==◌, if◌then◌else◌,
}
use slstatus.Prelude.Text.{Text, lit}
use slstatus.Stdio.Format.{str}
use slstatus.Stdio.Scan.{ju, Scanned, uint}
use slstatus.Util.{World, Try, ◌>>=◌, null, esnprintf_all, pscanf_all}
use slstatus.Util.Float.{Float}
use slstatus.Util.Human.{fmt_human}
use slstatus.Backlight.{path_max}
use slstatus.Bar.Clock.{interval}
use slstatus.Memory.{sub_64, mul_64}

only : List Scanned → Try ℕ
only (uint n ∷ []) = λ w. (some n, w)
only _ = null

-- The counter in the file that the format names, as both functions read it.
unfoldable pub read_bytes : Text → Text → Try ℕ
unfolding only
read_bytes fmt interface =
    esnprintf_all path_max fmt (str (some interface) ∷ [])
    >>= (λ path. pscanf_all 1 path (ju ∷ []))
    >>= only

-- `(bytes - old) * 1000 / interval`
unfoldable pub rate : (old bytes : ℕ) → ℕ
rate old bytes = mul_64 (sub_64 bytes old) 1000 / interval

module _ (F : Float) where
  -- Behind the reading; the static variable stays as it was where nothing was read.
  print_rate : ℕ → Option ℕ → World → Option Text × ℕ × World
  unfolding rate
  print_rate old none w = (none, old, w)
  print_rate old (some bytes) w =
      if old == 0
      then (none, bytes, w)
      else let (res, w') = fmt_human F (rate old bytes) 1024 w in (res, bytes, w')

  unfoldable pub netspeed_rx : Text → ℕ → World → Option Text × ℕ × World
  unfolding read_bytes print_rate
  netspeed_rx interface rxbytes w =
      let (bytes, w') = read_bytes (lit "/sys/class/net/%s/statistics/rx_bytes") interface w in
      print_rate rxbytes bytes w'

  unfoldable pub netspeed_tx : Text → ℕ → World → Option Text × ℕ × World
  unfolding read_bytes print_rate
  netspeed_tx interface txbytes w =
      let (bytes, w') = read_bytes (lit "/sys/class/net/%s/statistics/tx_bytes") interface w in
      print_rate txbytes bytes w'
