-- ===== src/Battery.antt =====
-- The Linux part of components/battery.c: the files of a power supply.
pub mod FreeBsd
pub mod OpenBsd
pub mod State
use slstatus.Prelude.{
  ℕ, Bool, true, false, ◌&&◌, ◌||◌, List, [], ◌∷◌, Option, none, some, leb, ◌==◌, if◌then◌else◌,
  is_some,
}
use slstatus.Prelude.Int.{ℤ, pos, ltb_ℤ}
use slstatus.Prelude.Text.{Text, lit, text_eq}
use slstatus.Stdio.Format.{str}
use slstatus.Stdio.Format
use slstatus.Stdio.Scan.{Scanned, chars, set, ju}
use slstatus.Stdio.Scan
use slstatus.Util.{
  World, Try, ◌>>=◌, null, return, bprintf, esnprintf, esnprintf_all, pscanf, pscanf_all,
}
use slstatus.Util.Float.{Float}
use slstatus.Backlight.{path_max}

abbrev supply_status : Text
supply_status = lit "/sys/class/power_supply/%s/status"

-- `[a-zA-Z ]`
unfoldable pub is_state_char : ℕ → Bool
is_state_char c = (leb b'a' c && leb c b'z') || (leb b'A' c && leb c b'Z') || (c == 32)

only_int : List Scanned → Try ℤ
only_int (Scan.int n ∷ []) = return n
only_int _ = null

only_chars : List Scanned → Try Text
only_chars (chars s ∷ []) = return s
only_chars _ = null

unfoldable pub battery_perc : Text → Try Text
unfolding only_int
battery_perc bat =
    esnprintf_all path_max (lit "/sys/class/power_supply/%s/capacity") (str (some bat) ∷ [])
    >>= (λ path. pscanf_all 1 path (Scan.d ∷ []))
    >>= only_int
    >>= λ cap_perc. bprintf (lit "%d") (Format.int cap_perc ∷ [])

-- `state` as both functions read it with `%12[a-zA-Z ]`.
unfoldable pub read_state : Text → Try Text
unfolding only_chars is_state_char
read_state bat =
    esnprintf_all path_max supply_status (str (some bat) ∷ [])
    >>= (λ path. pscanf_all 1 path (set 12 is_state_char ∷ []))
    >>= only_chars

-- The loop over `map`.
unfoldable pub symbol_of : Text → Text
symbol_of state =
    if text_eq (lit "Charging") state
    then lit "+"
    else if text_eq (lit "Discharging") state
    then lit "-"
    else if text_eq (lit "Full") state
    then lit "o"
    else if text_eq (lit "Not charging") state
    then lit "o"
    else lit "?"

unfoldable pub battery_state : Text → Try Text
unfolding read_state symbol_of
battery_state bat = read_state bat >>= λ state. return (symbol_of state)

-- One half of `pick`: `access` allows what can be read.
readable : Text → Text → World → Option Text × World
readable fmt bat w =
    let ((path, ret), w') = esnprintf path_max fmt (str (some bat) ∷ []) w in
    if ltb_ℤ (pos 0) ret && is_some (w'.files path) then (some path, w') else (none, w')

or_else : Option Text → World → Try Text → Option Text × World
or_else (some path) w other = (some path, w)
or_else none w other = other w

-- `pick`, with the path that it leaves.
unfoldable pub pick : Text → (f1 f2 : Text) → Try Text
unfolding readable or_else
pick bat f1 f2 w = let (path, w') = readable f1 bat w in or_else path w' (readable f2 bat)

value_or : ℕ → List Scanned → ℕ
value_or garbage (Scan.uint n ∷ []) = n
value_or garbage _ = garbage

-- `pscanf(path, "%ju", …) < 0`: where nothing is converted the variable keeps what it held.
unfoldable pub read_number : (garbage : ℕ) → Text → Try ℕ
unfolding value_or
read_number garbage path w =
    let ((count, items), w') = pscanf path (ju ∷ []) w in
    if ltb_ℤ count (pos 0) then (none, w') else (some (value_or garbage items), w')

module _ (F : Float) where
  open F use {of_ℕ, sub, mul, div, to_uintmax}

  -- The time that the charge lasts, in hours and minutes.
  unfoldable pub print_time : (charge_now current_now : ℕ) → Try Text
  print_time charge_now current_now =
      let timeleft = div (of_ℕ charge_now) (of_ℕ current_now) in
      let h = to_uintmax timeleft in
      let m = to_uintmax (mul (sub timeleft (of_ℕ h)) (of_ℕ 60)) in
      bprintf (lit "%juh %jum") (Format.uint h ∷ Format.uint m ∷ [])

  while_discharging : ℕ → Text → ℕ → Try Text
  unfolding pick read_number print_time
  while_discharging garbage bat charge_now =
      pick bat (lit "/sys/class/power_supply/%s/current_now")
        (lit "/sys/class/power_supply/%s/power_now")
      >>= read_number garbage
      >>= λ current_now. if current_now == 0 then null else print_time charge_now current_now

  unfoldable pub battery_remaining : (garbage : ℕ) → Text → Try Text
  unfolding read_state while_discharging
  battery_remaining garbage bat = read_state bat >>= λ state.
      pick bat (lit "/sys/class/power_supply/%s/charge_now")
        (lit "/sys/class/power_supply/%s/energy_now")
      >>= read_number garbage
      >>= λ charge_now.
          if text_eq state (lit "Discharging")
          then while_discharging garbage bat charge_now
          else return []
