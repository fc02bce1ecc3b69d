-- ===== src/Stdio/Format.antt =====
-- printf: the conversions %s, %d, %u, %ju and %.kf, and `vsnprintf` into a buffer of a given size.
use slstatus.Prelude.{
  ℕ, ◌-◌, ◌^◌, ◌<◌, ◌≡◌, refl, ap, false, ◌||◌, List, [], ◌∷◌, ◌++◌, Option, none, some, arith, leb,
  ◌==◌, if◌then◌else◌, length, take, length-take, All,
}
use slstatus.Prelude.Int.{ℤ, pos, negsuc}
use slstatus.Prelude.Text.{Text, lit}
use slstatus.Stdio.Decimal.{is_digit, show_nat, show_int}

-- An argument of printf with its converted type. `str none` is a null pointer; `real f` is a
-- double that prints as `f k` with k digits behind the point.
pub data Val : Type 0 where
  str : Option Text → Val
  int : ℤ → Val
  uint : ℕ → Val
  real : (ℕ → Text) → Val

-- A null pointer for %s prints as glibc prints it.
unfoldable pub show_val : ℕ → Val → Text
unfolding lit
show_val precision (str none) = lit "(null)"
show_val precision (str (some s)) = s
show_val precision (int n) = show_int n
show_val precision (uint n) = show_nat n
show_val precision (real f) = f precision

-- Outside of a conversion, or inside one with the precision read so far.
pub data Mode : Type 0 where
  plain : Mode
  conversion : ℕ → Mode

convert : ℕ → List Val → Text × Mode × List Val
unfolding show_val
convert precision [] = ([], plain, [])
convert precision (v ∷ vs) = (show_val precision v, plain, vs)

-- One byte of the format: what it prints, the next mode and the arguments left. The letter of a
-- conversion agrees with its argument, so that the argument alone says how it prints.
step : Mode → ℕ → List Val → Text × Mode × List Val
unfolding convert
step plain c vs = if c == b'%' then ([], conversion 6, vs) else (c ∷ [], plain, vs)
step (conversion precision) c vs =
    if c == b'%'
    then (b'%' ∷ [], plain, vs)
    else if (c == b'j') || (c == b'.')
    then ([], conversion precision, vs)
    else if is_digit c
    then ([], conversion (c - b'0'), vs)
    else convert precision vs

format_from : Mode → Text → List Val → Text
unfolding step
format_from mode [] vs = []
format_from mode (c ∷ fmt) vs =
    let (out, mode', vs') = step mode c vs in out ++ format_from mode' fmt vs'

-- The text that printf makes of a format and its arguments.
unfoldable pub format : Text → List Val → Text
unfolding format_from
format fmt vs = format_from plain fmt vs

abbrev pub int_max : ℕ
int_max = 2 ^ 31 - 1

-- `vsnprintf(str, size, fmt, ap)`: the string left in the buffer and the value returned, which is
-- the length of the whole text, or -1 where that is no `int`.
unfoldable pub vsnprintf : ℕ → Text → List Val → Text × ℤ
vsnprintf size fmt vs =
    let s = format fmt vs in
    (take (size - 1) s, if leb (length s) int_max then pos (length s) else negsuc 0)

-- What is left in the buffer fits, with its final NUL.
pub length-vsnprintf :
    (size : ℕ) (fmt : Text) (vs : List Val) → 0 < size → length (vsnprintf size fmt vs).0 < size
unfolding vsnprintf
length-vsnprintf size fmt vs h = omega (arith, length-take {0} (size - 1) (format fmt vs))

abbrev pub IsPlain : ℕ → Type 0
IsPlain c = (c == b'%') ≡ false

-- Text with no percent sign prints as it is.
format_from-plain :
    (pre rest : Text) (vs : List Val)
    → All IsPlain pre
    → format_from plain (pre ++ rest) vs ≡ pre ++ format_from plain rest vs
unfolding format_from
format_from-plain [] rest vs h = refl
format_from-plain (c ∷ pre) rest vs h = rw h.0 (ap (λ t. c ∷ t) (format_from-plain pre rest vs h.1))

format_from-All_plain :
    (post : Text) (vs : List Val) → All IsPlain post → format_from plain post vs ≡ post
unfolding format_from
format_from-All_plain [] vs h = refl
format_from-All_plain (c ∷ post) vs h = rw h.0 (ap (λ t. c ∷ t) (format_from-All_plain post vs h.1))

-- A format with one %s, as those of the bar's configuration, puts the text in its place.
pub format-one_string :
    (pre post s : Text)
    → All IsPlain pre
    → All IsPlain post
    → format (pre ++ (b'%' ∷ b's' ∷ post)) (str (some s) ∷ []) ≡ pre ++ (s ++ post)
unfolding format format_from
format-one_string pre post s hp hq = rw (
  format_from-plain pre (b'%' ∷ b's' ∷ post) (str (some s) ∷ []) hp,
  format_from-All_plain post [] hq,
)
