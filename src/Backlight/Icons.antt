-- ===== src/Backlight/Icons.antt =====
-- The icons of `backlight_line` and `backlight_icon` in components/backlight.c.
use slstatus.Prelude.{ℕ, ◌≡◌, refl, true, [], ◌∷◌, arith, ap, ◌∙◌, sym}
use slstatus.Prelude.Int.{pos}
use slstatus.Prelude.Text.{Text}
use slstatus.Stdio.Decimal.{
  show_nat, show_int, read_digits, read_digits-show_nat, show_nat-starts_with_digit,
  starts_with_digit,
}
use mathlib.Core.List.{append-nil}
use slstatus.Backlight.{icon_of, icon_of_perc, strtoul}

strtoul_lem : (s : Text) → starts_with_digit s ≡ true → strtoul s ≡ read_digits 0 s
unfolding strtoul
strtoul_lem [] h = cc
strtoul_lem (c ∷ s) h = ground (arith, h)

strtoul-show_nat : (n : ℕ) → strtoul (show_nat n) ≡ n
strtoul-show_nat n =
    strtoul_lem (show_nat n) (show_nat-starts_with_digit n)
    ∙ ap (read_digits 0) (sym (append-nil (show_nat n)))
    ∙ read_digits-show_nat n [] refl

-- `backlight_icon` reads the percentage back from the text that was printed. Where that is not
-- negative, the number comes back as it was and the icon is the one that `backlight_line` shows
-- for it.
pub icon_of_perc-strtoul :
    (n : ℕ)
    → (strtoul (show_int (pos n)) ≡ n)
      × (icon_of_perc (strtoul (show_int (pos n))) ≡ icon_of (pos n))
unfolding icon_of_perc icon_of show_int
icon_of_perc-strtoul n = let e = strtoul-show_nat n in (e, ap icon_of_perc e ∙ ground arith)
