-- ===== src/Wifi/Perc/Strength.antt =====
-- The percentage of components/wifi.c in its array of four bytes.
use slstatus.Prelude.{
  ℕ, ◌*◌, ◌≤◌, ◌≡◌, refl, arith, Bool-cases, inl, inr, [], ◌∷◌, take, take_all, ap, ◌∙◌,
}
use mathlib.Core.List.{append-nil}
use slstatus.Prelude.Int.{ℤ, pos, negsuc, leb_ℤ, ◌+ℤ◌, pos_part, +ℤ_parts}
use slstatus.Prelude.Text.{lit}
use slstatus.Stdio.Decimal.{show_nat, show_int, length-show_nat-le}
use slstatus.Stdio.Format.{int, format, vsnprintf}
use slstatus.Wifi.Perc.{rssi_to_perc, print_strength, signed_char}

rssi_range : (rssi : ℤ) → (n : ℕ) × (rssi_to_perc rssi ≡ pos n) × (n ≤ 100)
unfolding rssi_to_perc
rssi_range rssi = elim (Bool-cases (leb_ℤ (negsuc 49) rssi)) [
  | inl strong ↦ (100, rw strong refl, omega arith)
  | inr low ↦ elim (Bool-cases (leb_ℤ rssi (negsuc 99))) [
    | inl weak ↦ (0, rw (low, weak) refl, omega arith)
    | inr between ↦ (
      2 * pos_part (rssi +ℤ pos 100),
      rw (low, between) refl,
      ground (arith, +ℤ_parts rssi (pos 100)),
    )
  ]
]

show_percent : (n : ℕ) → n ≤ 100 → (vsnprintf 4 (lit "%d") (int (pos n) ∷ [])).0 ≡ show_nat n
unfolding vsnprintf lit format show_int
show_percent n h =
    ap (take 3) (append-nil (show_nat n))
    ∙ take_all 3 (show_nat n) (length-show_nat-le 2 n (omega arith))

-- The text that `wifi_perc` makes of a signal is a whole number from 0 to 100, which fits the four
-- bytes of its array with the NUL, for every byte that the kernel can send.
pub print_strength_lem : (c : ℕ) → (n : ℕ) × (n ≤ 100) × (print_strength c ≡ show_nat n)
unfolding print_strength
print_strength_lem c =
    let (n, e, h) = rssi_range (signed_char c) in
    (n, h, ap (λ r. (vsnprintf 4 (lit "%d") (int r ∷ [])).0) e ∙ show_percent n h)
