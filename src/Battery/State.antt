-- ===== src/Battery/State.antt =====
-- The size of the text that `%12[a-zA-Z ]` stores.
use slstatus.Prelude.{
  ℕ, ◌-◌, ◌≤◌, ◌≡◌, refl, Bool, List, [], ◌∷◌, arith, length, Bool-cases, inl, inr, ◌+◌, ◌++◌,
}
use slstatus.Prelude.Text.{Text, lit}
use slstatus.Stdio.Scan.{scan, scan_from, span, set, Scanned, chars}
use slstatus.Battery.{is_state_char}

-- The bytes that a conversion stores, with the NUL behind a text.
abbrev stored : List Scanned → ℕ
stored (chars s ∷ []) = length s + 1
stored _ = 0

span_zero : (p : ℕ → Bool) (s : Text) → (span 0 p s).0 ≡ []
unfolding span
span_zero p [] = refl
span_zero p (c ∷ s) = refl

length-span : (n : ℕ) (p : ℕ → Bool) (s : Text) → length (span n p s).0 ≤ n
unfolding span
length-span n p [] = omega arith
length-span n p (c ∷ s) = ground (arith, length-span (n - 1) p s)

stored_le : (content : Text) → stored (scan (set 12 is_state_char ∷ []) content).items ≤ 13
unfolding scan scan_from span
stored_le [] = omega arith
stored_le (c ∷ s) = elim (Bool-cases (is_state_char c)) [
  | inl t ↦ rw (t, scan_from, span) (omega (arith, length-span 11 is_state_char s))
  | inr t ↦ rw (t, scan_from, span) (omega arith)
]

stored_thirteen :
    (rest : Text)
    → stored (scan (set 12 is_state_char ∷ []) (lit "Not charging" ++ rest)).items ≡ 13
unfolding scan scan_from span is_state_char lit
stored_thirteen rest = rw (span_zero is_state_char rest) refl

-- With its NUL the state that is read takes at most 13 bytes, and exactly 13 where the file starts
-- with "Not charging", whatever follows: one more than the 12 of the array `state`.
state_size :
    (content rest : Text)
    → (stored (scan (set 12 is_state_char ∷ []) content).items ≤ 13)
      × (stored (scan (set 12 is_state_char ∷ []) (lit "Not charging" ++ rest)).items ≡ 13)
state_size content rest = (stored_le content, stored_thirteen rest)
