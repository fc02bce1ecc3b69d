-- ===== src/Swap/Lines.antt =====
-- The loop of `get_swap_info` in components/swap.c, with and without its counter.
use slstatus.Prelude.{
  ℕ, ◌+◌, ◌-◌, ◌≤◌, ◌≡◌, refl, sym, ◌∙◌, Bool, true, false, List, [], ◌∷◌, some, arith, ◌==◌,
  if◌then◌else◌, Bool-cases, inl, inr,
}
use slstatus.Prelude.Text.{Text, lit}
use slstatus.Util.{World}
use slstatus.Swap.{Values, Wanted, read_line, read_lines, lines_of, count_left, get_swap_info}

-- Every line in its turn, to the end of the file.
abbrev pub read_all : Wanted → List Text → Values → Values
read_all want [] v = v
read_all want (line ∷ lines) v = read_all want lines (read_line want line v).0

-- How many lines are read into a wanted variable.
abbrev pub hits : Wanted → List Text → Values → ℕ
hits want [] v = 0
hits want (line ∷ lines) v =
    (if (read_line want line v).1 then 1 else 0) + hits want lines (read_line want line v).0

read_line_miss :
    (want : Wanted) (line : Text) (v : Values)
    → (read_line want line v).1 ≡ false
    → (read_line want line v).0 ≡ v
unfolding read_line
read_line_miss want line v h = ground (arith, h)

not_counted : (b : Bool) (n : ℕ) → (if b then 1 else 0) + n ≡ 0 → (b ≡ false) × (n ≡ 0)
not_counted true n h = absurd (omega arith)
not_counted false n h = (refl, omega arith)

read_all-none :
    (want : Wanted) (lines : List Text) (v : Values)
    → hits want lines v ≡ 0
    → read_all want lines v ≡ v
read_all-none want [] v h = refl
read_all-none want (line ∷ lines) v h =
    let (miss, rest) = not_counted _ _ h in
    read_all-none want lines _ rest ∙ read_line_miss want line v miss

read_lines-stop :
    (want : Wanted) (left : ℕ) (line : Text) (lines : List Text) (v : Values)
    → (left == 0) ≡ true
    → read_lines want left (line ∷ lines) v ≡ v
unfolding read_lines
read_lines-stop want left line lines v h = rw (h, read_lines) refl

read_lines-hit :
    (want : Wanted) (left : ℕ) (line : Text) (lines : List Text) (v : Values)
    → (left == 0) ≡ false
    → (read_line want line v).1 ≡ true
    → read_lines want left (line ∷ lines) v
      ≡ read_lines want (left - 1) lines (read_line want line v).0
unfolding read_lines
read_lines-hit want left line lines v h hit = rw (h, hit, read_lines) refl

read_lines-miss :
    (want : Wanted) (left : ℕ) (line : Text) (lines : List Text) (v : Values)
    → (left == 0) ≡ false
    → (read_line want line v).1 ≡ false
    → read_lines want left (line ∷ lines) v ≡ read_lines want left lines (read_line want line v).0
unfolding read_lines
read_lines-miss want left line lines v h miss = rw (h, miss, read_lines) refl

read_lines-read_all :
    (want : Wanted) (left : ℕ) (lines : List Text) (v : Values)
    → hits want lines v ≤ left
    → read_lines want left lines v ≡ read_all want lines v
unfolding read_lines
read_lines-read_all want left [] v h = refl
read_lines-read_all want left (line ∷ lines) v h = elim (Bool-cases (left == 0)) [
  | inl is_zero ↦
      read_lines-stop want left line lines v is_zero
      ∙ sym (read_all-none want (line ∷ lines) v (ground (arith, is_zero)))
  | inr more ↦ elim (Bool-cases (read_line want line v).1) [
    | inl hit ↦
        read_lines-hit want left line lines v more hit
        ∙ read_lines-read_all want (left - 1) lines _ (ground (arith, hit))
    | inr miss ↦
        read_lines-miss want left line lines v more miss
        ∙ read_lines-read_all want left lines _ (ground (arith, miss))
  ]
]

-- When /proc/meminfo opens and is read without an error, and no more of its lines are read into a
-- variable than there are variables wanted, get_swap_info returns 0 and the values are those of
-- reading every line of the file: to stop behind the last wanted line loses nothing.
pub get_swap_info-read_all :
    (want : Wanted) (v : Values) (w : World) (content : Text)
    → w.files (lit "/proc/meminfo") ≡ some content
    → hits want (lines_of content) v ≤ count_left want
    → get_swap_info false want v w ≡ (0, read_all want (lines_of content) v, w)
unfolding get_swap_info
get_swap_info-read_all want v w content h few =
    rw (h, get_swap_info) rw (read_lines-read_all want (count_left want) (lines_of content) v few)
      refl
