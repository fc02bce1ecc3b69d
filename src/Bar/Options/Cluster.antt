-- ===== src/Bar/Options/Cluster.antt =====
-- Options that stand together in one argument, in the loop of arg.h.
use slstatus.Prelude.{ℕ, ◌≡◌, refl, sym, ap, ◌∙◌, false, List, [], ◌∷◌, arith, ◌==◌, if◌then◌else◌}
use slstatus.Prelude.Text.{Text, text_eq}
use slstatus.Bar.Options.{Flags, Parsed, parse_from, parse, version, usage, letters}

-- An argument that begins with a dash and is not "--" is a word of letters.
parse_from_word :
    (x : ℕ) (cs : Text) (argv : List Text) (f : Flags)
    → text_eq (x ∷ cs) (b'-' ∷ []) ≡ false
    → parse_from ((b'-' ∷ x ∷ cs) ∷ argv) f ≡ letters (x ∷ cs) f (λ f'. parse_from argv f')
unfolding parse_from
parse_from_word x cs argv f h = rw h refl

-- What one letter does before it hands on to the letters behind it.
abbrev after_letter : ℕ → Parsed → Parsed
after_letter c more =
    if c == b'v'
    then version
    else if (c == b'1')
    then more
    else if (c == b's')
    then more
    else if (c == b'S')
    then more
    else usage

letters_split :
    (x : ℕ) (cs : Text) (f : Flags) (rest next : Flags → Parsed)
    → ((f' : Flags) → letters cs f' rest ≡ next f')
    → letters (x ∷ cs) f rest ≡ letters (x ∷ []) f next
unfolding letters
letters_split x cs f rest next h = ap (after_letter x) (h _)

alone : (x : ℕ) (cs : Text) → (x == b'-') ≡ false → text_eq (x ∷ cs) (b'-' ∷ []) ≡ false
alone x cs h = ground (arith, h)

-- Letters behind one dash are the same options as each behind a dash of its own: the first letter
-- can be split off, if it is no dash and what follows is not one dash alone.
pub parse-cluster :
    (x y : ℕ) (cs : Text) (argv : List Text)
    → (x == b'-') ≡ false
    → text_eq (y ∷ cs) (b'-' ∷ []) ≡ false
    → parse ((b'-' ∷ x ∷ y ∷ cs) ∷ argv) ≡ parse ((b'-' ∷ x ∷ []) ∷ (b'-' ∷ y ∷ cs) ∷ argv)
unfolding parse
parse-cluster x y cs argv hx hy =
    let none_yet : Flags = record { done = false; sflag = false; every = false } in
    parse_from_word x (y ∷ cs) argv none_yet (alone x (y ∷ cs) hx)
    ∙ letters_split x (y ∷ cs) none_yet _ _ (λ f. sym (parse_from_word y cs argv f hy))
    ∙ sym (parse_from_word x [] ((b'-' ∷ y ∷ cs) ∷ argv) none_yet (alone x [] hx))
