-- ===== src/Indicators/Items.antt =====
-- The formats that the comment above `keyboard_indicators` describes, item by item.
use slstatus.Prelude.{
  ℕ, ◌≤◌, ◌≡◌, refl, ap, ◌∙◌, Bool, true, false, List, [], ◌∷◌, ◌++◌, some, if◌then◌else◌, length,
  take_all, concat, map,
}
use slstatus.Prelude.Text.{Text}
use slstatus.Util.{World}
use slstatus.Indicators.{indicate, keyboard_indicators, isset, shown, togglecase}

pub data Lock : Type 0 where
  caps : Lock
  num : Lock

-- The letter of a lock, in one of the two cases, and whether a question mark follows it.
pub record Item : Type 0 where
  pub lock : Lock
  pub upper : Bool
  pub optional : Bool

abbrev pub letter : Lock → Bool → ℕ
letter caps false = b'c'
letter caps true = b'C'
letter num false = b'n'
letter num true = b'N'

abbrev pub written : Item → Text
written i = letter i.lock i.upper ∷ (if i.optional then b'?' ∷ [] else [])

-- Whether the LED of a lock is lit.
abbrev pub is_on : ℕ → Lock → Bool
is_on led_mask l = isset led_mask (letter l false)

abbrev pub described : ℕ → Item → Text
described led_mask i =
    if i.optional
    then (if is_on led_mask i.lock then letter i.lock i.upper ∷ [] else [])
    else letter i.lock (is_on led_mask i.lock) ∷ []

togglecase-letter :
    (l : Lock) (upper : Bool) (rest : Text) → togglecase (letter l upper ∷ rest) ≡ true
togglecase-letter caps false rest = refl
togglecase-letter caps true rest = refl
togglecase-letter num false rest = refl
togglecase-letter num true rest = refl

-- No item begins with a question mark.
togglecase-items : (items : List Item) → togglecase (concat (map written items)) ≡ true
togglecase-items [] = refl
togglecase-items (i ∷ items) =
    togglecase-letter i.lock i.upper
      ((if i.optional then b'?' ∷ [] else []) ++ concat (map written items))

indicate-letter :
    (led_mask : ℕ) (l : Lock) (upper : Bool) (rest : Text)
    → indicate led_mask (letter l upper ∷ rest)
      ≡ shown (togglecase rest) (is_on led_mask l) (letter l upper) (letter l false)
        ++ indicate led_mask rest
unfolding indicate
indicate-letter led_mask caps false rest = refl
indicate-letter led_mask caps true rest = refl
indicate-letter led_mask num false rest = refl
indicate-letter led_mask num true rest = refl

shown-toggled :
    (l : Lock) (upper on : Bool)
    → shown true on (letter l upper) (letter l false) ≡ letter l on ∷ []
shown-toggled caps upper false = refl
shown-toggled caps upper true = refl
shown-toggled num upper false = refl
shown-toggled num upper true = refl

shown-optional : (on : Bool) (c key : ℕ) → shown false on c key ≡ (if on then c ∷ [] else [])
shown-optional false c key = refl
shown-optional true c key = refl

indicate-fields :
    (led_mask : ℕ) (l : Lock) (upper optional : Bool) (rest : Text)
    → togglecase rest ≡ true
    → indicate led_mask (written (record { lock = l; upper = upper; optional = optional }) ++ rest)
      ≡ described led_mask (record { lock = l; upper = upper; optional = optional })
        ++ indicate led_mask rest
unfolding indicate
indicate-fields led_mask l upper false rest h =
    indicate-letter led_mask l upper rest
    ∙ ap
        (λ (t : Bool).
          shown t (is_on led_mask l) (letter l upper) (letter l false) ++ indicate led_mask rest)
        h
    ∙ ap (λ (t : Text). t ++ indicate led_mask rest) (shown-toggled l upper (is_on led_mask l))
indicate-fields led_mask l upper true rest h =
    indicate-letter led_mask l upper (b'?' ∷ rest)
    ∙ ap (λ (t : Text). t ++ indicate led_mask rest)
        (shown-optional (is_on led_mask l) (letter l upper) (letter l false))

indicate-item :
    (led_mask : ℕ) (i : Item) (rest : Text)
    → togglecase rest ≡ true
    → indicate led_mask (written i ++ rest) ≡ described led_mask i ++ indicate led_mask rest
indicate-item led_mask i rest h = indicate-fields led_mask i.lock i.upper i.optional rest h

indicate-items :
    (led_mask : ℕ) (items : List Item)
    → indicate led_mask (concat (map written items)) ≡ concat (map (described led_mask) items)
unfolding indicate
indicate-items led_mask [] = refl
indicate-items led_mask (i ∷ items) =
    indicate-item led_mask i (concat (map written items)) (togglecase-items items)
    ∙ ap (λ t. described led_mask i ++ t) (indicate-items led_mask items)

-- For a format of at most four characters that is made of letters with or without a question mark,
-- keyboard_indicators returns what the comment above it describes: a letter with a question mark
-- as it is written, if its lock is on, and any other letter always, in upper case if its lock is on
-- and in lower case otherwise.
pub keyboard_indicators-described :
    (led_mask : ℕ) (items : List Item) (w : World)
    → length (concat (map written items)) ≤ 4
    → keyboard_indicators (some led_mask) (concat (map written items)) w ≡ (
      some (concat (map (described led_mask) items)),
      record w { buf = concat (map (described led_mask) items) },
    )
unfolding keyboard_indicators
keyboard_indicators-described led_mask items w h =
    rw (take_all 4 (concat (map written items)) h, indicate-items led_mask items) refl
