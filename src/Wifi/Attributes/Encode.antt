-- ===== src/Wifi/Attributes/Encode.antt =====
-- Attributes as the kernel writes them, and `findattr` of components/wifi.c over them.
use slstatus.Prelude.{
  ℕ, zero, suc, ◌+◌, ◌-◌, ◌<◌, ◌≤◌, ◌≡◌, refl, sym, ap, ◌∙◌, true, false, List, [], ◌∷◌, ◌++◌,
  Option, none, some, arith, ◌==◌, if◌then◌else◌, length, length-append, take, drop, replicate,
  length-replicate, Bool-cases, inl, inr, All,
}
use mathlib.Core.List.{append_assoc}
use mathlib.Core.Path.{ap₂}
use slstatus.Memory.{sub_64}
use slstatus.Prelude.Text.{Text}
use slstatus.Wifi.Attributes.{
  Search, found, absent, forever, findattr, findattr_from, read_16, u_16, align,
}

pub record Attr : Type 0 where
  pub type : ℕ
  pub payload : Text

-- The fields of `struct nlattr` have sixteen bits.
pub record IsEncodable (a : Attr) : Type 0 where
  pub type : a.type < 65536
  pub size : length a.payload < 65532

-- What `align` adds to a length.
abbrev padding : ℕ → ℕ
padding n = align n - n

-- The header, the payload and the padding.
abbrev encode_attr : Attr → Text
encode_attr a =
    u_16 (4 + length a.payload)
    ++ u_16 a.type
    ++ a.payload
    ++ replicate (padding (4 + length a.payload)) 0

abbrev pub encode : List Attr → Text
encode [] = []
encode (a ∷ attrs) = encode_attr a ++ encode attrs

-- The payload of the first attribute of a type.
abbrev pub lookup : ℕ → List Attr → Option Text
lookup attr [] = none
lookup attr (a ∷ attrs) = if a.type == attr then some a.payload else lookup attr attrs

-- The bytes that a search has found; `none` where it has no end.
abbrev pub bytes_of : Search → Option (Option Text)
bytes_of (found len p) = some (some (take len p))
bytes_of absent = some none
bytes_of forever = none

read-u_16 : (n : ℕ) (rest : Text) → n < 65536 → read_16 0 (u_16 n ++ rest) ≡ n
read-u_16 n rest h = omega arith

take-append : (xs ys : Text) → take (length xs) (xs ++ ys) ≡ xs
take-append [] ys = refl
take-append (x ∷ xs) ys = ap (λ t. x ∷ t) (take-append xs ys)

drop-append : (n : ℕ) (xs ys : Text) → n ≡ length xs → drop n (xs ++ ys) ≡ ys
drop-append zero [] ys h = refl
drop-append (suc n) [] ys h = absurd (omega arith)
drop-append zero (x ∷ xs) ys h = absurd (omega arith)
drop-append (suc n) (x ∷ xs) ys h = drop-append n xs ys (omega arith)

length-encode_attr : (a : Attr) → length (encode_attr a) ≡ align (4 + length a.payload)
length-encode_attr a = omega (
  arith,
  length-append a.payload (replicate (padding (4 + length a.payload)) 0),
  length-replicate {A = ℕ} (padding (4 + length a.payload)) 0,
)

-- A round of the loop by the two fields that it reads.
abbrev round : (fuel attr n : ℕ) → Text → (len type : ℕ) → Search
round fuel attr n m len type =
    if type == attr
    then found (sub_64 len 4) (drop 4 m)
    else if align len == 0
    then forever
    else findattr_from fuel attr (n - align len) (drop (align len) m)

round_lem :
    (fuel attr n len type : ℕ) (m : Text)
    → 0 < n
    → read_16 0 m ≡ len
    → read_16 2 m ≡ type
    → findattr_from (suc fuel) attr n m ≡ round fuel attr n m len type
unfolding findattr_from
round_lem fuel attr n len type m h e f =
    let positive : (n == 0) ≡ false = ground arith in rw positive (ap₂ (round fuel attr n m) e f)

module _ (attr fuel : ℕ) (a : Attr) (h : IsEncodable a) (attrs : List Attr) (rest : Text) where
  abbrev len : ℕ
  len = 4 + length a.payload

  -- The memory from the attribute on, and the size of the attributes in it.
  abbrev from : Text
  from = encode_attr a ++ (encode attrs ++ rest)

  abbrev size : ℕ
  size = align len + length (encode attrs)

  on_from : findattr_from (suc fuel) attr size from ≡ round fuel attr size from len a.type
  on_from =
      let b = h.size in
      let b' = h.type in
      round_lem fuel attr size len a.type from (omega arith) (omega arith) (omega arith)

  step_found :
      (a.type == attr) ≡ true
      → bytes_of (findattr_from (suc fuel) attr size from) ≡ some (some a.payload)
  step_found e =
      let b = h.size in
      let l : sub_64 len 4 ≡ length a.payload = omega arith in
      ap bytes_of on_from
      ∙ rw (e, l)
          (ap (λ m. some (some (take (length a.payload) m)))
              (append_assoc a.payload (replicate (padding len) 0) (encode attrs ++ rest))
            ∙ ap (λ t. some (some t)) (take-append a.payload _))

  step_next :
      (a.type == attr) ≡ false
      → findattr_from (suc fuel) attr size from
        ≡ findattr_from fuel attr (length (encode attrs)) (encode attrs ++ rest)
  step_next e =
      let z : (align len == 0) ≡ false = ground arith in
      let n : size - align len ≡ length (encode attrs) = omega arith in
      on_from
      ∙ rw (e, z, n)
          (ap (findattr_from fuel attr (length (encode attrs)))
            (drop-append (align len) (encode_attr a) _ (sym (length-encode_attr a))))

findattr-from :
    (attr fuel : ℕ) (attrs : List Attr) (rest : Text)
    → All IsEncodable attrs
    → length (encode attrs) ≤ fuel
    → bytes_of (findattr_from fuel attr (length (encode attrs)) (encode attrs ++ rest))
      ≡ some (lookup attr attrs)
unfolding findattr_from
findattr-from attr zero [] rest h b = refl
findattr-from attr (suc fuel) [] rest h b = refl
findattr-from attr zero (a ∷ attrs) rest h b = absurd (omega arith)
findattr-from attr (suc fuel) (a ∷ attrs) rest h b =
    let whole : length (encode (a ∷ attrs)) ≡ align (4 + length a.payload) + length (encode attrs) =
      omega (arith, length-append (encode_attr a) (encode attrs), length-encode_attr a) in
    ap₂ (λ n m. bytes_of (findattr_from (suc fuel) attr n m)) whole
      (append_assoc (encode_attr a) (encode attrs) rest)
    ∙ elim (Bool-cases (a.type == attr)) [
      | inl t ↦ rw t (step_found attr fuel a h.0 attrs rest t)
      | inr t ↦ rw t (
          ap bytes_of (step_next attr fuel a h.0 attrs rest t)
          ∙ findattr-from attr fuel attrs rest h.1 (omega arith))
    ]

-- In a message of attributes as the kernel writes them, whatever stands behind it, `findattr` ends
-- with the payload of the first attribute of the type, and with NULL exactly where there is none;
-- more rounds than the message has bytes give the same.
pub findattr-encode :
    (attr fuel : ℕ) (attrs : List Attr) (rest : Text)
    → All IsEncodable attrs
    → length (encode attrs) ≤ fuel
    → (bytes_of (findattr attr (length (encode attrs)) (encode attrs ++ rest))
        ≡ some (lookup attr attrs))
      × (bytes_of (findattr_from fuel attr (length (encode attrs)) (encode attrs ++ rest))
          ≡ some (lookup attr attrs))
unfolding findattr
findattr-encode attr fuel attrs rest h b = (
  findattr-from attr (length (encode attrs)) attrs rest h (omega arith),
  findattr-from attr fuel attrs rest h b,
)
