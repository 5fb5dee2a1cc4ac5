-- ===== src/Types/Cbor/Canonical.antt =====
-- What it means for bytes to be a CBOR value in canonical form, in terms of the bytes alone: the shortest
-- tag, definite lengths, and the pairs of a dictionary in the order of their bytes.
use dqcsim_rs.Common.{
  ℕ, zero, suc, ◌+◌, ◌*◌, ◌/◌, ◌%◌, ◌^◌, ◌≤◌, ◌<◌, ◌≡◌, ◌⊎◌, ltb, ◌==◌, if◌then◌else◌, List, [],
  ◌∷◌, ◌++◌, All, length,
}

-- A number in 1, 2, 4 or 8 bytes, the most significant one first.
abbrev pub one_byte : ℕ → List ℕ
one_byte a = (a % 256) ∷ []

abbrev pub two_bytes : ℕ → List ℕ
two_bytes a = (a / 256 % 256) ∷ (a % 256) ∷ []

abbrev pub four_bytes : ℕ → List ℕ
four_bytes a = (a / 256 ^ 3 % 256) ∷ (a / 256 ^ 2 % 256) ∷ (a / 256 % 256) ∷ (a % 256) ∷ []

abbrev pub eight_bytes : ℕ → List ℕ
eight_bytes a =
    (a / 256 ^ 7 % 256)
    ∷ (a / 256 ^ 6 % 256)
    ∷ (a / 256 ^ 5 % 256)
    ∷ (a / 256 ^ 4 % 256)
    ∷ four_bytes a

-- The shortest tag of a major type with a number: up to 23 the number stands in the initial byte, and
-- else it follows in the least of 1, 2, 4 and 8 bytes that hold it.
abbrev pub header : ℕ → ℕ → List ℕ
header major a =
    if ltb a 24
    then (major * 32 + a) ∷ []
    else if ltb a 256
    then (major * 32 + 24) ∷ one_byte a
    else if ltb a 65536
    then (major * 32 + 25) ∷ two_bytes a
    else if ltb a 4294967296
    then (major * 32 + 26) ∷ four_bytes a
    else (major * 32 + 27) ∷ eight_bytes a

-- A simple value, or a float of the width that its minor type says.
abbrev pub simple_header : ℕ → ℕ → List ℕ
simple_header minor a =
    if minor == 24
    then 248 ∷ one_byte a
    else if minor == 25
    then 249 ∷ two_bytes a
    else if minor == 26
    then 250 ∷ four_bytes a
    else if minor == 27
    then 251 ∷ eight_bytes a
    else (224 + minor) ∷ []

-- The lexicographic order of bytes, in which a text comes before its extensions.
abbrev pub Precedes : List ℕ → List ℕ → Type 0
Precedes [] ys = Unit
Precedes (x ∷ xs) [] = ⊥
Precedes (x ∷ xs) (y ∷ ys) = (x < y) ⊎ ((x ≡ y) × Precedes xs ys)

-- Every item is at most the later ones.
abbrev pub IsOrdered : List (List ℕ) → Type 0
IsOrdered [] = Unit
IsOrdered (x ∷ xs) = All (Precedes x) xs × IsOrdered xs

abbrev pub joined : List (List ℕ) → List ℕ
joined [] = []
joined (x ∷ xs) = x ++ joined xs

-- A key and its value.
pub record IsEntry (P : List ℕ → Type 0) (out : List ℕ) : Type 0 where
  pub key : List ℕ
  pub value : List ℕ
  pub parts : out ≡ key ++ value
  pub key_holds : P key
  pub value_holds : P value

-- The forms of a value, over a predicate for the values inside.
pub data CanonicalForm (P : List ℕ → Type 0) (out : List ℕ) : Type 0 where
  number : (major a : ℕ) → major ≤ 1 → a < 2 ^ 64 → out ≡ header major a → CanonicalForm P out
  simple :
      (minor a : ℕ)
      → minor ≤ 27
      → (minor ≤ 23 → a ≡ minor)
      → out ≡ simple_header minor a
      → CanonicalForm P out
  string :
      (major : ℕ) (content : List ℕ)
      → 2 ≤ major
      → major ≤ 3
      → length content < 2 ^ 64
      → out ≡ header major (length content) ++ content
      → CanonicalForm P out
  array :
      (values : List (List ℕ))
      → All P values
      → length values < 2 ^ 64
      → out ≡ header 4 (length values) ++ joined values
      → CanonicalForm P out
  dict :
      (pairs : List (List ℕ))
      → All (IsEntry P) pairs
      → IsOrdered pairs
      → length pairs < 2 ^ 64
      → out ≡ header 5 (length pairs) ++ joined pairs
      → CanonicalForm P out
  semantic :
      (a : ℕ) (content : List ℕ)
      → P content
      → a < 2 ^ 64
      → out ≡ header 6 a ++ content
      → CanonicalForm P out

-- Canonical with at most `depth` levels of nesting.
abbrev pub IsCanonical : ℕ → List ℕ → Type 0
IsCanonical zero out = ⊥
IsCanonical (suc depth) out = CanonicalForm (IsCanonical depth) out
