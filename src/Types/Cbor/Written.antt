-- ===== src/Types/Cbor/Written.antt =====
-- The forms in which the code writes a canonical value, over its own tags and its own order of bytes.
use dqcsim_rs.Common.{ℕ, zero, suc, ◌^◌, ◌≤◌, ◌<◌, ◌≡◌, List, [], ◌∷◌, ◌++◌, All, length, true}
use dqcsim_rs.Types.Cbor.{write_tag, shortest, flatten, le_bytes}

-- Every item is at most the later ones.
abbrev pub IsSorted : List (List ℕ) → Type 0
IsSorted [] = Unit
IsSorted (x ∷ xs) = All (λ y. le_bytes x y ≡ true) xs × IsSorted xs

-- A key and its value.
pub record IsPair (P : List ℕ → Type 0) (out : List ℕ) : Type 0 where
  pub key : List ℕ
  pub value : List ℕ
  pub joined : out ≡ key ++ value
  pub key_holds : P key
  pub value_holds : P value

-- The forms of a value, over a predicate for the values inside.
pub data Form (P : List ℕ → Type 0) (out : List ℕ) : Type 0 where
  number :
      (major a : ℕ) → major ≤ 1 → a < 2 ^ 64 → out ≡ write_tag major (shortest a) a → Form P out
  simple :
      (minor a : ℕ) → minor ≤ 27 → (minor ≤ 23 → a ≡ minor) → out ≡ write_tag 7 minor a → Form P out
  string :
      (major : ℕ) (content : List ℕ)
      → 2 ≤ major
      → major ≤ 3
      → length content < 2 ^ 64
      → out ≡ write_tag major (shortest (length content)) (length content) ++ content
      → Form P out
  array :
      (values : List (List ℕ))
      → All P values
      → length values < 2 ^ 64
      → out ≡ write_tag 4 (shortest (length values)) (length values) ++ flatten values
      → Form P out
  dict :
      (pairs : List (List ℕ))
      → All (IsPair P) pairs
      → IsSorted pairs
      → length pairs < 2 ^ 64
      → out ≡ write_tag 5 (shortest (length pairs)) (length pairs) ++ flatten pairs
      → Form P out
  semantic :
      (a : ℕ) (content : List ℕ)
      → P content
      → a < 2 ^ 64
      → out ≡ write_tag 6 (shortest a) a ++ content
      → Form P out

-- Written so with at most `depth` levels of nesting.
abbrev pub IsWritten : ℕ → List ℕ → Type 0
IsWritten zero out = ⊥
IsWritten (suc depth) out = Form (IsWritten depth) out
