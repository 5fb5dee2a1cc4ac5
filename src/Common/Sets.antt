-- ===== src/Common/Sets.antt =====
-- Lists of numbers as the hash sets of the program: what insertion and collection do to membership.
use dqcsim_rs.Common.Tests.{◌==◌}
use dqcsim_rs.Common.Lists.{contains, insert, collect}
use Prim.Native.Nat.{ℕ}
use mathlib.Core.Path.{◌≡◌, refl}
use mathlib.Core.Bool.{false, ◌||◌}
use mathlib.Core.List.{List, [], ◌∷◌, ◌++◌}
use native.Mathlib.Omega.{arith}

-- No item occurs twice.
abbrev pub Distinct : List ℕ → Type 0
Distinct [] = Unit
Distinct (x ∷ xs) = (contains xs x ≡ false) × Distinct xs

-- None of the items is in the set.
abbrev pub Outside : List ℕ → List ℕ → Type 0
Outside set [] = Unit
Outside set (x ∷ xs) = (contains set x ≡ false) × Outside set xs

pub contains-nil : (a : ℕ) → contains [] a ≡ false
unfolding contains
contains-nil a = refl

pub contains-cons : (x a : ℕ) (xs : List ℕ) → contains (x ∷ xs) a ≡ (x == a || contains xs a)
unfolding contains
contains-cons x a xs = refl

pub contains-append :
    (xs ys : List ℕ) (a : ℕ) → contains (xs ++ ys) a ≡ (contains xs a || contains ys a)
unfolding contains
contains-append [] ys a = refl
contains-append (x ∷ xs) ys a = ground (arith, contains-append xs ys a)

contains_eq : (xs : List ℕ) (a b : ℕ) → a ≡ b → contains xs a ≡ contains xs b
contains_eq xs a b e = rw e

pub contains-insert : (xs : List ℕ) (a b : ℕ) → contains (insert xs a) b ≡ (contains xs b || a == b)
unfolding insert
contains-insert xs a b =
    ground (
      arith,
      contains-append xs (a ∷ []) b,
      contains-cons a b [],
      contains-nil b,
      contains_eq xs a b,
    )

pub Outside-insert :
    (set xs : List ℕ) (a : ℕ) → Outside (insert set a) xs → Outside set xs × (contains xs a ≡ false)
Outside-insert set [] a h = (tt, contains-nil a)
Outside-insert set (x ∷ xs) a h =
    ground (arith, Outside-insert set xs a h.1, contains-insert set a x, contains-cons x a xs)

pub Outside-insert_of :
    (set xs : List ℕ) (a : ℕ) → Outside set xs → contains xs a ≡ false → Outside (insert set a) xs
Outside-insert_of set [] a h k = tt
Outside-insert_of set (x ∷ xs) a h k =
    ground (arith, Outside-insert_of set xs a h.1, contains-insert set a x, contains-cons x a xs)

pub contains-collect :
    (set xs : List ℕ) (a : ℕ) → contains (collect set xs) a ≡ (contains set a || contains xs a)
unfolding collect
contains-collect set [] a = ground (arith, contains-nil a)
contains-collect set (x ∷ xs) a =
    ground
      (arith, contains-collect (insert set x) xs a, contains-insert set x a, contains-cons x a xs)
