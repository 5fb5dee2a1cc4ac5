-- ===== src/Types/Cbor/Sorting.antt =====
-- `content.sort()`: the result is sorted, has the same items, and a sorted list is left alone.
use dqcsim_rs.Common.{
  ℕ, ◌≡◌, refl, List, [], ◌∷◌, All, All-imp, length, true, false, Bool-cases, arith, inl, inr, suc,
}
use dqcsim_rs.Types.Cbor.{le_bytes, insert_sorted, sort}
use dqcsim_rs.Types.Cbor.Written.{IsSorted}

pub le_bytes_total : (xs ys : List ℕ) → le_bytes xs ys ≡ false → le_bytes ys xs ≡ true
unfolding le_bytes
le_bytes_total [] ys h = cc h
le_bytes_total (x ∷ xs) [] h = refl
le_bytes_total (x ∷ xs) (y ∷ ys) h = ground (arith, le_bytes_total xs ys)

le_bytes_trans :
    (xs ys zs : List ℕ) → le_bytes xs ys ≡ true → le_bytes ys zs ≡ true → le_bytes xs zs ≡ true
unfolding le_bytes
le_bytes_trans [] ys zs h k = refl
le_bytes_trans (x ∷ xs) [] zs h k = absurd (cc h)
le_bytes_trans (x ∷ xs) (y ∷ ys) [] h k = absurd (cc k)
le_bytes_trans (x ∷ xs) (y ∷ ys) (z ∷ zs) h k = ground (arith, le_bytes_trans xs ys zs)

All-insert_sorted {ℓ} :
    (P : List ℕ → Type ℓ) (x : List ℕ) (ys : List (List ℕ))
    → P x
    → All P ys
    → All P (insert_sorted x ys)
unfolding insert_sorted
All-insert_sorted P x [] h k = (h, tt)
All-insert_sorted P x (y ∷ ys) h k = elim (Bool-cases (le_bytes x y)) [
  | inl e ↦ rw e (h, k)
  | inr e ↦ rw e (k.0, All-insert_sorted P x ys h k.1)
]

pub All-sort {ℓ} : (P : List ℕ → Type ℓ) (xs : List (List ℕ)) → All P xs → All P (sort xs)
unfolding sort
All-sort P [] h = tt
All-sort P (x ∷ xs) h = All-insert_sorted P x (sort xs) h.0 (All-sort P xs h.1)

insert_sorted-IsSorted :
    (x : List ℕ) (ys : List (List ℕ)) → IsSorted ys → IsSorted (insert_sorted x ys)
unfolding insert_sorted
insert_sorted-IsSorted x [] h = (tt, tt)
insert_sorted-IsSorted x (y ∷ ys) h = elim (Bool-cases (le_bytes x y)) [
  | inl e ↦ rw e (
    (
      e,
      All-imp (λ z. le_bytes y z ≡ true) (λ z. le_bytes x z ≡ true)
          (λ z k. le_bytes_trans x y z e k) ys h.0,
    ),
    h,
  )
  | inr e ↦ rw e (
    All-insert_sorted (λ z. le_bytes y z ≡ true) x ys (le_bytes_total x y e) h.0,
    insert_sorted-IsSorted x ys h.1,
  )
]

pub sort-IsSorted : (xs : List (List ℕ)) → IsSorted (sort xs)
unfolding sort
sort-IsSorted [] = tt
sort-IsSorted (x ∷ xs) = insert_sorted-IsSorted x (sort xs) (sort-IsSorted xs)

length-insert_sorted :
    (x : List ℕ) (ys : List (List ℕ)) → length (insert_sorted x ys) ≡ suc (length ys)
unfolding insert_sorted
length-insert_sorted x [] = refl
length-insert_sorted x (y ∷ ys) = ground (arith, length-insert_sorted x ys)

pub length-sort : (xs : List (List ℕ)) → length (sort xs) ≡ length xs
unfolding sort
length-sort [] = refl
length-sort (x ∷ xs) = omega (arith, length-insert_sorted x (sort xs), length-sort xs)

insert_sorted-least :
    (x : List ℕ) (ys : List (List ℕ))
    → All (λ y. le_bytes x y ≡ true) ys
    → insert_sorted x ys ≡ x ∷ ys
unfolding insert_sorted
insert_sorted-least x [] h = refl
insert_sorted-least x (y ∷ ys) h = rw (h.0)

pub sort-sorted : (xs : List (List ℕ)) → IsSorted xs → sort xs ≡ xs
unfolding sort
sort-sorted [] h = refl
sort-sorted (x ∷ xs) h = rw (sort-sorted xs h.1) (insert_sorted-least x xs h.0)
