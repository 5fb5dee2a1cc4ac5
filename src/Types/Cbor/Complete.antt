-- ===== src/Types/Cbor/Complete.antt =====
-- A value in canonical form is read back unchanged, whatever stands behind it.
use mathlib.Core.List.{append-nil, append_assoc}
use dqcsim_rs.Common.{
  ℕ, zero, suc, ◌+◌, ◌≤◌, ◌<◌, ◌≡◌, ◌⊎◌, inl, inr, refl, sym, ◌∙◌, ap, List, [], ◌∷◌, ◌++◌, some,
  Outcome, ok, arith, length, length-append, ◌==◌, if◌then◌else◌, All, take, drop,
}
use dqcsim_rs.Types.Cbor.{
  slice_from, entry_value, entry_pair, sequence, counted, string, contents, contents_of, read_tag,
  canonicalize_int, flatten, write_value, write_tag, shortest, get_range,
}
use dqcsim_rs.Types.Cbor.Header.{
  tag, cut, read_tag-write_tag, read_tag-write_tag_simple, write_tag-cut,
}
use dqcsim_rs.Types.Cbor.Written.{Form, number, simple, semantic, IsPair, IsWritten, IsSorted}
use dqcsim_rs.Types.Cbor.Written
use dqcsim_rs.Types.Cbor.Sorting.{sort-sorted}

drop-append {ℓ} : {A : Type ℓ} (xs ys : List A) → drop (length xs) (xs ++ ys) ≡ ys
drop-append [] ys = refl
drop-append (x ∷ xs) ys = drop-append xs ys

take-append {ℓ} : {A : Type ℓ} (xs ys : List A) → take (length xs) (xs ++ ys) ≡ xs
take-append [] ys = refl
take-append (x ∷ xs) ys = rw (take-append xs ys)

slice_from-append : (xs ys : List ℕ) → slice_from (xs ++ ys) (length xs) ≡ ok ys
unfolding slice_from
slice_from-append xs ys = ground (arith, drop-append xs ys, length-append xs ys)

get_range-append : (xs ys : List ℕ) → get_range (xs ++ ys) 0 (length xs) ≡ some xs
unfolding get_range
get_range-append xs ys = ground (arith, take-append xs ys, length-append xs ys)

-- A reader of one value that yields it unchanged, up to a length.
abbrev Reproduces : (List ℕ → Outcome (List ℕ × ℕ)) → (List ℕ → Type 0) → ℕ → Type 0
Reproduces value P n = (x rest : List ℕ) → P x → length x < n → value (x ++ rest) ≡ ok (x, length x)

-- The same of a reader of one entry, behind any bytes.
abbrev EntryReproduces : (List ℕ → ℕ → Outcome (ℕ × List ℕ)) → (List ℕ → Type 0) → ℕ → Type 0
EntryReproduces entry P n =
    (pre x rest : List ℕ)
    → P x
    → length x < n
    → entry (pre ++ (x ++ rest)) (length pre) ≡ ok (length (pre ++ x), x)

entry_value-EntryReproduces :
    (value : List ℕ → Outcome (List ℕ × ℕ)) (P : List ℕ → Type 0) (n : ℕ)
    → Reproduces value P n
    → EntryReproduces (entry_value value) P n
unfolding entry_value
entry_value-EntryReproduces value P n h pre x rest p l =
    rw (slice_from-append pre (x ++ rest)) (rw (h x rest p l) (rw (length-append pre x)))

entry_pair-EntryReproduces :
    (value : List ℕ → Outcome (List ℕ × ℕ)) (P : List ℕ → Type 0) (n : ℕ)
    → Reproduces value P n
    → EntryReproduces (entry_pair value) (IsPair P) n
unfolding entry_pair
entry_pair-EntryReproduces value P n h pre x rest p l = rw (p.joined) two
  where
    one :
        entry_value value (pre ++ ((p.key ++ p.value) ++ rest)) (length pre)
        ≡ ok (length (pre ++ p.key), p.key)
    one = rw (append_assoc p.key p.value rest) (
        entry_value-EntryReproduces value P n h pre p.key (p.value ++ rest) p.key_holds
          (omega (arith, ap length p.joined, length-append p.key p.value)))

    next :
        entry_value value (pre ++ ((p.key ++ p.value) ++ rest)) (length (pre ++ p.key))
        ≡ ok (length (pre ++ (p.key ++ p.value)), p.value)
    next = rw (append_assoc p.key p.value rest) (
        rw (← append_assoc pre p.key (p.value ++ rest)) (
          rw (← append_assoc pre p.key p.value) (
            entry_value-EntryReproduces value P n h (pre ++ p.key) p.value rest p.value_holds
              (omega (arith, ap length p.joined, length-append p.key p.value)))))

    two :
        entry_pair value (pre ++ ((p.key ++ p.value) ++ rest)) (length pre)
        ≡ ok (length (pre ++ (p.key ++ p.value)), p.key ++ p.value)
    two = rw one (rw next)

counted-flatten :
    (entry : List ℕ → ℕ → Outcome (ℕ × List ℕ)) (P : List ℕ → Type 0) (n : ℕ) (pre rest : List ℕ)
    (c xss : List (List ℕ))
    → EntryReproduces entry P n
    → All P xss
    → length (flatten xss) < n
    → counted entry (length xss) (pre ++ (flatten xss ++ rest)) (length pre) c
      ≡ ok (record { entries = c ++ xss; index = length pre + length (flatten xss) })
unfolding counted flatten
counted-flatten entry P n pre rest c [] h a l = ground (arith, append-nil c)
counted-flatten entry P n pre rest c (x ∷ xss) h a l =
    let parts : length (x ++ flatten xss) ≡ length x + length (flatten xss) =
      length-append x (flatten xss) in
    rw (append_assoc x (flatten xss) rest) (
      rw (h pre x (flatten xss ++ rest) a.0 (omega arith)) (
        rw (← append_assoc pre x (flatten xss ++ rest)) (
          counted-flatten entry P n (pre ++ x) rest (c ++ x ∷ []) xss h a.1 (omega arith)
          ∙ ground (arith, append_assoc c (x ∷ []) xss, length-append pre x, parts))))

-- `canonicalize_int` on a tag and a content that `contents_of` reads back to the same bytes.
canonicalize_int-written :
    (fuel major minor a : ℕ) (out tag_out content rest : List ℕ)
    → ((rest : List ℕ) → read_tag (tag_out ++ rest) ≡ ok (tag major minor a (length tag_out)))
    → contents_of (suc fuel) (canonicalize_int fuel) major (some a) (content ++ rest)
      ≡ contents content (length content) a
    → write_tag major (if major == 7 then minor else shortest a) a ≡ tag_out
    → out ≡ tag_out ++ content
    → canonicalize_int (suc fuel) (out ++ rest) ≡ ok (out, length out)
unfolding canonicalize_int write_value
canonicalize_int-written fuel major minor a out tag_out content rest r c w e = rw (
  e,
  append_assoc tag_out content rest,
  r (content ++ rest),
  slice_from-append tag_out (content ++ rest),
  c,
  w,
  length-append tag_out content,
)

content-lt :
    (major minor a n : ℕ) (out content : List ℕ)
    → out ≡ write_tag major minor a ++ content
    → length out < suc n
    → length content < n
unfolding write_tag
content-lt major minor a n out content e l =
    omega (arith, ap length e, length-append (write_tag major minor a) content)

module _ (fuel : ℕ) (P : List ℕ → Type 0) (rest : List ℕ)
    (again : Reproduces (canonicalize_int fuel) P fuel) where
  array-written :
      (values : List (List ℕ))
      → All P values
      → length (flatten values) < fuel
      → contents_of
          (suc fuel)
          (canonicalize_int fuel)
          4
          (some (length values))
          (flatten values ++ rest)
        ≡ contents (flatten values) (length (flatten values)) (length values)
  unfolding contents_of sequence
  array-written values h l =
      rw
        (counted-flatten (entry_value (canonicalize_int fuel)) P fuel [] rest [] values
          (entry_value-EntryReproduces (canonicalize_int fuel) P fuel again) h l)
        (ground arith)

  dict-written :
      (pairs : List (List ℕ))
      → All (IsPair P) pairs
      → IsSorted pairs
      → length (flatten pairs) < fuel
      → contents_of
          (suc fuel)
          (canonicalize_int fuel)
          5
          (some (length pairs))
          (flatten pairs ++ rest)
        ≡ contents (flatten pairs) (length (flatten pairs)) (length pairs)
  unfolding contents_of sequence
  dict-written pairs h s l =
      rw
        (counted-flatten (entry_pair (canonicalize_int fuel)) (IsPair P) fuel [] rest [] pairs
          (entry_pair-EntryReproduces (canonicalize_int fuel) P fuel again) h l)
        (rw (sort-sorted pairs s) (ground arith))

  semantic-written :
      (a : ℕ) (content : List ℕ)
      → P content
      → length content < fuel
      → contents_of (suc fuel) (canonicalize_int fuel) 6 (some a) (content ++ rest)
        ≡ contents content (length content) a
  unfolding contents_of
  semantic-written a content p l = rw (again content rest p l)

string-written :
    (fuel major : ℕ) (value : List ℕ → Outcome (List ℕ × ℕ)) (content rest : List ℕ)
    → 2 ≤ major
    → major ≤ 3
    → contents_of fuel value major (some (length content)) (content ++ rest)
      ≡ contents content (length content) (length content)
unfolding contents_of string
string-written fuel major value content rest l m = ground (arith, get_range-append content rest)

scalar-written :
    (fuel major a : ℕ) (value : List ℕ → Outcome (List ℕ × ℕ)) (rest : List ℕ)
    → (major ≤ 1) ⊎ (major ≡ 7)
    → contents_of fuel value major (some a) rest ≡ contents [] 0 a
unfolding contents_of
scalar-written fuel major a value rest (inl l) = ground arith
scalar-written fuel major a value rest (inr e) = ground arith

Form-written :
    (fuel : ℕ) (P : List ℕ → Type 0) (out rest : List ℕ)
    → Reproduces (canonicalize_int fuel) P fuel
    → Form P out
    → length out < suc fuel
    → canonicalize_int (suc fuel) (out ++ rest) ≡ ok (out, length out)
Form-written fuel P out rest again (number major a l b e) n =
    canonicalize_int-written fuel major (shortest a) a out _ [] rest
      (λ rest. read_tag-write_tag major a rest (omega arith) b)
      (scalar-written (suc fuel) major a _ rest (inl l)) (ground arith)
      (e ∙ sym (append-nil (write_tag major (shortest a) a)))
Form-written fuel P out rest again (simple minor a l d e) n =
    canonicalize_int-written fuel 7 minor (cut minor a) out _ [] rest
      (λ rest. read_tag-write_tag_simple minor a rest l d)
      (scalar-written (suc fuel) 7 (cut minor a) _ rest (inr refl)) (write_tag-cut minor a)
      (e ∙ sym (append-nil (write_tag 7 minor a)))
Form-written fuel P out rest again (Written.string major content l m b e) n =
    canonicalize_int-written fuel major (shortest (length content)) (length content) out _ content
      rest (λ rest. read_tag-write_tag major (length content) rest (omega arith) b)
      (string-written (suc fuel) major _ content rest l m) (ground arith) e
Form-written fuel P out rest again (Written.array values h b e) n =
    canonicalize_int-written fuel 4 (shortest (length values)) (length values) out _
      (flatten values) rest (λ rest. read_tag-write_tag 4 (length values) rest (omega arith) b)
      (array-written fuel P rest again values h (content-lt _ _ _ fuel out (flatten values) e n))
      refl e
Form-written fuel P out rest again (Written.dict pairs h s b e) n =
    canonicalize_int-written fuel 5 (shortest (length pairs)) (length pairs) out _ (flatten pairs)
      rest (λ rest. read_tag-write_tag 5 (length pairs) rest (omega arith) b)
      (dict-written fuel P rest again pairs h s (content-lt _ _ _ fuel out (flatten pairs) e n))
      refl e
Form-written fuel P out rest again (semantic a content p b e) n =
    canonicalize_int-written fuel 6 (shortest a) a out _ content rest
      (λ rest. read_tag-write_tag 6 a rest (omega arith) b)
      (semantic-written fuel P rest again a content p (content-lt _ _ _ fuel out content e n)) refl
      e

-- With more fuel than bytes, a value in canonical form is pushed as it is, and exactly its bytes
-- are read.
pub canonicalize_int-canonical :
    (depth fuel : ℕ) (out rest : List ℕ)
    → IsWritten depth out
    → length out < fuel
    → canonicalize_int fuel (out ++ rest) ≡ ok (out, length out)
canonicalize_int-canonical zero fuel out rest c l = absurd c
canonicalize_int-canonical (suc depth) zero out rest c l = elim l [ ]
canonicalize_int-canonical (suc depth) (suc fuel) out rest c l =
    Form-written fuel (IsWritten depth) out rest
      (λ x more h k. canonicalize_int-canonical depth fuel x more h k) c l
