-- ===== src/Types/Cbor/Sound.antt =====
-- What `canonicalize_int` pushes is a value in canonical form.
use mathlib.Core.List.{append-nil}
use dqcsim_rs.Common.{
  ok-injective, ok_or, ℕ, zero, suc, ◌+◌, ◌^◌, ◌≤◌, ◌<◌, ◌≡◌, inl, inr, refl, subst, List, [], ◌∷◌,
  ◌++◌, Option, some, none, Outcome, ok, and_then, and_then-eq-ok, arith, length, ◌==◌,
  if◌then◌else◌, leb, Bool, true, false, Text, say, ◌||◌, Bool-cases, All, All-append,
}
use dqcsim_rs.Types.Cbor.{
  slice_from, at_break, entry_value, entry_pair, Entries, sequence, counted, until_break, string,
  array, dict, scalar, Contents, contents, contents_of, read_tag, Tag, canonicalize_int, sort,
  flatten, write_value, write_tag, shortest,
}
use dqcsim_rs.Types.Cbor.Consumed.{read_tag-IsTag}
use dqcsim_rs.Types.Cbor.Advances.{
  Consumes, entry_value-Advances, entry_pair-Advances, sequence-IsLoop, string-Advances, ok_or_ok,
  slice_from_ok,
}
use dqcsim_rs.Types.Cbor.Reads.{canonicalize_int-Consumes}
use dqcsim_rs.Types.Cbor.Written.{Form, number, simple, semantic, IsPair, IsWritten, IsSorted}
use dqcsim_rs.Types.Cbor.Written
use dqcsim_rs.Types.Cbor.Sorting.{All-sort, sort-IsSorted, length-sort}

-- Every entry that is read of the input satisfies the predicate.
abbrev Yields : (List ℕ → Type 0) → (List ℕ → ℕ → Outcome (ℕ × List ℕ)) → List ℕ → Type 0
Yields P entry input = (b : List ℕ) (i j : ℕ) → entry input i ≡ ok (j, b) → P b

counted-All :
    (P : List ℕ → Type 0) (entry : List ℕ → ℕ → Outcome (ℕ × List ℕ)) (n i : ℕ) (input : List ℕ)
    (c : List (List ℕ)) (s : Entries)
    → Yields P entry input
    → All P c
    → counted entry n input i c ≡ ok s
    → All P s.entries
unfolding counted
counted-All P entry zero i input c s y h e =
    subst (λ (s : Entries). All P s.entries) (ok-injective e) h
counted-All P entry (suc n) i input c s y h e =
    let (r, q, k) = and_then-eq-ok (entry input i) _ e in
    counted-All P entry n r.0 input (c ++ r.1 ∷ []) s y
      (All-append P c (r.1 ∷ []) h (y r.1 i r.0 q, tt)) k

until_break-All :
    (P : List ℕ → Type 0) (fuel : ℕ) (entry : List ℕ → ℕ → Outcome (ℕ × List ℕ)) (t : Text) (i : ℕ)
    (input : List ℕ) (c : List (List ℕ)) (s : Entries)
    → Yields P entry input
    → All P c
    → until_break fuel entry t input i c ≡ ok s
    → All P s.entries
unfolding until_break
until_break-All P zero entry t i input c s y h e = absurd (cc e)
until_break-All P (suc fuel) entry t i input c s y h e =
    let (b, q, k) = and_then-eq-ok (at_break input i t) _ e in
    go b (λ j c' h' k. until_break-All P fuel entry t j input c' s y h' k) k
  where
    go :
        (b : Bool)
        → ((j : ℕ) (c' : List (List ℕ))
            → All P c'
            → until_break fuel entry t input j c' ≡ ok s
            → All P s.entries)
        → (elim b as (λ _. Outcome Entries) [
          | true ↦ ok (record { entries = c; index = i + 1 })
          | false ↦
              and_then (entry input i) (λ (j, b). until_break fuel entry t input j (c ++ b ∷ []))
        ])
          ≡ ok s
        → All P s.entries
    go true ih k = subst (λ (s : Entries). All P s.entries) (ok-injective k) h
    go false ih k =
        let (r, m, l) = and_then-eq-ok (entry input i) _ k in
        ih r.0 (c ++ r.1 ∷ []) (All-append P c (r.1 ∷ []) h (y r.1 i r.0 m, tt)) l

sequence-All :
    (P : List ℕ → Type 0) (fuel : ℕ) (entry : List ℕ → ℕ → Outcome (ℕ × List ℕ)) (t : Text)
    (input : List ℕ) (count : Option ℕ) (s : Entries)
    → Yields P entry input
    → sequence fuel entry t input count ≡ ok s
    → All P s.entries
unfolding sequence
sequence-All P fuel entry t input none s y e = until_break-All P fuel entry t 0 input [] s y tt e
sequence-All P fuel entry t input (some n) s y e = counted-All P entry n 0 input [] s y tt e

-- A value is read in the forms of the predicate, at inputs that fit in memory.
module _ (fuel : ℕ) (value : List ℕ → Outcome (List ℕ × ℕ)) (c : Consumes value)
    (P : List ℕ → Type 0)
    (holds : (input out : List ℕ) (n : ℕ)
      → length input < 2 ^ 64
      → value input ≡ ok (out, n)
      → P out)
    (input : List ℕ) (fits : length input < 2 ^ 64) where
  entry_value-Yields : Yields P (entry_value value) input
  unfolding entry_value
  entry_value-Yields b i j e =
      let (rest, s, k) = and_then-eq-ok (slice_from input i) _ e in
      let (r, v, l) = and_then-eq-ok (value rest) _ k in
      let p = holds rest r.0 r.1 (omega (arith, slice_from_ok input rest i s)) v in subst P (cc l) p

  entry_pair-Yields : Yields (IsPair P) (entry_pair value) input
  unfolding entry_pair
  entry_pair-Yields b i j e =
      let (r, s, k) = and_then-eq-ok (entry_value value input i) _ e in
      let (q, v, l) = and_then-eq-ok (entry_value value input r.0) _ k in
      record {
        key = r.1;
        value = q.1;
        joined = cc l;
        key_holds = entry_value-Yields r.1 i r.0 s;
        value_holds = entry_value-Yields q.1 r.0 q.0 v;
      }

  array_form :
      (t : Text) (a : Option ℕ) (minor : ℕ) (r : Contents)
      → and_then (sequence fuel (entry_value value) t input a) array ≡ ok r
      → Form P (write_value 4 minor r)
  unfolding write_value
  array_form t a minor r e =
      let (s, q, k) = and_then-eq-ok (sequence fuel (entry_value value) t input a) array e in
      let loop =
        sequence-IsLoop fuel (entry_value value) t input a s (entry_value-Advances value c) q in
      let made : Form P
          (write_tag 4 (shortest (length s.entries)) (length s.entries) ++ flatten s.entries) =
        Written.array s.entries
          (sequence-All P fuel (entry_value value) t input a s entry_value-Yields q) (omega arith)
          refl in
      subst (λ (r : Contents). Form P (write_value 4 minor r)) (ok-injective k) made

  dict_form :
      (t : Text) (a : Option ℕ) (minor : ℕ) (r : Contents)
      → and_then (sequence fuel (entry_pair value) t input a) dict ≡ ok r
      → Form P (write_value 5 minor r)
  unfolding write_value
  dict_form t a minor r e =
      let (s, q, k) = and_then-eq-ok (sequence fuel (entry_pair value) t input a) dict e in
      let loop =
        sequence-IsLoop fuel (entry_pair value) t input a s (entry_pair-Advances value c) q in
      let pairs =
        All-sort (IsPair P) s.entries
          (sequence-All (IsPair P) fuel (entry_pair value) t input a s entry_pair-Yields q) in
      let made : Form P (
          write_tag 5 (shortest (length s.entries)) (length s.entries)
          ++ flatten (sort s.entries)) =
        Written.dict (sort s.entries) pairs (sort-IsSorted s.entries)
          (omega (arith, length-sort s.entries)) (rw (length-sort s.entries)) in
      subst (λ (r : Contents). Form P (write_value 5 minor r)) (ok-injective k) made

  semantic_form :
      (t : Text) (a : Option ℕ) (minor : ℕ) (r : Contents)
      → ((n : ℕ) → a ≡ some n → n < 2 ^ 64)
      → and_then
          (ok_or a t)
          (λ a. and_then (value input) (λ (content, len). contents content len a))
        ≡ ok r
      → Form P (write_value 6 minor r)
  unfolding write_value
  semantic_form t a minor r b e =
      let (n, q, k) = and_then-eq-ok (ok_or a t) _ e in
      let (p, v, l) = and_then-eq-ok (value input) _ k in
      let made : Form P (write_tag 6 (shortest n) n ++ p.0) =
        semantic n p.0 (holds input p.0 p.1 fits v) (b n (ok_or_ok a t n q)) refl in
      subst (λ (r : Contents). Form P (write_value 6 minor r)) (ok-injective l) made

  scalar_form :
      (major minor : ℕ) (a : Option ℕ) (r : Contents)
      → ((n : ℕ) → a ≡ some n → n < 2 ^ 64)
      → ((n : ℕ) → a ≡ some n → minor ≤ 27)
      → ((n : ℕ) → a ≡ some n → minor ≤ 23 → n ≡ minor)
      → (leb major 1 || major == 7) ≡ true
      → scalar a ≡ ok r
      → Form P (write_value major minor r)
  unfolding write_value
  scalar_form major minor a r b l d m e =
      let (n, q, k) = and_then-eq-ok (ok_or a _) _ e in
      let some_n = ok_or_ok a _ n q in
      let made : Form P (write_tag major (if major == 7 then minor else shortest n) n ++ []) =
        elim (Bool-cases (major == 7)) [
          | inl s ↦ simple minor n (l n some_n) (d n some_n) (rw (append-nil, s) (ground arith))
          | inr s ↦ number major n (ground arith) (b n some_n) (rw (append-nil, s))
        ] in
      subst (λ (r : Contents). Form P (write_value major minor r)) (ok-injective k) made

  string_form :
      (major minor : ℕ) (a : Option ℕ) (r : Contents)
      → 2 ≤ major
      → major ≤ 3
      → string fuel major input a ≡ ok r
      → Form P (write_value major minor r)
  unfolding write_value
  string_form major minor a r l m e =
      let (u, v, w) = string-Advances fuel major input a r e in
      let s : (major == 7) ≡ false = ground arith in
      Written.string major r.content l m (omega arith) (rw (s, w))

  contents_of-form :
      (t : Tag) (r : Contents)
      → ((n : ℕ) → t.additional ≡ some n → n < 2 ^ 64)
      → ((n : ℕ) → t.additional ≡ some n → t.minor ≤ 27)
      → ((n : ℕ) → t.additional ≡ some n → t.minor ≤ 23 → n ≡ t.minor)
      → contents_of fuel value t.major t.additional input ≡ ok r
      → Form P (write_value t.major t.minor r)
  unfolding contents_of
  contents_of-form t r b l d e = elim (Bool-cases (leb t.major 1 || t.major == 7)) [
    | inl m ↦ scalar_form t.major t.minor t.additional r b l d m (rw m at e)
    | inr m ↦ elim (Bool-cases (leb t.major 3)) [
      | inl m' ↦
          string_form t.major t.minor t.additional r (ground arith) (ground arith) (ground arith)
      | inr m' ↦ elim (Bool-cases (t.major == 4)) [
        | inl f ↦
            subst (λ (n : ℕ). Form P (write_value n t.minor r)) {x = 4} (ground arith)
              (array_form (say "invalid CBOR: incomplete indefinite-length array") t.additional
                t.minor r (ground arith))
        | inr f ↦ elim (Bool-cases (t.major == 5)) [
          | inl g ↦
              subst (λ (n : ℕ). Form P (write_value n t.minor r)) {x = 5} (ground arith)
                (dict_form (say "invalid CBOR: incomplete indefinite-length dict") t.additional
                  t.minor r (ground arith))
          | inr g ↦ elim (Bool-cases (t.major == 6)) [
            | inl h ↦
                subst (λ (n : ℕ). Form P (write_value n t.minor r)) {x = 6} (ground arith)
                  (semantic_form (say "invalid CBOR: indefinite length tag for semantic tag")
                    t.additional t.minor r b (ground arith))
            | inr h ↦ absurd (ground arith)
          ]
        ]
      ]
    ]
  ]

-- A call that succeeds pushes a value in canonical form, of no deeper nesting than its fuel.
pub canonicalize_int-IsWritten :
    (fuel : ℕ) (input out : List ℕ) (n : ℕ)
    → length input < 2 ^ 64
    → canonicalize_int fuel input ≡ ok (out, n)
    → IsWritten fuel out
unfolding canonicalize_int
canonicalize_int-IsWritten zero input out n l e = absurd (cc e)
canonicalize_int-IsWritten (suc fuel) input out n l e =
    let (t, q, k) = and_then-eq-ok (read_tag input) _ e in
    let (rest, s, k') = and_then-eq-ok (slice_from input t.tag_len) _ k in
    let (r, m, f) =
      and_then-eq-ok (contents_of (suc fuel) (canonicalize_int fuel) t.major t.additional rest) _
        k' in
    let tag = read_tag-IsTag input t q in
    let made : Form (IsWritten fuel) (write_value t.major t.minor r) =
      contents_of-form (suc fuel) (canonicalize_int fuel) (canonicalize_int-Consumes fuel)
        (IsWritten fuel) (canonicalize_int-IsWritten fuel) rest
        (omega (arith, slice_from_ok input rest t.tag_len s)) t r tag.below tag.minor_le tag.direct
        m in
    subst (Form (IsWritten fuel)) (cc f) made
