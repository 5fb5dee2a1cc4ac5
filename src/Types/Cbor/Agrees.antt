-- ===== src/Types/Cbor/Agrees.antt =====
-- The code writes the canonical form: its tags are the shortest ones, and its order is that of the bytes.
use dqcsim_rs.Common.{
  ℕ, zero, suc, ◌≤◌, ◌≡◌, refl, sym, ◌∙◌, ap, ◌==◌, List, [], ◌∷◌, ◌++◌, All-imp, length, true,
  Bool-cases, inl, inr, arith,
}
use dqcsim_rs.Types.Cbor.{write_tag, tag_bytes, u64_as_bytes, shortest, flatten, le_bytes}
use dqcsim_rs.Types.Cbor.Written.{Form, IsPair, IsWritten, IsSorted}
use dqcsim_rs.Types.Cbor.Written
use dqcsim_rs.Types.Cbor.Canonical
use dqcsim_rs.Types.Cbor.Canonical.{
  header, simple_header, Precedes, IsOrdered, joined, IsEntry, CanonicalForm, IsCanonical,
}

write_tag-header : (major a : ℕ) → write_tag major (shortest a) a ≡ header major a
unfolding write_tag tag_bytes u64_as_bytes shortest
write_tag-header major a = ground arith

write_tag-simple : (minor a : ℕ) → minor ≤ 27 → write_tag 7 minor a ≡ simple_header minor a
unfolding write_tag tag_bytes u64_as_bytes
write_tag-simple minor a h = ground arith

le_bytes-Precedes : (xs ys : List ℕ) → le_bytes xs ys ≡ true → Precedes xs ys
unfolding le_bytes
le_bytes-Precedes [] ys h = tt
le_bytes-Precedes (x ∷ xs) [] h = cc h
le_bytes-Precedes (x ∷ xs) (y ∷ ys) h = elim (Bool-cases (x == y)) [
  | inl e ↦ inr (ground (arith, e), le_bytes-Precedes xs ys (rw e at h))
  | inr e ↦ inl (ground (arith, h, e))
]

Precedes-le_bytes : (xs ys : List ℕ) → Precedes xs ys → le_bytes xs ys ≡ true
unfolding le_bytes
Precedes-le_bytes [] ys h = refl
Precedes-le_bytes (x ∷ xs) [] h = absurd h
Precedes-le_bytes (x ∷ xs) (y ∷ ys) (inl l) = ground (arith, l)
Precedes-le_bytes (x ∷ xs) (y ∷ ys) (inr (e, h)) = ground (arith, e, Precedes-le_bytes xs ys h)

IsSorted-IsOrdered : (xs : List (List ℕ)) → IsSorted xs → IsOrdered xs
IsSorted-IsOrdered [] h = tt
IsSorted-IsOrdered (x ∷ xs) h = (
  All-imp (λ y. le_bytes x y ≡ true) (Precedes x) (le_bytes-Precedes x) xs h.0,
  IsSorted-IsOrdered xs h.1,
)

IsOrdered-IsSorted : (xs : List (List ℕ)) → IsOrdered xs → IsSorted xs
IsOrdered-IsSorted [] h = tt
IsOrdered-IsSorted (x ∷ xs) h = (
  All-imp (Precedes x) (λ y. le_bytes x y ≡ true) (Precedes-le_bytes x) xs h.0,
  IsOrdered-IsSorted xs h.1,
)

flatten-joined : (xs : List (List ℕ)) → flatten xs ≡ joined xs
unfolding flatten
flatten-joined [] = refl
flatten-joined (x ∷ xs) = ap (λ (ys : List ℕ). x ++ ys) (flatten-joined xs)

-- A tag and what follows it.
with_content :
    (major a : ℕ) (xs ys : List ℕ)
    → xs ≡ ys
    → write_tag major (shortest a) a ++ xs ≡ header major a ++ ys
with_content major a xs ys e =
    ap (λ (t : List ℕ). t ++ xs) (write_tag-header major a)
    ∙ ap (λ (c : List ℕ). header major a ++ c) e

module _ (P Q : List ℕ → Type 0) where
  CanonicalForm-Form :
      ((out : List ℕ) → P out → Q out) → (out : List ℕ) → Form P out → CanonicalForm Q out
  CanonicalForm-Form f out (Written.number major a l b e) =
      Canonical.number major a l b (e ∙ write_tag-header major a)
  CanonicalForm-Form f out (Written.simple minor a l d e) =
      Canonical.simple minor a l d (e ∙ write_tag-simple minor a l)
  CanonicalForm-Form f out (Written.string major content l m b e) =
      Canonical.string major content l m b
        (e ∙ with_content major (length content) content content refl)
  CanonicalForm-Form f out (Written.array values h b e) =
      Canonical.array values (All-imp P Q f values h) b
        (e ∙ with_content 4 (length values) _ _ (flatten-joined values))
  CanonicalForm-Form f out (Written.dict pairs h s b e) =
      Canonical.dict pairs
        (All-imp (IsPair P) (IsEntry Q)
          (λ p k. record {
            key = k.key;
            value = k.value;
            parts = k.joined;
            key_holds = f k.key k.key_holds;
            value_holds = f k.value k.value_holds;
          })
          pairs h)
        (IsSorted-IsOrdered pairs s) b
        (e ∙ with_content 5 (length pairs) _ _ (flatten-joined pairs))
  CanonicalForm-Form f out (Written.semantic a content h b e) =
      Canonical.semantic a content (f content h) b (e ∙ with_content 6 a content content refl)

  Form-CanonicalForm :
      ((out : List ℕ) → Q out → P out) → (out : List ℕ) → CanonicalForm Q out → Form P out
  Form-CanonicalForm f out (Canonical.number major a l b e) =
      Written.number major a l b (e ∙ sym (write_tag-header major a))
  Form-CanonicalForm f out (Canonical.simple minor a l d e) =
      Written.simple minor a l d (e ∙ sym (write_tag-simple minor a l))
  Form-CanonicalForm f out (Canonical.string major content l m b e) =
      Written.string major content l m b
        (e ∙ sym (with_content major (length content) content content refl))
  Form-CanonicalForm f out (Canonical.array values h b e) =
      Written.array values (All-imp Q P f values h) b
        (e ∙ sym (with_content 4 (length values) _ _ (flatten-joined values)))
  Form-CanonicalForm f out (Canonical.dict pairs h s b e) =
      Written.dict pairs
        (All-imp (IsEntry Q) (IsPair P)
          (λ p k. record {
            key = k.key;
            value = k.value;
            joined = k.parts;
            key_holds = f k.key k.key_holds;
            value_holds = f k.value k.value_holds;
          })
          pairs h)
        (IsOrdered-IsSorted pairs s) b
        (e ∙ sym (with_content 5 (length pairs) _ _ (flatten-joined pairs)))
  Form-CanonicalForm f out (Canonical.semantic a content h b e) =
      Written.semantic a content (f content h) b (e ∙ sym (with_content 6 a content content refl))

pub IsCanonical-IsWritten : (depth : ℕ) (out : List ℕ) → IsWritten depth out → IsCanonical depth out
IsCanonical-IsWritten zero out h = h
IsCanonical-IsWritten (suc depth) out h =
    CanonicalForm-Form (IsWritten depth) (IsCanonical depth) (IsCanonical-IsWritten depth) out h

pub IsWritten-IsCanonical : (depth : ℕ) (out : List ℕ) → IsCanonical depth out → IsWritten depth out
IsWritten-IsCanonical zero out h = h
IsWritten-IsCanonical (suc depth) out h =
    Form-CanonicalForm (IsWritten depth) (IsCanonical depth) (IsWritten-IsCanonical depth) out h
