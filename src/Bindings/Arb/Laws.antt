-- ===== src/Bindings/Arb/Laws.antt =====
-- The list of arguments as the C interface changes it: an index means the same argument to every call.
use native.Mathlib.Numerals.{add-one}
use dqcsim_rs.Common.{
  ℕ, zero, suc, ◌≤◌, ◌≡◌, refl, sym, ◌∙◌, ap, subst, true, false, some, List, [], ◌∷◌, ◌++◌, length,
  get_elem?, take, drop, Outcome, ok, err, fault, and_then-eq-ok, ok-injective, arith,
}
use dqcsim_rs.Common.Int.{ℤ, pos, negsuc, ◌+ℤ◌}
use dqcsim_rs.Types.Arb.{ArbData}
use dqcsim_rs.Bindings.Arb.{
  receive_index, insert_at, remove_at, on_args, insert_arg, remove_arg, get_arg, found,
}

receive_index_insert :
    (len i : ℕ) (index : ℤ)
    → receive_index len index true ≡ ok i
    → (i ≤ len) × (receive_index (suc len) index false ≡ ok i)
unfolding receive_index ◌+ℤ◌
receive_index_insert len i (pos n) h = ground arith
receive_index_insert len i (negsuc n) h = ground arith

module _ {A : Type 0} where
  get_elem?-insert :
      (i : ℕ) (x : A) (xs : List A)
      → i ≤ length xs
      → get_elem? (take i xs ++ (x ∷ drop i xs)) i ≡ some x
  get_elem?-insert zero x xs h = refl
  get_elem?-insert (suc i) x [] h = elim h [ ]
  get_elem?-insert (suc i) x (y ∷ xs) h = get_elem?-insert i x xs (omega arith)

  remove-insert :
      (i : ℕ) (x : A) (xs : List A)
      → i ≤ length xs
      → take i (take i xs ++ (x ∷ drop i xs)) ++ drop (suc i) (take i xs ++ (x ∷ drop i xs)) ≡ xs
  remove-insert zero x xs h = refl
  remove-insert (suc i) x [] h = elim h [ ]
  remove-insert (suc i) x (y ∷ xs) h = rw (remove-insert i x xs (omega arith))

  length-insert :
      (i : ℕ) (x : A) (xs : List A)
      → i ≤ length xs
      → length (take i xs ++ (x ∷ drop i xs)) ≡ suc (length xs)
  length-insert zero x xs h = refl
  length-insert (suc i) x [] h = elim h [ ]
  length-insert (suc i) x (y ∷ xs) h = omega (arith, length-insert i x xs (omega arith))

on_args-eq-ok :
    (r : Outcome (List (List ℕ))) (d d' : ArbData)
    → on_args r d ≡ (ok tt, d')
    → (args : List (List ℕ)) × (r ≡ ok args) × (d' ≡ record d { args = args })
unfolding on_args
on_args-eq-ok (ok args) d d' e = (args, refl, cc e)
on_args-eq-ok (err x) d d' e = absurd (cc e)
on_args-eq-ok (fault p) d d' e = absurd (cc e)

inserted :
    (index : ℤ) (i : ℕ) (b : List ℕ) (d : ArbData)
    → i ≤ length d.args
    → receive_index (suc (length d.args)) index false ≡ ok i
    → (get_arg index (record d { args = insert_at i b d.args }) ≡ ok b)
      × (remove_arg index (record d { args = insert_at i b d.args }) ≡ (ok tt, d))
unfolding get_arg remove_arg insert_at remove_at found on_args
inserted index i b d within again =
    let e : receive_index (length (take i d.args ++ (b ∷ drop i d.args))) index false ≡ ok i =
      rw (length-insert i b d.args within) again in
    (rw (e, get_elem?-insert i b d.args within), rw (e, add-one, remove-insert i b d.args within))

-- An argument that was inserted at an index, from the front or from the back, is found at that same
-- index, and to remove it there gives the data back as it was.
pub insert_arg-get_arg :
    (index : ℤ) (b : List ℕ) (d d' : ArbData)
    → insert_arg index (ok b) d ≡ (ok tt, d')
    → (get_arg index d' ≡ ok b) × (remove_arg index d' ≡ (ok tt, d))
unfolding insert_arg
insert_arg-get_arg index b d d' e =
    let (args, q, made) = on_args-eq-ok _ d d' e in
    let (i, r, k) = and_then-eq-ok (receive_index (length d.args) index true) _ q in
    let (within, again) = receive_index_insert (length d.args) i index r in
    subst (λ (x : ArbData). (get_arg index x ≡ ok b) × (remove_arg index x ≡ (ok tt, d)))
      (sym (made ∙ ap (λ (a : List (List ℕ)). record d { args = a }) (ok-injective (sym k))))
      (inserted index i b d within again)
