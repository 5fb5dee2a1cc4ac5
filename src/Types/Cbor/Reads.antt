-- ===== src/Types/Cbor/Reads.antt =====
-- `canonicalize_int` reads at least one byte of its input, and no more than there is; and the
-- number that it writes in the tag fits in 64 bits.
use dqcsim_rs.Common.{
  ok_or, ℕ, zero, suc, ◌≤◌, ◌≡◌, List, Option, some, Outcome, ok, and_then, and_then-eq-ok, arith,
  length, ◌⊎◌, Text, say,
}
use dqcsim_rs.Types.Cbor.{
  slice_from, entry_value, entry_pair, sequence, array, dict, scalar, Contents, contents,
  contents_of, read_tag, canonicalize_int,
}
use dqcsim_rs.Types.Cbor.Consumed.{read_tag-IsTag}
use dqcsim_rs.Types.Cbor.Advances.{
  Consumes, entry_value-Advances, entry_pair-Advances, sequence-IsLoop, string-Advances, ok_or_ok,
  slice_from_ok,
}

module _ (fuel : ℕ) (value : List ℕ → Outcome (List ℕ × ℕ)) (c : Consumes value) where
  array_reads :
      (t : Text) (input : List ℕ) (a : Option ℕ) (r : Contents)
      → and_then (sequence fuel (entry_value value) t input a) array ≡ ok r
      → (r.input_len ≤ length input) × (r.additional ≤ length input)
  array_reads t input a r e =
      let (s, q, k) = and_then-eq-ok (sequence fuel (entry_value value) t input a) array e in
      ground (
        arith,
        sequence-IsLoop fuel (entry_value value) t input a s (entry_value-Advances value c) q,
      )

  dict_reads :
      (t : Text) (input : List ℕ) (a : Option ℕ) (r : Contents)
      → and_then (sequence fuel (entry_pair value) t input a) dict ≡ ok r
      → (r.input_len ≤ length input) × (r.additional ≤ length input)
  dict_reads t input a r e =
      let (s, q, k) = and_then-eq-ok (sequence fuel (entry_pair value) t input a) dict e in
      ground
        (arith, sequence-IsLoop fuel (entry_pair value) t input a s (entry_pair-Advances value c) q)

  semantic_reads :
      (t : Text) (input : List ℕ) (a : Option ℕ) (r : Contents)
      → and_then
          (ok_or a t)
          (λ a. and_then (value input) (λ (content, len). contents content len a))
        ≡ ok r
      → (r.input_len ≤ length input) × (a ≡ some r.additional)
  semantic_reads t input a r e =
      let (n, q, k) = and_then-eq-ok (ok_or a t) _ e in
      let (p, v, l) = and_then-eq-ok (value input) _ k in
      ground (arith, c input p.0 p.1 v, ok_or_ok a t n q)

  scalar_reads :
      (a : Option ℕ) (r : Contents) → scalar a ≡ ok r → (r.input_len ≡ 0) × (a ≡ some r.additional)
  scalar_reads a r e =
      let (n, q, k) = and_then-eq-ok (ok_or a _) _ e in ground (arith, ok_or_ok a _ n q)

  pub contents_of_reads :
      (major : ℕ) (a : Option ℕ) (input : List ℕ) (r : Contents)
      → contents_of fuel value major a input ≡ ok r
      → (r.input_len ≤ length input) × ((r.additional ≤ length input) ⊎ (a ≡ some r.additional))
  unfolding contents_of
  contents_of_reads major a input r e = ground (
    arith,
    scalar_reads a r,
    string-Advances fuel major input a r,
    array_reads (say "invalid CBOR: incomplete indefinite-length array") input a r,
    dict_reads (say "invalid CBOR: incomplete indefinite-length dict") input a r,
    semantic_reads (say "invalid CBOR: indefinite length tag for semantic tag") input a r,
  )

pub canonicalize_int-Consumes : (fuel : ℕ) → Consumes (canonicalize_int fuel)
unfolding canonicalize_int
canonicalize_int-Consumes zero input out n e = absurd (cc e)
canonicalize_int-Consumes (suc fuel) input out n e =
    let (t, q, k) = and_then-eq-ok (read_tag input) _ e in
    let (rest, s, l) = and_then-eq-ok (slice_from input t.tag_len) _ k in
    let (r, m, f) =
      and_then-eq-ok (contents_of (suc fuel) (canonicalize_int fuel) t.major t.additional rest) _
        l in
    let tag = read_tag-IsTag input t q in
    ground (
      arith,
      tag.reads,
      tag.within,
      slice_from_ok input rest t.tag_len s,
      contents_of_reads (suc fuel) (canonicalize_int fuel) (canonicalize_int-Consumes fuel) t.major
          t.additional rest r m,
    )
