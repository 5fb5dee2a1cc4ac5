-- ===== src/Types/Cbor/Fuel.antt =====
-- The fuel that `canonizalize` gives is enough: every nested call and every round of a loop reads
-- at least a byte.
use dqcsim_rs.Common.{
  ok_or, ℕ, zero, suc, ◌+◌, ◌-◌, ◌*◌, ◌/◌, ◌%◌, ◌^◌, ◌≤◌, ◌<◌, ◌≡◌, ◌≢◌, refl, sym, ◌∙◌, ap, List,
  [], ◌∷◌, ◌++◌, Option, some, none, Outcome, ok, err, fault, out_of_fuel, panicked, and_then,
  and_then-eq-ok, arith, length, ◌==◌, if◌then◌else◌, leb, Bool, true, false, Text, say, inv_arg,
  not, ◌||◌, drop, panicked, get_elem?, ErrorKind,
}
use dqcsim_rs.Types.Cbor.{
  slice_from, entry_value, entry_pair, Entries, sequence, counted, until_break, string, array, dict,
  Contents, contents, contents_of, read_tag, Tag, canonicalize_int, canonizalize, bytes_as_u64,
  read_bytes, read_additional, with_bytes, at_break, chunk, chunks, get_range,
}
use dqcsim_rs.Types.Cbor.Consumed.{read_tag-IsTag}
use dqcsim_rs.Types.Cbor.Advances.{
  Consumes, Advances, entry_value-Advances, entry_pair-Advances, slice_from_ok, chunk-Advances,
}
use dqcsim_rs.Types.Cbor.Reads.{canonicalize_int-Consumes}

-- The call ends within its fuel.
abbrev pub Finishes {ℓ} : {A : Type ℓ} → Outcome A → Type ℓ
Finishes r = r ≢ fault out_of_fuel

module _ {A B : Type 0} where
  and_then-Finishes :
      (m : Outcome A) (f : A → Outcome B)
      → Finishes m
      → ((a : A) → m ≡ ok a → Finishes (f a))
      → Finishes (and_then m f)
  and_then-Finishes (ok a) f h k = k a refl
  and_then-Finishes (err e) f h k = λ e. cc e
  and_then-Finishes (fault out_of_fuel) f h k = absurd (h refl)
  and_then-Finishes (fault p) f h k = λ e. h (ap fault (fault-eq p e))
    where
      fault-eq :
          (p : dqcsim_rs.Common.Fault)
          → Path (Outcome B) (fault p) (fault out_of_fuel)
          → p ≡ out_of_fuel
      fault-eq p e = cc e

ok_or-Finishes : {A : Type 0} (o : Option A) (t : Text) → Finishes (ok_or o t)
ok_or-Finishes none t = λ e. cc e
ok_or-Finishes (some a) t = λ e. cc e

at_break-Finishes : (input : List ℕ) (i : ℕ) (t : Text) → Finishes (at_break input i t)
at_break-Finishes input i t =
    and_then-Finishes (ok_or (get_elem? input i) t) _ (ok_or-Finishes (get_elem? input i) t)
      (λ a e f. cc f)

read_bytes-Finishes : (n : ℕ) (input : List ℕ) (value : ℕ) → Finishes (read_bytes n input value)
unfolding read_bytes
read_bytes-Finishes zero input value = λ e. cc e
read_bytes-Finishes (suc n) [] value = λ e. cc e
read_bytes-Finishes (suc n) (byte ∷ input) value = read_bytes-Finishes n input _

with_bytes-Finishes : (rest : List ℕ) (n : ℕ) → Finishes (with_bytes rest n)
unfolding bytes_as_u64
with_bytes-Finishes rest n =
    and_then-Finishes (read_bytes n rest 0) _ (read_bytes-Finishes n rest 0) (λ a e f. cc f)

read_additional-Finishes : (minor : ℕ) (rest : List ℕ) → Finishes (read_additional minor rest)
unfolding read_additional
read_additional-Finishes minor rest = λ e. ground (
  arith,
  with_bytes-Finishes rest 1,
  with_bytes-Finishes rest 2,
  with_bytes-Finishes rest 4,
  with_bytes-Finishes rest 8,
)

read_tag-Finishes : (input : List ℕ) → Finishes (read_tag input)
unfolding read_tag
read_tag-Finishes [] = λ e. cc e
read_tag-Finishes (initial ∷ rest) = λ e. ground (
  arith,
  and_then-Finishes (read_additional (initial % 32) rest)
      (λ (additional, index). ok (
        let t : Tag = record {
          major = initial / 32;
          minor = initial % 32;
          additional = additional;
          tag_len = index;
        } in
        t))
      (read_additional-Finishes (initial % 32) rest) (λ a e f. cc f),
)

slice_from-Finishes : (input : List ℕ) (i : ℕ) → Finishes (slice_from input i)
unfolding slice_from
slice_from-Finishes input i = λ e. ground arith

-- Every entry of the input can be read within the fuel.
abbrev EntryFinishes : (List ℕ → ℕ → Outcome (ℕ × List ℕ)) → List ℕ → Type 0
EntryFinishes entry input = (i : ℕ) → Finishes (entry input i)

counted-Finishes :
    (entry : List ℕ → ℕ → Outcome (ℕ × List ℕ)) (n i : ℕ) (input : List ℕ) (c : List (List ℕ))
    → EntryFinishes entry input
    → Finishes (counted entry n input i c)
unfolding counted
counted-Finishes entry zero i input c h = λ e. cc e
counted-Finishes entry (suc n) i input c h =
    and_then-Finishes (entry input i) _ (h i)
      (λ (j, b) e. counted-Finishes entry n j input (c ++ b ∷ []) h)

until_break-Finishes :
    (fuel : ℕ) (entry : List ℕ → ℕ → Outcome (ℕ × List ℕ)) (t : Text) (i : ℕ) (input : List ℕ)
    (c : List (List ℕ))
    → EntryFinishes entry input
    → Advances entry
    → i ≤ length input
    → length input < fuel + i
    → Finishes (until_break fuel entry t input i c)
unfolding until_break
until_break-Finishes zero entry t i input c h a l m = absurd (omega arith)
until_break-Finishes (suc fuel) entry t i input c h a l m =
    and_then-Finishes (at_break input i t) _ (at_break-Finishes input i t)
      (go (λ j c' l m. until_break-Finishes fuel entry t j input c' h a l m))
  where
    go :
        ((j : ℕ) (c' : List (List ℕ))
          → j ≤ length input
          → length input < fuel + j
          → Finishes (until_break fuel entry t input j c'))
        → (b : Bool) → at_break input i t ≡ ok b
        → Finishes (elim b as (λ _. Outcome Entries) [
          | true ↦ ok (record { entries = c; index = i + 1 })
          | false ↦
              and_then (entry input i) (λ (j, b). until_break fuel entry t input j (c ++ b ∷ []))
        ])
    go ih true e = λ f. cc f
    go ih false e =
        and_then-Finishes (entry input i) _ (h i)
          (λ (j, b) e. ih j (c ++ b ∷ []) (a input b i j e).1 (omega (arith, a input b i j e)))

sequence-Finishes :
    (fuel : ℕ) (entry : List ℕ → ℕ → Outcome (ℕ × List ℕ)) (t : Text) (input : List ℕ)
    (count : Option ℕ)
    → EntryFinishes entry input
    → Advances entry
    → length input < fuel
    → Finishes (sequence fuel entry t input count)
unfolding sequence
sequence-Finishes fuel entry t input none h a l =
    until_break-Finishes fuel entry t 0 input [] h a (omega arith) (omega arith)
sequence-Finishes fuel entry t input (some n) h a l = counted-Finishes entry n 0 input [] h

chunk-Finishes : (major i : ℕ) (input c : List ℕ) → Finishes (chunk major input i c)
unfolding chunk
chunk-Finishes major i input c =
    and_then-Finishes (read_tag input) _ (read_tag-Finishes input)
      (λ t e f. ground (arith, inner t))
  where
    inner :
        (t : Tag)
        → Finishes {A = ℕ × List ℕ} (
            and_then (ok_or t.additional (say "invalid CBOR: indefinite chunk size")) λ chunk_len.
              let start = i + t.tag_len in
              if leb (2 ^ 64) (start + chunk_len)
              then fault panicked
              else and_then
                  (ok_or
                    (get_range input start (start + chunk_len))
                    (say "invalid CBOR: incomplete bytes/utf8 chunk"))
                  (λ bytes. ok (start + chunk_len, c ++ bytes)))
    inner t =
        and_then-Finishes (ok_or t.additional _) _ (ok_or-Finishes t.additional _)
          (λ n e f. ground (arith, rest (i + t.tag_len) n))
      where
        rest :
            (start n : ℕ)
            → Finishes {A = ℕ × List ℕ} (
                and_then
                  (ok_or
                    (get_range input start (start + n))
                    (say "invalid CBOR: incomplete bytes/utf8 chunk"))
                  (λ bytes. ok (start + n, c ++ bytes)))
        rest start n =
            and_then-Finishes (ok_or (get_range input start (start + n)) _) _ (ok_or-Finishes _ _)
              (λ b e f. cc f)

chunks-Finishes :
    (fuel major i : ℕ) (input c : List ℕ)
    → i ≤ length input
    → length input < fuel + i
    → Finishes (chunks fuel major input i c)
unfolding chunks
chunks-Finishes zero major i input c l m = absurd (omega arith)
chunks-Finishes (suc fuel) major i input c l m =
    and_then-Finishes (at_break input i _) _ (at_break-Finishes input i _)
      (go (λ j c' l m. chunks-Finishes fuel major j input c' l m))
  where
    go :
        ((j : ℕ) (c' : List ℕ)
          → j ≤ length input
          → length input < fuel + j
          → Finishes (chunks fuel major input j c'))
        → (b : Bool) → at_break input i (say "invalid CBOR: incomplete chunked bytes/utf8") ≡ ok b
        → Finishes (elim b as (λ _. Outcome Contents) [
          | true ↦ contents c (i + 1) (length c)
          | false ↦ and_then (chunk major input i c) (λ (j, c'). chunks fuel major input j c')
        ])
    go ih true e = λ f. cc f
    go ih false e =
        and_then-Finishes (chunk major input i c) _ (chunk-Finishes major i input c) (λ (j, c') e.
          let moved : (i < j) × (j ≤ length input) × (length c' ≤ length c + (j - i)) =
            chunk-Advances major i input c (j, c') e in
          ih j c' moved.1 (omega arith))

string-Finishes :
    (fuel major : ℕ) (input : List ℕ) (a : Option ℕ)
    → length input < fuel
    → Finishes (string fuel major input a)
unfolding string
string-Finishes fuel major input none l =
    chunks-Finishes fuel major 0 input [] (omega arith) (omega arith)
string-Finishes fuel major input (some n) l =
    and_then-Finishes (ok_or (get_range input 0 n) _) _ (ok_or-Finishes _ _) (λ b e f. cc f)

module _ (fuel : ℕ) (value : List ℕ → Outcome (List ℕ × ℕ)) (c : Consumes value) (input : List ℕ)
    (short : length input < fuel)
    (suffices : (rest : List ℕ) → length rest ≤ length input → Finishes (value rest)) where
  entry_value-Finishes : EntryFinishes (entry_value value) input
  unfolding entry_value
  entry_value-Finishes i =
      and_then-Finishes (slice_from input i) _ (slice_from-Finishes input i) (λ rest e.
        and_then-Finishes (value rest) _
          (suffices rest (omega (arith, slice_from_ok input rest i e))) (λ a e f. cc f))

  entry_pair-Finishes : EntryFinishes (entry_pair value) input
  unfolding entry_pair
  entry_pair-Finishes i =
      and_then-Finishes (entry_value value input i) _ (entry_value-Finishes i) (λ (j, k) e.
        and_then-Finishes (entry_value value input j) _ (entry_value-Finishes j) (λ a e f. cc f))

  contents_of-Finishes :
      (major : ℕ) (a : Option ℕ) → Finishes (contents_of fuel value major a input)
  unfolding contents_of
  contents_of-Finishes major a = λ e. ground (
    arith,
    and_then-Finishes (ok_or a (say "invalid CBOR: indefinite length tag for non-sequence"))
        (λ n. contents [] 0 n) (ok_or-Finishes _ _) (λ n e f. cc f),
    string-Finishes fuel major input a short,
    and_then-Finishes
        (sequence fuel (entry_value value) (say "invalid CBOR: incomplete indefinite-length array")
          input a)
        array
        (sequence-Finishes fuel (entry_value value) _ input a entry_value-Finishes
          (entry_value-Advances value c) short)
        (λ s e f. cc f),
    and_then-Finishes
        (sequence fuel (entry_pair value) (say "invalid CBOR: incomplete indefinite-length dict")
          input a)
        dict
        (sequence-Finishes fuel (entry_pair value) _ input a entry_pair-Finishes
          (entry_pair-Advances value c) short)
        (λ s e f. cc f),
    and_then-Finishes (ok_or a (say "invalid CBOR: indefinite length tag for semantic tag"))
        (λ a. and_then (value input) (λ (content, len). contents content len a))
        (ok_or-Finishes _ _)
        (λ n e. and_then-Finishes (value input) _ (suffices input (omega arith)) (λ p e f. cc f)),
  )

-- More fuel than bytes is enough.
pub canonicalize_int-Finishes :
    (fuel : ℕ) (input : List ℕ) → length input < fuel → Finishes (canonicalize_int fuel input)
unfolding canonicalize_int
canonicalize_int-Finishes zero input l = elim l [ ]
canonicalize_int-Finishes (suc fuel) input l =
    and_then-Finishes (read_tag input) _ (read_tag-Finishes input) (λ t e.
      and_then-Finishes (slice_from input t.tag_len) _ (slice_from-Finishes _ _) (λ rest q.
        and_then-Finishes (contents_of (suc fuel) (canonicalize_int fuel) t.major t.additional rest)
          _
          (let k : length rest < fuel = omega (
            arith,
            slice_from_ok input rest t.tag_len q,
            (read_tag-IsTag input t e).reads,
            (read_tag-IsTag input t e).within,
          ) in
            contents_of-Finishes (suc fuel) (canonicalize_int fuel) (canonicalize_int-Consumes fuel)
              rest (omega arith) (λ r m. canonicalize_int-Finishes fuel r (omega arith)) t.major
              t.additional)
          (λ c e f. cc f)))

-- `canonizalize` ends on every input: the nesting and the loops never use up their fuel.
pub canonizalize-Finishes : (input : List ℕ) → canonizalize input ≢ fault out_of_fuel
unfolding canonizalize
canonizalize-Finishes input =
    and_then-Finishes (canonicalize_int (length input + 1) input) _
      (canonicalize_int-Finishes (length input + 1) input (omega arith))
      (λ (out, len) e f. ground arith)
