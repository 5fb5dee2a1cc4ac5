-- ===== src/Types/Cbor/Consumed.antt =====
-- How much of its input a successful call of `cbor_canon` reads.
use dqcsim_rs.Common.{
  ℕ, zero, suc, ◌+◌, ◌*◌, ◌/◌, ◌%◌, ◌^◌, ◌≤◌, ◌<◌, ◌≡◌, refl, subst, List, [], ◌∷◌, Option, some,
  Outcome, ok, err, fault, and_then, arith, length, ◌==◌, Bool-cases, inl, inr,
}
use dqcsim_rs.Types.Cbor.{bytes_as_u64, read_bytes, Tag, read_tag, read_additional, with_bytes}

read_bytes_ok :
    (n : ℕ) (input : List ℕ) (value v : ℕ)
    → value < 2 ^ 64
    → read_bytes n input value ≡ ok v
    → (n ≤ length input) × (v < 2 ^ 64)
unfolding read_bytes
read_bytes_ok zero input value v b h = ground arith
read_bytes_ok (suc n) [] value v b h = cc
read_bytes_ok (suc n) (byte ∷ input) value v b h =
    ground (arith, read_bytes_ok n input ((value * 256 + byte) % 2 ^ 64) v (omega arith) h)

pub bytes_as_u64_ok :
    (n : ℕ) (input : List ℕ) (v : ℕ)
    → bytes_as_u64 input n ≡ ok v
    → (n ≤ length input) × (v < 2 ^ 64)
unfolding bytes_as_u64
bytes_as_u64_ok n input v h = read_bytes_ok n input 0 v (omega arith) h

-- What a successful `read_tag` says of its tag.
pub record IsTag (input : List ℕ) (t : Tag) : Type 0 where
  pub reads : 1 ≤ t.tag_len
  pub within : t.tag_len ≤ length input
  pub minor_le : (a : ℕ) → t.additional ≡ some a → t.minor ≤ 27
  pub below : (a : ℕ) → t.additional ≡ some a → a < 2 ^ 64
  pub direct : (a : ℕ) → t.additional ≡ some a → t.minor ≤ 23 → a ≡ t.minor

-- The same of the pair that `read_additional` returns.
record IsAdditional (rest : List ℕ) (minor : ℕ) (r : Option ℕ × ℕ) : Type 0 where
  reads : 1 ≤ r.1
  within : r.1 ≤ length rest + 1
  minor_le : (a : ℕ) → r.0 ≡ some a → minor ≤ 27
  below : (a : ℕ) → r.0 ≡ some a → a < 2 ^ 64
  direct : (a : ℕ) → r.0 ≡ some a → minor ≤ 23 → a ≡ minor

with_bytes-IsAdditional :
    (minor n : ℕ) (rest : List ℕ) (r : Option ℕ × ℕ)
    → 23 < minor
    → minor ≤ 27
    → with_bytes rest n ≡ ok r
    → IsAdditional rest minor r
with_bytes-IsAdditional minor n rest r h k e = go (bytes_as_u64 rest n) refl e
  where
    go :
        (o : Outcome ℕ)
        → bytes_as_u64 rest n ≡ o
        → and_then o (λ value. ok (some value, n + 1)) ≡ ok r
        → IsAdditional rest minor r
    go (ok v) q e = record {
      reads = ground arith;
      within = ground (arith, bytes_as_u64_ok n rest v q);
      minor_le = λ a p. k;
      below = λ a p. ground (arith, bytes_as_u64_ok n rest v q);
      direct = λ a p l. absurd (omega arith);
    }
    go (err f) q e = absurd (cc e)
    go (fault p) q e = absurd (cc e)

read_additional-IsAdditional :
    (minor : ℕ) (rest : List ℕ) (r : Option ℕ × ℕ)
    → read_additional minor rest ≡ ok r
    → IsAdditional rest minor r
unfolding read_additional
read_additional-IsAdditional minor rest r e = ground (
  arith,
  with_bytes-IsAdditional minor 1 rest r,
  with_bytes-IsAdditional minor 2 rest r,
  with_bytes-IsAdditional minor 4 rest r,
  with_bytes-IsAdditional minor 8 rest r,
)

pub read_tag-IsTag : (input : List ℕ) (t : Tag) → read_tag input ≡ ok t → IsTag input t
unfolding read_tag
read_tag-IsTag [] t e = absurd (cc e)
read_tag-IsTag (initial ∷ rest) t e = elim (Bool-cases (initial == 0xFF)) [
  | inl b ↦ absurd (cc (rw b at e))
  | inr b ↦ go (read_additional (initial % 32) rest) refl (rw b at e)
]
  where
    go :
        (o : Outcome (Option ℕ × ℕ))
        → read_additional (initial % 32) rest ≡ o
        → and_then o (λ (additional, index). ok (record {
          major = initial / 32;
          minor = initial % 32;
          additional = additional;
          tag_len = index;
        }))
          ≡ ok t
        → IsTag (initial ∷ rest) t
    go (ok r) q e =
        let i = read_additional-IsAdditional (initial % 32) rest r q in
        let read : Tag = record {
          major = initial / 32;
          minor = initial % 32;
          additional = r.0;
          tag_len = r.1;
        } in
        let k : read ≡ t = cc e in
        subst (IsTag (initial ∷ rest)) k (record {
          reads = i.reads;
          within = omega (arith, i.within);
          minor_le = i.minor_le;
          below = i.below;
          direct = i.direct;
        })
    go (err f) q e = absurd (cc e)
    go (fault p) q e = absurd (cc e)
