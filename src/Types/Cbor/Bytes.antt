-- ===== src/Types/Cbor/Bytes.antt =====
-- `bytes_as_u64` and `u64_as_bytes` are inverse at the lengths that a tag uses.
use dqcsim_rs.Common.{
  ℕ, ◌*◌, ◌%◌, ◌^◌, ◌≡◌, refl, ap, zero, suc, List, ◌++◌, ok, arith, length, ◌⊎◌, inl, inr,
}
use dqcsim_rs.Types.Cbor.{bytes_as_u64, u64_as_bytes}

-- The lengths that the minor types 24 to 27 stand for.
abbrev pub IsWidth : ℕ → Type 0
IsWidth n = (n ≡ 1) ⊎ (n ≡ 2) ⊎ (n ≡ 4) ⊎ (n ≡ 8)

-- What is read back of the bytes written is the number, cut to the bytes.
pub bytes_as_u64-u64_as_bytes :
    (x n : ℕ) (rest : List ℕ)
    → IsWidth n
    → bytes_as_u64 (u64_as_bytes x n ++ rest) n ≡ ok (x % 2 ^ (n * 8))
unfolding bytes_as_u64 u64_as_bytes
bytes_as_u64-u64_as_bytes x n rest (inl e) = rw e (ap ok (omega arith))
bytes_as_u64-u64_as_bytes x n rest (inr (inl e)) = rw e (ap ok (omega arith))
bytes_as_u64-u64_as_bytes x n rest (inr (inr (inl e))) = rw e (ap ok (omega arith))
bytes_as_u64-u64_as_bytes x n rest (inr (inr (inr e))) = rw e (ap ok (omega arith))

pub length-u64_as_bytes : (x n : ℕ) → length (u64_as_bytes x n) ≡ n
unfolding u64_as_bytes
length-u64_as_bytes x zero = refl
length-u64_as_bytes x (suc n) = omega (arith, length-u64_as_bytes x n)
