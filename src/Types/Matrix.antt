-- ===== src/Types/Matrix.antt =====
-- `rust/src/core/common/types/matrix.rs`: the shape of a matrix. An `f64` is its bit pattern; what
-- the program computes with floats (`approx_unitary`) is an argument where it is used.
pub mod Strip
use dqcsim_rs.Common.{
  ℕ, zero, suc, ◌+◌, ◌*◌, ◌^◌, leb, ◌==◌, if◌then◌else◌, not, List, length, Option, none, some,
  Outcome, ok, inv_arg, say,
}

pub record Complex64 : Type 0 where
  pub re : ℕ
  pub im : ℕ

pub record Matrix : Type 0 where
  pub elements : List Complex64
  pub dimension : ℕ

-- The integer square root: the greatest number, from `k` down, whose square is at most `n`.
unfoldable pub sqrt_from : ℕ → ℕ → ℕ
sqrt_from zero n = 0
sqrt_from (suc k) n = let rest = sqrt_from k n in if leb (suc k * suc k) n then suc k else rest

unfoldable pub integer_sqrt : ℕ → ℕ
unfolding sqrt_from
integer_sqrt n = sqrt_from n n

unfoldable pub new : List Complex64 → Outcome Matrix
unfolding integer_sqrt
new elements =
    let dimension = integer_sqrt (length elements) in
    if not (length elements == dimension * dimension)
    then inv_arg (say "matrix is not square")
    else ok (record { elements = elements; dimension = dimension })

-- `util::log_2`: the exponent of a power of two; `k` counts the powers that are left to try.
unfoldable pub log_from : ℕ → ℕ → ℕ → Option ℕ
log_from zero i x = none
log_from (suc k) i x = let rest = log_from k (i + 1) x in if 2 ^ i == x then some i else rest

unfoldable pub log_2 : ℕ → Option ℕ
unfolding log_from
log_2 x = if x == 0 then none else log_from 64 0 x

-- `num_qubits`.
unfoldable pub num_qubits : Matrix → Option ℕ
unfolding log_2
num_qubits m = log_2 m.dimension
