-- ===== src/Types/Matrix/Strip.antt =====
-- `strip_control` in `rust/src/core/common/types/matrix.rs`. What it computes with floats enters as
-- arguments: `far m i` is whether the errors of the column `i` of `m` exceed the tolerance at one of its
-- rows, and `rephase m` multiplies an entry with the conjugate of the phase of `m`. A `HashSet` is the
-- list of its items, and a `usize` has 64 bits.
use dqcsim_rs.Common.{
  ℕ, zero, suc, ◌+◌, ◌-◌, ◌*◌, ◌/◌, ◌%◌, ◌^◌, Bool, ◌&&◌, ◌==◌, if◌then◌else◌, List, [], ◌∷◌, ◌++◌,
  Option, none, some, Outcome, ok, fault, panicked, and_then, range, get_elem?,
}
use dqcsim_rs.Types.Arb.{unwrap}
use dqcsim_rs.Types.Matrix
use dqcsim_rs.Types.Matrix.{Matrix, Complex64, num_qubits}

-- `n & (1 << q) != 0`.
unfoldable pub has_bit : ℕ → ℕ → Bool
has_bit n q = n / 2 ^ q % 2 == 1

-- `a & b`, of the given number of bits.
unfoldable pub bit_and : ℕ → ℕ → ℕ → ℕ
bit_and zero a b = 0
bit_and (suc bits) a b = (a % 2) * (b % 2) + 2 * bit_and bits (a / 2) (b / 2)

-- `row & controls_int == controls_int`.
unfoldable pub covers_bits : ℕ → ℕ → Bool
unfolding bit_and
covers_bits controls_int row = bit_and 64 row controls_int == controls_int

-- `self[(row, col)]`.
unfoldable pub index : Matrix → ℕ → ℕ → Outcome Complex64
index m row col = elim (get_elem? m.elements (row * m.dimension + col)) [
  | none ↦ fault panicked
  | some z ↦ ok z
]

-- The set of `num_qubits - q - 1` for the bits `q` of `controls_int`, as they are inserted.
unfoldable pub controls_from : ℕ → ℕ → List ℕ → List ℕ
unfolding has_bit
controls_from n controls_int [] = []
controls_from n controls_int (q ∷ qs) =
    let rest = controls_from n controls_int qs in
    if has_bit controls_int q then (n - q - 1) ∷ rest else rest

module _ (far : Matrix → ℕ → Bool) (rephase : Matrix → Complex64 → Complex64) where
  -- The loop over the columns from `i` on, of which `count` are left: `controls_int`, or none for the
  -- early return.
  unfoldable pub rule_out : Matrix → ℕ → ℕ → ℕ → Option ℕ
  unfolding bit_and
  rule_out m zero i controls_int = some controls_int
  rule_out m (suc count) i controls_int =
      let cleared = if far m i then bit_and 64 controls_int i else controls_int in
      let rest = rule_out m count (i + 1) cleared in if far m i && cleared == 0 then none else rest

  -- The entries of one row.
  unfoldable pub row_entries : Matrix → ℕ → ℕ → List ℕ → Outcome (List Complex64)
  unfolding index covers_bits
  row_entries m controls_int row [] = ok []
  row_entries m controls_int row (col ∷ cols) =
      let rest = row_entries m controls_int row cols in
      if covers_bits controls_int col
      then and_then (index m row col) (λ z. and_then rest (λ zs. ok (rephase m z ∷ zs)))
      else rest

  -- The entries of the submatrix.
  unfoldable pub entries : Matrix → ℕ → List ℕ → Outcome (List Complex64)
  unfolding row_entries covers_bits
  entries m controls_int [] = ok []
  entries m controls_int (row ∷ rows) =
      let rest = entries m controls_int rows in
      if covers_bits controls_int row
      then and_then (row_entries m controls_int row (range 0 m.dimension))
          (λ zs. and_then rest (λ more. ok (zs ++ more)))
      else rest

  -- The controls and the submatrix, once `controls_int` is known.
  unfoldable pub submatrix : Matrix → ℕ → Outcome (List ℕ × Matrix)
  unfolding entries controls_from
  submatrix m controls_int = elim (num_qubits m) [
    | none ↦ fault panicked
    | some n ↦ and_then (entries m controls_int (range 0 m.dimension)) λ zs.
        and_then (unwrap (Matrix.new zs)) λ sub. ok (controls_from n controls_int (range 0 n), sub)
  ]

  -- The subtraction overflows for a matrix without entries.
  unfoldable pub strip_control : Matrix → Outcome (List ℕ × Matrix)
  unfolding rule_out submatrix
  strip_control m =
      if m.dimension == 0
      then fault panicked
      else elim (rule_out m (m.dimension - 1) 0 (m.dimension - 1)) [
        | none ↦ ok ([], m)
        | some controls_int ↦
            if controls_int == m.dimension - 1 then ok ([], m) else submatrix m controls_int
      ]
