-- ===== src/Types/Qubit.antt =====
-- `rust/src/core/common/types/qubit_ref.rs`. A qubit reference is a `u64`, with 0 as the null
-- reference; the generator counts up from 1 and never hands a reference out twice.
pub mod Laws
use dqcsim_rs.Common.{
  ℕ, zero, suc, ◌+◌, ◌%◌, ◌^◌, Bool, ◌==◌, if◌then◌else◌, List, [], ◌∷◌, Option, none, some,
  Outcome, ok, inv_arg, say,
}

abbrev pub QubitRef : Type 0
QubitRef = ℕ

abbrev pub null : QubitRef
null = 0

unfoldable pub is_null : QubitRef → Bool
is_null q = q == 0

unfoldable pub from_foreign : ℕ → Option QubitRef
from_foreign qubit = if qubit == 0 then none else some qubit

unfoldable pub to_foreign : QubitRef → Outcome ℕ
unfolding is_null
to_foreign q = if is_null q then inv_arg (say "making use of null qubit reference") else ok q

unfoldable pub option_to_foreign : Option QubitRef → Outcome ℕ
unfolding to_foreign
option_to_foreign (some x) = to_foreign x
option_to_foreign none = ok 0

pub record QubitRefGenerator : Type 0 where
  pub counter : ℕ

unfoldable pub new : QubitRefGenerator
new = record { counter = 1 }

-- `(&mut self.counter).take(num_qubits)` steps the range once for each reference.
unfoldable pub take_counter : ℕ → ℕ → List QubitRef × ℕ
take_counter zero c = ([], c)
take_counter (suc n) c = let (rest, c') = take_counter n ((c + 1) % 2 ^ 64) in (c ∷ rest, c')

unfoldable pub allocate : QubitRefGenerator → ℕ → List QubitRef × QubitRefGenerator
unfolding take_counter
allocate g num_qubits =
    let (qubits, c) = take_counter num_qubits g.counter in (qubits, record { counter = c })

-- Freed references are not used again.
unfoldable pub free : QubitRefGenerator → List QubitRef → QubitRefGenerator
free g _qubits = g
