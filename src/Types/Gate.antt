-- ===== src/Types/Gate.antt =====
-- `rust/src/core/common/types/gate.rs`. What the program computes with floats is an argument: the
-- test `approx_unitary`, and those of `strip_control` (`Types.Matrix.Strip`).
pub mod Laws
pub mod Controls
use dqcsim_rs.Common.{
  ℕ, suc, zero, Bool, true, false, ◌==◌, not, if◌then◌else◌, String, List, [], ◌∷◌, ◌++◌, length,
  is_empty, insert, contains, replicate, Option, none, some, Outcome, ok, fault, panicked, inv_arg,
  and_then, lit, num, say, Text, ◌&&◌,
}
use dqcsim_rs.Types.Qubit.{QubitRef, null}
use dqcsim_rs.Types.Arb.{ArbData, no_data}
use dqcsim_rs.Types.Matrix
use dqcsim_rs.Types.Matrix.{Matrix, Complex64, num_qubits}
use dqcsim_rs.Types.Matrix.Strip.{strip_control}

pub data GateType : Type 0 where
  unitary measurement prep : GateType
  custom : String → GateType

pub record Gate : Type 0 where
  pub typ : GateType
  pub targets : List QubitRef
  pub controls : List QubitRef
  pub measures : List QubitRef
  pub matrix : Option Matrix
  pub payload : ArbData

-- `for qubit in .. { if !set.insert(qubit) { return inv_arg(format!("qubit {} ..", qubit)) } }`.
unfoldable pub check_unique : String → List QubitRef → List QubitRef → Outcome (Unit {0})
check_unique what set [] = ok tt
check_unique what set (qubit ∷ qubits) =
    let rest = check_unique what (insert set qubit) qubits in
    if contains set qubit then inv_arg (lit "qubit " ∷ num qubit ∷ lit what ∷ []) else rest

-- `if test { return inv_arg(..) }`.
abbrev pub refuse : Bool → Text → Outcome (Unit {0})
refuse true message = inv_arg message
refuse false message = ok tt

-- `matrix.num_qubits() != Some(n)`.
unfoldable pub sized_for : Matrix → ℕ → Bool
sized_for m n = elim (num_qubits m) [ none ↦ false | some k ↦ k == n ]

abbrev pub not_unitary : Text
not_unitary = say "provided matrix is not unitary within 1e-6 tolerance"

module _ (approx_unitary : Matrix → Bool) where
  unfoldable pub new_unitary : List QubitRef → List QubitRef → List Complex64 → Outcome Gate
  new_unitary targets controls matrix = and_then (Matrix.new matrix) λ m.
      and_then (refuse (is_empty targets) (say "at least one target qubit is required")) λ _.
        and_then (check_unique " is used more than once" [] (targets ++ controls)) λ _.
          and_then
            (refuse (not (sized_for m (length targets))) (
              lit "the matrix is expected to be sized for "
              ∷ num (length targets)
              ∷ lit " qubits but has dimension "
              ∷ num m.dimension
              ∷ []))
            λ _. and_then (refuse (not (approx_unitary m)) not_unitary) λ _. ok (record {
              typ = unitary;
              targets = targets;
              controls = controls;
              measures = [];
              matrix = some m;
              payload = no_data;
            })

  -- The checks that `new_measurement` and `new_prep` share.
  unfoldable pub check_basis : List QubitRef → List Complex64 → Outcome Matrix
  check_basis qubits basis = and_then (Matrix.new basis) λ m.
      and_then (check_unique " is measured more than once" [] qubits) λ _.
        and_then
          (refuse (not (m.dimension == 2))
            (lit "the matrix is expected to be 2x2 but has dimension " ∷ num m.dimension ∷ []))
          λ _. and_then (refuse (not (approx_unitary m)) not_unitary) λ _. ok m

  unfoldable pub new_measurement : List QubitRef → List Complex64 → Outcome Gate
  unfolding check_basis
  new_measurement qubits basis = and_then (check_basis qubits basis) λ m. ok (record {
    typ = measurement;
    targets = [];
    controls = [];
    measures = qubits;
    matrix = some m;
    payload = no_data;
  })

  unfoldable pub new_prep : List QubitRef → List Complex64 → Outcome Gate
  unfolding check_basis
  new_prep qubits matrix = and_then (check_basis qubits matrix) λ m. ok (record {
    typ = prep;
    targets = qubits;
    controls = [];
    measures = [];
    matrix = some m;
    payload = no_data;
  })

-- `Some(matrix.try_into()?)`, if there is a matrix.
abbrev pub optional_matrix : Option (List Complex64) → Outcome (Option Matrix)
optional_matrix none = ok none
optional_matrix (some elements) = and_then (Matrix.new elements) λ m. ok (some m)

unfoldable pub new_custom :
    String
    → List QubitRef
    → List QubitRef
    → List QubitRef
    → Option (List Complex64)
    → ArbData
    → Outcome Gate
new_custom name targets controls measures elements payload =
    and_then (optional_matrix elements) λ m.
      and_then (check_unique " is used more than once" [] (targets ++ controls)) λ _.
        and_then (check_unique " is measured more than once" [] measures) λ _. ok (record {
          typ = custom name;
          targets = targets;
          controls = controls;
          measures = measures;
          matrix = m;
          payload = payload;
        })

unfoldable pub get_name : GateType → Option String
get_name (custom name) = some name
get_name _ = none

unfoldable pub is_unitary : GateType → Bool
is_unitary unitary = true
is_unitary _ = false

-- `Vec::remove`: the item at the index and the items that are left; out of bounds it panics.
unfoldable pub vec_remove {ℓ} : {A : Type ℓ} → List A → ℕ → Outcome (A × List A)
vec_remove [] i = fault panicked
vec_remove (x ∷ xs) zero = ok (x, xs)
vec_remove (x ∷ xs) (suc i) = and_then (vec_remove xs i) λ p. ok (p.0, x ∷ p.1)

-- `for c in control_set { controls.push(targets.remove(c)) }`, in the order of the iteration;
-- returns the controls and the targets that are left.
unfoldable pub move_controls :
    List ℕ → List QubitRef → List QubitRef → Outcome (List QubitRef × List QubitRef)
unfolding vec_remove
move_controls [] controls targets = ok (controls, targets)
move_controls (c ∷ cs) controls targets =
    and_then (vec_remove targets c) λ p. move_controls cs (controls ++ p.0 ∷ []) p.1

module _ (far : Matrix → ℕ → Bool) (rephase : Matrix → Complex64 → Complex64)
    (order : List ℕ → List ℕ) where
  -- `order` gives the order in which a hash set is iterated. `unwrap` panics where a unitary gate has
  -- no matrix.
  unfoldable pub with_gate_controls : Gate → Outcome Gate
  unfolding is_unitary move_controls strip_control
  with_gate_controls gate =
      if is_unitary gate.typ
      then elim gate.matrix [
        | none ↦ fault panicked
        | some m ↦ and_then (strip_control far rephase m) λ p.
            and_then (move_controls (order p.0) [] gate.targets)
              λ q. ok (record gate { targets = q.1; controls = q.0; matrix = some p.1 })
      ]
      else ok gate

unfoldable pub without_qubit_refs : Gate → Gate
without_qubit_refs gate = record gate {
  targets = replicate (length gate.targets) null;
  controls = replicate (length gate.controls) null;
  measures = replicate (length gate.measures) null;
}
