-- ===== src/Types/Gate/Laws.antt =====
-- What every gate that a constructor lets through satisfies.
use dqcsim_rs.Common.{
  ℕ, Bool, true, false, String, ◌≡◌, ◌↔◌, refl, List, [], ◌∷◌, ◌++◌, length, insert, Option, some,
  ok, arith, is_empty,
}
use dqcsim_rs.Common.Sets.{Distinct, Outside, Outside-insert, Outside-insert_of, contains-nil}
use dqcsim_rs.Types.Qubit.{QubitRef}
use dqcsim_rs.Types.Arb.{ArbData}
use dqcsim_rs.Types.Matrix
use dqcsim_rs.Types.Matrix.{Matrix, Complex64}
use dqcsim_rs.Types.Gate.{
  Gate, custom, check_unique, new_unitary, new_custom, sized_for, optional_matrix,
}

Outside-nil : (xs : List ℕ) → Outside [] xs
Outside-nil [] = tt
Outside-nil (x ∷ xs) = (contains-nil x, Outside-nil xs)

check_unique_sound :
    (what : String) (set xs : List ℕ)
    → check_unique what set xs ≡ ok tt
    → Distinct xs × Outside set xs
unfolding check_unique
check_unique_sound what set [] h = (tt, tt)
check_unique_sound what set (x ∷ xs) h =
    ground (arith, check_unique_sound what (insert set x) xs, Outside-insert set xs x)

check_unique_complete :
    (what : String) (set xs : List ℕ)
    → Distinct xs
    → Outside set xs
    → check_unique what set xs ≡ ok tt
unfolding check_unique
check_unique_complete what set [] d o = refl
check_unique_complete what set (x ∷ xs) d o =
    ground (arith, check_unique_complete what (insert set x) xs d.1, Outside-insert_of set xs x)

-- The check accepts a list of qubits exactly when none of them occurs twice.
pub check_unique_iff :
    (what : String) (xs : List ℕ) → (check_unique what [] xs ≡ ok tt) ↔ Distinct xs
check_unique_iff what xs = (
  (λ h. (check_unique_sound what [] xs h).0),
  (λ d. check_unique_complete what [] xs d (Outside-nil xs)),
)

-- A call of `new_custom` whose matrix is well-formed or left out returns a gate exactly when no
-- qubit occurs twice among the targets and controls, nor among the measured qubits; and the
-- gate then holds the qubits and the data that were given.
pub new_custom_iff :
    (name : String) (targets controls measures : List QubitRef) (elements : Option (List Complex64))
    (payload : ArbData) (m : Option Matrix)
    → optional_matrix elements ≡ ok m
    → ((g : Gate) × (new_custom name targets controls measures elements payload ≡ ok g)
        × (g ≡ record {
          typ = custom name;
          targets = targets;
          controls = controls;
          measures = measures;
          matrix = m;
          payload = payload;
        }))
      ↔ (Distinct (targets ++ controls) × Distinct measures)
unfolding new_custom
new_custom_iff name targets controls measures elements payload m em = (
  (λ h. ground (
    arith,
    check_unique_sound " is used more than once" [] (targets ++ controls),
    check_unique_sound " is measured more than once" [] measures,
  )),
  (λ h. (
    record {
      typ = custom name;
      targets = targets;
      controls = controls;
      measures = measures;
      matrix = m;
      payload = payload;
    },
    ground (
      arith,
      check_unique_complete " is used more than once" [] (targets ++ controls) h.0 (Outside-nil _),
      check_unique_complete " is measured more than once" [] measures h.1 (Outside-nil _),
    ),
    refl,
  )),
)

-- A unitary gate that `new_unitary` lets through has at least one target, no qubit twice among its
-- targets and controls, measures nothing, and carries a matrix that passed the unitarity test and
-- is sized for the number of targets.
pub new_unitary_sound :
    (approx_unitary : Matrix → Bool) (targets controls : List QubitRef) (elements : List Complex64)
    (g : Gate)
    → new_unitary approx_unitary targets controls elements ≡ ok g
    → (g.targets ≡ targets)
      × (g.controls ≡ controls)
      × (is_empty g.targets ≡ false)
      × Distinct (g.targets ++ g.controls)
      × (g.measures ≡ [])
      × ((m : Matrix) × (g.matrix ≡ some m)
          × (Matrix.new elements ≡ ok m)
          × (approx_unitary m ≡ true)
          × (sized_for m (length g.targets) ≡ true))
unfolding new_unitary
new_unitary_sound approx_unitary targets controls elements g h =
    ground (arith, check_unique_sound " is used more than once" [] (targets ++ controls))
