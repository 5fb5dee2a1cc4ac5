-- ===== src/Bindings/Qbset.antt =====
-- `rust/src/bindings/external/common/qbset.rs`: sets of qubits, which keep their order.
use dqcsim_rs.Common.{
  ℕ, Bool, List, [], ◌∷◌, ◌++◌, Outcome, ok, err, fault, inv_arg, M, pass, say, length, contains,
  if◌then◌else◌,
}
use dqcsim_rs.Common.Int.{ℤ, pos, negsuc}
use dqcsim_rs.Types.Qubit.{QubitRef, to_foreign}
use dqcsim_rs.Bindings.Object.{qubit_reference_set}
use dqcsim_rs.Bindings.State.{ApiState, insert, api_return}
use dqcsim_rs.Bindings.Interfaces.{qbset}
use dqcsim_rs.Bindings.Calls.{
  ReturnCode, BoolReturn, receive_qubit, with_ref, with_mut, api_return_none, api_return_bool,
}

unfoldable pub push_qubit : QubitRef → List QubitRef → Outcome (Unit {0}) × List QubitRef
push_qubit qubit set =
    if contains set qubit
    then (inv_arg (say "the specified qubit is already part of the set"), set)
    else (ok tt, set ++ qubit ∷ [])

module _ {X : Type 0} where
  unfoldable pub dqcs_qbset_new : M (ApiState X) ℕ
  dqcs_qbset_new = insert (qubit_reference_set [])

  unfoldable pub contains_body :
      ℕ → List QubitRef → ApiState X → (Outcome Bool × List QubitRef) × ApiState X
  contains_body qubit set s =
      let (res, s') = pass (λ q s. (ok (contains set q), s)) (receive_qubit qubit, s) in
      ((res, set), s')

  unfoldable pub dqcs_qbset_contains : ℕ → ℕ → M (ApiState X) BoolReturn
  unfolding contains_body
  dqcs_qbset_contains set qubit s = api_return_bool (with_mut qbset set (contains_body qubit) s)

  unfoldable pub push_body :
      Outcome QubitRef
      → List QubitRef
      → ApiState X
      → (Outcome (Unit {0}) × List QubitRef) × ApiState X
  push_body (ok qubit) set s = (push_qubit qubit set, s)
  push_body (err e) set s = ((err e, set), s)
  push_body (fault p) set s = ((fault p, set), s)

  unfoldable pub dqcs_qbset_push : ℕ → ℕ → M (ApiState X) ReturnCode
  unfolding push_body push_qubit
  dqcs_qbset_push set qubit s =
      api_return_none (with_mut qbset set (push_body (receive_qubit qubit)) s)

  unfoldable pub pop_body : List QubitRef → ApiState X → (Outcome ℕ × List QubitRef) × ApiState X
  pop_body [] s = ((inv_arg (say "the qubit set is already empty"), []), s)
  pop_body (qubit ∷ set) s = ((to_foreign qubit, set), s)

  unfoldable pub dqcs_qbset_pop : ℕ → M (ApiState X) ℕ
  unfolding pop_body
  dqcs_qbset_pop set s = api_return 0 (with_mut qbset set pop_body s)

  unfoldable pub dqcs_qbset_len : ℕ → M (ApiState X) ℤ
  dqcs_qbset_len set s =
      api_return (negsuc 0) (with_ref qbset set (λ x s. (ok (pos (length x)), s)) s)

  unfoldable pub dqcs_qbset_copy : ℕ → M (ApiState X) ℕ
  dqcs_qbset_copy set s = api_return 0 (with_ref qbset set (λ x. insert (qubit_reference_set x)) s)
