-- ===== src/Bindings/Mset.antt =====
-- `rust/src/bindings/external/common/meas.rs` and `mset.rs`: measurement results and sets of them.
use dqcsim_rs.Common.{
  ℕ, Bool, true, false, Option, none, some, List, [], ◌∷◌, Outcome, ok, err, fault, inv_arg, M,
  pass, and_then, say, length, lookup, put, erase, ok_or,
}
use dqcsim_rs.Common.Int.{ℤ, pos, negsuc}
use dqcsim_rs.Types.Arb.{no_data}
use dqcsim_rs.Types.Measurement.{QubitMeasurementResult, QubitMeasurementValue}
use dqcsim_rs.Types.Qubit.{QubitRef, to_foreign}
use dqcsim_rs.Bindings.Object.{qubit_measurement_result, qubit_measurement_result_set}
use dqcsim_rs.Bindings.State.{ApiState, insert, api_return}
use dqcsim_rs.Bindings.Interfaces.{meas, mset}
use dqcsim_rs.Bindings.Calls.{
  ReturnCode, BoolReturn, receive_qubit, with_ref, with_mut, take_pending, api_return_none,
  api_return_bool,
}

-- `HashMap<QubitRef, QubitMeasurementResult>`.
abbrev pub MeasurementSet : Type 0
MeasurementSet = List (QubitRef × QubitMeasurementResult)

abbrev invalid_value : Option QubitMeasurementValue → Outcome QubitMeasurementValue
invalid_value value = ok_or value (say "invalid measurement value specified")

abbrev absent : {A : Type 0} → Option A → Outcome A
absent x = ok_or x (say "qubit not included in measurement set")

-- A result of a body that changes nothing.
abbrev unchanged : {A T S : Type 0} → T → Outcome A × S → (Outcome A × T) × S
unchanged t (r, s) = ((r, t), s)

unfoldable pub remove_from :
    MeasurementSet → Outcome QubitRef → Outcome (QubitMeasurementResult × MeasurementSet)
remove_from set qubit =
    and_then qubit (λ q. and_then (absent (lookup q set)) (λ x. ok (x, erase q set)))

unfoldable pub has_key : Option QubitMeasurementResult → Bool
has_key none = false
has_key (some x) = true

-- `keys().next()`: the first key in the order of the iteration.
unfoldable pub first_of : MeasurementSet → Outcome (QubitMeasurementResult × MeasurementSet)
first_of [] = inv_arg (say "measurement set is empty")
first_of ((q, m) ∷ set) = ok (m, erase q set)

abbrev new_result : QubitRef → QubitMeasurementValue → Outcome QubitMeasurementResult
new_result q v = ok (record { qubit = q; value = v; payload = no_data })

module _ {X : Type 0} where
  -- The value is `none` for a number that is no measurement value.
  unfoldable pub dqcs_meas_new : ℕ → Option QubitMeasurementValue → M (ApiState X) ℕ
  dqcs_meas_new qubit value s = api_return 0 (
      pass (λ m. insert (qubit_measurement_result m))
        (
          and_then (receive_qubit qubit)
              (λ q. and_then (invalid_value value) (λ v. new_result q v)),
          s,
        ))

  unfoldable pub dqcs_meas_qubit_get : ℕ → M (ApiState X) ℕ
  dqcs_meas_qubit_get m s = api_return 0 (with_ref meas m (λ x s. (to_foreign x.qubit, s)) s)

  unfoldable pub set_qubit :
      Outcome QubitRef
      → QubitMeasurementResult
      → ApiState X
      → (Outcome (Unit {0}) × QubitMeasurementResult) × ApiState X
  set_qubit (ok q) x s = ((ok tt, record x { qubit = q }), s)
  set_qubit (err e) x s = ((err e, x), s)
  set_qubit (fault p) x s = ((fault p, x), s)

  unfoldable pub dqcs_meas_qubit_set : ℕ → ℕ → M (ApiState X) ReturnCode
  unfolding set_qubit
  dqcs_meas_qubit_set m qubit s =
      api_return_none (with_mut meas m (set_qubit (receive_qubit qubit)) s)

  -- `none` is `DQCS_MEAS_INVALID`.
  unfoldable pub dqcs_meas_value_get : ℕ → M (ApiState X) (Option QubitMeasurementValue)
  dqcs_meas_value_get m s = api_return none (with_ref meas m (λ x s. (ok (some x.value), s)) s)

  unfoldable pub set_value :
      Outcome QubitMeasurementValue
      → QubitMeasurementResult
      → ApiState X
      → (Outcome (Unit {0}) × QubitMeasurementResult) × ApiState X
  set_value (ok v) x s = ((ok tt, record x { value = v }), s)
  set_value (err e) x s = ((err e, x), s)
  set_value (fault p) x s = ((fault p, x), s)

  unfoldable pub dqcs_meas_value_set : ℕ → Option QubitMeasurementValue → M (ApiState X) ReturnCode
  unfolding set_value
  dqcs_meas_value_set m value s =
      api_return_none (with_mut meas m (set_value (invalid_value value)) s)

  unfoldable pub dqcs_mset_new : M (ApiState X) ℕ
  dqcs_mset_new = insert (qubit_measurement_result_set [])

  unfoldable pub dqcs_mset_len : ℕ → M (ApiState X) ℤ
  dqcs_mset_len set s =
      api_return (negsuc 0) (with_mut mset set (λ x s. ((ok (pos (length x)), x), s)) s)

  unfoldable pub dqcs_mset_contains : ℕ → ℕ → M (ApiState X) BoolReturn
  unfolding has_key
  dqcs_mset_contains set qubit s = api_return_bool (
      with_mut mset set
        (λ x s. ((and_then (receive_qubit qubit) (λ q. ok (has_key (lookup q x))), x), s)) s)

  -- The measurement is resolved while the set is out of the pool.
  unfoldable pub set_body :
      MeasurementSet
      → Outcome QubitMeasurementResult × ApiState X
      → (Outcome (Unit {0}) × MeasurementSet) × ApiState X
  set_body set (ok m, s) = ((ok tt, put m.qubit m set), s)
  set_body set (err e, s) = ((err e, set), s)
  set_body set (fault p, s) = ((fault p, set), s)

  unfoldable pub dqcs_mset_set : ℕ → ℕ → M (ApiState X) ReturnCode
  unfolding set_body
  dqcs_mset_set set m s =
      api_return_none (with_mut mset set (λ x s. set_body x (take_pending meas m s)) s)

  unfoldable pub dqcs_mset_get : ℕ → ℕ → M (ApiState X) ℕ
  dqcs_mset_get set qubit s = api_return 0 (
      with_ref mset set
        (λ x s.
          pass (λ m. insert (qubit_measurement_result m))
            (and_then (receive_qubit qubit) (λ q. absent (lookup q x)), s))
        s)

  -- `insert(mset.remove(..)?)`.
  unfoldable pub take_body :
      MeasurementSet
      → Outcome (QubitMeasurementResult × MeasurementSet)
      → ApiState X
      → (Outcome ℕ × MeasurementSet) × ApiState X
  take_body set (ok (m, rest)) s = unchanged rest (insert (qubit_measurement_result m) s)
  take_body set (err e) s = ((err e, set), s)
  take_body set (fault p) s = ((fault p, set), s)

  unfoldable pub dqcs_mset_take : ℕ → ℕ → M (ApiState X) ℕ
  unfolding take_body remove_from
  dqcs_mset_take set qubit s =
      api_return 0 (with_mut mset set (λ x. take_body x (remove_from x (receive_qubit qubit))) s)

  unfoldable pub remove_body :
      MeasurementSet
      → Outcome (QubitMeasurementResult × MeasurementSet)
      → ApiState X
      → (Outcome (Unit {0}) × MeasurementSet) × ApiState X
  remove_body set (ok (m, rest)) s = ((ok tt, rest), s)
  remove_body set (err e) s = ((err e, set), s)
  remove_body set (fault p) s = ((fault p, set), s)

  unfoldable pub dqcs_mset_remove : ℕ → ℕ → M (ApiState X) ReturnCode
  unfolding remove_body remove_from
  dqcs_mset_remove set qubit s =
      api_return_none
        (with_mut mset set (λ x. remove_body x (remove_from x (receive_qubit qubit))) s)

  unfoldable pub dqcs_mset_take_any : ℕ → M (ApiState X) ℕ
  unfolding take_body first_of
  dqcs_mset_take_any set s = api_return 0 (with_mut mset set (λ x. take_body x (first_of x)) s)
