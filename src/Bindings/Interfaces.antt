-- ===== src/Bindings/Interfaces.antt =====
-- `UseHandleAs` of `rust/src/bindings/api_state.rs`: the interfaces through which an object is
-- used. `as_mut` is the pair of `as_ref` and `replace`, which writes the changed value back.
use Prim.Native.String.{String}
use dqcsim_rs.Common.{Option, none, some, List, [], ◌∷◌, Outcome, ok, err, fault, inv_arg, lit, say}
use dqcsim_rs.Types.Arb.{ArbData, ArbCmd}
use dqcsim_rs.Types.Gate.{Gate}
use dqcsim_rs.Types.Matrix.{Matrix}
use dqcsim_rs.Types.Measurement.{QubitMeasurementResult}
use dqcsim_rs.Types.Qubit.{QubitRef}
use dqcsim_rs.Bindings.Object.{
  ApiObject, arb_data, arb_cmd, arb_cmd_queue, qubit_reference_set, gate, qubit_measurement_result,
  qubit_measurement_result_set, matrix,
}

-- `take` returns its result and what it leaves in the resolved handle.
pub record Interface (X T : Type 0) : Type 0 where
  pub as_ref : ApiObject X → Outcome T
  pub replace : T → ApiObject X → ApiObject X
  pub take : ApiObject X → Outcome T × Option (ApiObject X)

abbrev not_supported {ℓ} : {A : Type ℓ} → String → Outcome A
not_supported name = inv_arg (lit "object does not support the " ∷ lit name ∷ lit " interface" ∷ [])

abbrev empty_queue {ℓ} : {A : Type ℓ} → String → Outcome A
empty_queue name =
    inv_arg (lit "empty command queue does not support " ∷ lit name ∷ lit " interface" ∷ [])

module _ {X : Type 0} where
  unfoldable pub arb_ref : ApiObject X → Outcome ArbData
  arb_ref (arb_data x) = ok x
  arb_ref (arb_cmd x) = ok x.payload
  arb_ref (arb_cmd_queue []) = empty_queue "arb"
  arb_ref (arb_cmd_queue (x ∷ xs)) = ok x.payload
  arb_ref (gate x) = ok x.payload
  arb_ref (qubit_measurement_result x) = ok x.payload
  arb_ref x = not_supported "arb"

  unfoldable pub arb_replace : ArbData → ApiObject X → ApiObject X
  arb_replace a (arb_data x) = arb_data a
  arb_replace a (arb_cmd x) = arb_cmd (record x { payload = a })
  arb_replace a (arb_cmd_queue []) = arb_cmd_queue []
  arb_replace a (arb_cmd_queue (x ∷ xs)) = arb_cmd_queue (record x { payload = a } ∷ xs)
  arb_replace a (gate x) = gate (record x { payload = a })
  arb_replace a (qubit_measurement_result x) = qubit_measurement_result (record x { payload = a })
  arb_replace a x = x

  -- A command queue is taken apart, and what is left of it is dropped.
  unfoldable pub arb_take : ApiObject X → Outcome ArbData × Option (ApiObject X)
  arb_take (arb_data x) = (ok x, none)
  arb_take (arb_cmd x) = (ok x.payload, none)
  arb_take (arb_cmd_queue []) = (empty_queue "arb", none)
  arb_take (arb_cmd_queue (x ∷ xs)) = (ok x.payload, none)
  arb_take (gate x) = (ok x.payload, none)
  arb_take (qubit_measurement_result x) = (ok x.payload, none)
  arb_take x = (not_supported "arb", some x)

  unfoldable pub cmd_ref : ApiObject X → Outcome ArbCmd
  cmd_ref (arb_cmd x) = ok x
  cmd_ref (arb_cmd_queue []) = empty_queue "cmd"
  cmd_ref (arb_cmd_queue (x ∷ xs)) = ok x
  cmd_ref x = not_supported "cmd"

  unfoldable pub cmd_replace : ArbCmd → ApiObject X → ApiObject X
  cmd_replace a (arb_cmd x) = arb_cmd a
  cmd_replace a (arb_cmd_queue []) = arb_cmd_queue []
  cmd_replace a (arb_cmd_queue (x ∷ xs)) = arb_cmd_queue (a ∷ xs)
  cmd_replace a x = x

  unfoldable pub cmd_take : ApiObject X → Outcome ArbCmd × Option (ApiObject X)
  cmd_take (arb_cmd x) = (ok x, none)
  cmd_take (arb_cmd_queue []) = (empty_queue "cmd", none)
  cmd_take (arb_cmd_queue (x ∷ xs)) = (ok x, none)
  cmd_take x = (not_supported "cmd", some x)

  unfoldable pub cq_ref : ApiObject X → Outcome (List ArbCmd)
  cq_ref (arb_cmd_queue x) = ok x
  cq_ref x = not_supported "cq"

  unfoldable pub qbset_ref : ApiObject X → Outcome (List QubitRef)
  qbset_ref (qubit_reference_set x) = ok x
  qbset_ref x = not_supported "qbset"

  unfoldable pub gate_ref : ApiObject X → Outcome Gate
  gate_ref (gate x) = ok x
  gate_ref x = not_supported "gate"

  unfoldable pub mat_ref : ApiObject X → Outcome Matrix
  mat_ref (matrix x) = ok x
  mat_ref x = not_supported "mat"

  unfoldable pub meas_ref : ApiObject X → Outcome QubitMeasurementResult
  meas_ref (qubit_measurement_result x) = ok x
  meas_ref x = not_supported "meas"

  unfoldable pub mset_ref : ApiObject X → Outcome (List (QubitRef × QubitMeasurementResult))
  mset_ref (qubit_measurement_result x) = inv_arg (say "handle does not support the mset interface")
  mset_ref (qubit_measurement_result_set x) = ok x
  mset_ref x = not_supported "mset"

  -- A single result is taken as the set of it.
  unfoldable pub mset_take :
      ApiObject X → Outcome (List (QubitRef × QubitMeasurementResult)) × Option (ApiObject X)
  mset_take (qubit_measurement_result x) = (ok ((x.qubit, x) ∷ []), none)
  mset_take (qubit_measurement_result_set x) = (ok x, none)
  mset_take x = (not_supported "mset", some x)

  -- `take` of the interfaces that one kind of object has: another is put back into the handle.
  unfoldable pub take_or_keep :
      {T : Type 0} → Outcome T → ApiObject X → Outcome T × Option (ApiObject X)
  take_or_keep (ok x) ob = (ok x, none)
  take_or_keep (err e) ob = (err e, some ob)
  take_or_keep (fault p) ob = (fault p, some ob)

  abbrev only : {T : Type 0} → (ApiObject X → Outcome T) → (T → ApiObject X) → Interface X T
  only ref make = record {
    as_ref = ref;
    replace = λ t _. make t;
    take = λ ob. take_or_keep (ref ob) ob;
  }

  abbrev pub arb : Interface X ArbData
  arb = record { as_ref = arb_ref; replace = arb_replace; take = arb_take }

  abbrev pub cmd : Interface X ArbCmd
  cmd = record { as_ref = cmd_ref; replace = cmd_replace; take = cmd_take }

  abbrev pub cq : Interface X (List ArbCmd)
  cq = only cq_ref arb_cmd_queue

  abbrev pub qbset : Interface X (List QubitRef)
  qbset = only qbset_ref qubit_reference_set

  abbrev pub gate_interface : Interface X Gate
  gate_interface = only gate_ref gate

  abbrev pub mat : Interface X Matrix
  mat = only mat_ref matrix

  abbrev pub meas : Interface X QubitMeasurementResult
  meas = only meas_ref qubit_measurement_result

  abbrev pub mset : Interface X (List (QubitRef × QubitMeasurementResult))
  mset = record {
    as_ref = mset_ref;
    replace = λ t _. qubit_measurement_result_set t;
    take = mset_take;
  }

  -- `UseHandleAs<APIObject>`.
  abbrev pub object : Interface X (ApiObject X)
  object = record { as_ref = λ ob. ok ob; replace = λ t _. t; take = λ ob. (ok ob, none) }
