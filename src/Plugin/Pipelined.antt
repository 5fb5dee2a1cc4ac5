-- ===== src/Plugin/Pipelined.antt =====
-- `rust/src/core/plugin/state.rs`: the requests of the upstream plugin and their acknowledgement.
pub mod Acks
use dqcsim_rs.Common.{
  ℕ, zero, suc, ◌+◌, Bool, true, false, not, if◌then◌else◌, String, List, [], ◌∷◌, ◌++◌, is_empty,
  Option, none, some, Outcome, ok, err, fault, panicked, out_of_fuel, other_err, inv_op, lit, num,
  say, Text, Piece, M, ErrorKind, to_string, ◌>>=◌, ◌>>◌, pass, lift, return, guard, modify, gets,
  contains, remove, collect,
}
use dqcsim_rs.Types.{PluginType, PluginMetadata, same_type}
use dqcsim_rs.Types.Sequence.{SequenceNumber, get_previous}
use dqcsim_rs.Types.Qubit
use dqcsim_rs.Types.Qubit.{QubitRef}
use dqcsim_rs.Types.Measurement.{QubitMeasurementResult}
use dqcsim_rs.Types.Arb.{ArbData, ArbCmd, unwrap}
use dqcsim_rs.Types.Gate.{Gate}
use dqcsim_rs.Protocol.{
  SimulatorToPlugin, PluginToSimulator, GatestreamUp, GatestreamDown, PipelinedGatestreamDown,
  PluginInitializeRequest, PluginInitializeResponse, FrontendRunRequest, FrontendRunResponse,
}
use dqcsim_rs.Plugin.Connection.{
  Connection, IncomingMessage, OutgoingMessage, send, next_request, connect_downstream,
  serve_upstream, accept_upstream,
}
use dqcsim_rs.Plugin.State.{enter, PluginState, ChaCha, new_rng, on_connection, select_rng, initial}
use dqcsim_rs.Plugin.Downstream.{
  is_operator, send_up, send_measured, check_completed_up_to, handle_downstream_message,
  synchronize_downstream, pending_messages,
}
use dqcsim_rs.Plugin.Api.{is_backend}
use dqcsim_rs.Plugin.Definition.{PluginDefinition}

-- The measurements that a gate callback returns, sorted into those that the gate asked for; returns the
-- measures that are still missing and the measurements to send, or the error of the callback's
-- closure, which keeps the measurements before it.
unfoldable pub queue_measurements :
    List QubitMeasurementResult
    → List QubitRef
    → List QubitMeasurementResult
    → Outcome (List QubitRef) × List QubitMeasurementResult
queue_measurements [] measures queued = (ok measures, queued)
queue_measurements (m ∷ ms) measures queued =
    let rest = queue_measurements ms (remove measures m.qubit) (queued ++ m ∷ []) in
    if contains measures m.qubit then rest else (
      other_err (
          lit "user-defined gate() function returned multiple measurements for qubit "
          ∷ num m.qubit
          ∷ []),
      queued,
    )

-- `friendly_enumerate(measures, Some("or"))`, as its pieces: what follows the first two of three or
-- more items, and the whole.
unfoldable pub enumerate_rest : QubitRef → QubitRef → List QubitRef → Text
enumerate_rest p r [] = num p ∷ lit ", or " ∷ num r ∷ []
enumerate_rest p r (x ∷ xs) = num p ∷ lit ", " ∷ enumerate_rest r x xs

unfoldable pub enumerate_qubits : List QubitRef → Text
unfolding enumerate_rest
enumerate_qubits [] = say "<nothing>"
enumerate_qubits (q ∷ []) = num q ∷ []
enumerate_qubits (q ∷ p ∷ []) = num q ∷ lit " or " ∷ num p ∷ []
enumerate_qubits (q ∷ p ∷ r ∷ qs) = num q ∷ lit ", " ∷ enumerate_rest p r qs

-- The end of the gate's closure: an operator may postpone measurements, a backend may not.
unfoldable pub check_missing_measures :
    PluginType
    → Outcome (List QubitRef) × List QubitMeasurementResult
    → Outcome (Unit {0}) × List QubitMeasurementResult
unfolding is_operator enumerate_qubits
check_missing_measures typ (err e, queued) = (err e, queued)
check_missing_measures typ (fault p, queued) = (fault p, queued)
check_missing_measures typ (ok measures, queued) =
    if is_empty measures then (ok tt, queued) else if is_operator typ then (ok tt, queued) else (
      other_err (
          lit "user-defined gate() function failed to return measurement for qubits "
          ∷ enumerate_qubits measures),
      queued,
    )

module _ {R : Type 0} (definition : PluginDefinition R) where
  -- The `match` on a pipelined request: its result, and the measurements that are queued.
  unfoldable pub pipelined_response :
      PipelinedGatestreamDown
      → PluginState R
      → (Outcome (Unit {0}) × List QubitMeasurementResult) × PluginState R
  unfolding Qubit.allocate Qubit.free queue_measurements check_missing_measures collect send_up
  pipelined_response (PipelinedGatestreamDown.allocate num_qubits commands) s =
      let (qubits, g) = Qubit.allocate s.upstream_qubit_ref_generator num_qubits in
      let (r, s') =
        definition.allocate qubits commands (record s { upstream_qubit_ref_generator = g }) in
      ((r, []), s')
  pipelined_response (PipelinedGatestreamDown.free qubits) s =
      let (r, s') = definition.free qubits (record s {
        upstream_qubit_ref_generator = Qubit.free s.upstream_qubit_ref_generator qubits;
      }) in
      ((r, []), s')
  pipelined_response (PipelinedGatestreamDown.gate g) s =
      let (r, s') = definition.gate g s in
      (
        elim r [
          | ok measurements ↦
              check_missing_measures definition.typ
                (queue_measurements measurements (collect [] g.measures) [])
          | err e ↦ (err e, [])
          | fault p ↦ (fault p, [])
        ],
        s',
      )
  pipelined_response (PipelinedGatestreamDown.advance cycles) s =
      let (r, s') =
        pass (λ _. definition.advance cycles) (send_up (GatestreamUp.advanced cycles) s) in
      ((r, []), s')

  -- `if let Err(e) = response { .. send(Failure(sequence, e)) }`.
  unfoldable pub report_failure : SequenceNumber → Outcome (Unit {0}) → M (PluginState R) (Unit {0})
  unfolding send_up to_string
  report_failure sequence (ok _) s = (ok tt, s)
  report_failure sequence (err e) s = send_up (GatestreamUp.failure sequence (to_string e)) s
  report_failure sequence (fault p) s = (fault p, s)

  -- An operator postpones the acknowledgement until its own requests are done; others send the
  -- measurements at once.
  unfoldable pub postpone_or_send :
      SequenceNumber → List QubitMeasurementResult → M (PluginState R) (Unit {0})
  unfolding is_operator send_measured
  postpone_or_send sequence queued s =
      if is_operator definition.typ
      then (
        ok tt,
        record s {
          upstream_postponed =
              s.upstream_postponed
              ++ (get_previous s.downstream_sequence_tx, sequence, queued) ∷ [];
        },
      )
      else send_measured queued s

  unfoldable pub handle_pipelined :
      SequenceNumber → PipelinedGatestreamDown → M (PluginState R) (Unit {0})
  unfolding enter pipelined_response report_failure postpone_or_send check_completed_up_to
  handle_pipelined sequence message = do
    enter 1
    λ s.
        (let ((response, queued), s') = pipelined_response message s in
          (report_failure sequence response
              >> modify (λ t. record t { upstream_issued_up_to = sequence })
              >> postpone_or_send sequence queued)
            s')
    check_completed_up_to

  -- The answer to an `ArbRequest` of the upstream plugin.
  abbrev pub respond_arb : Outcome ArbData × PluginState R → Outcome GatestreamUp × PluginState R
  respond_arb (ok r, s) = (ok (GatestreamUp.arb_success r), s)
  respond_arb (err e, s) = (ok (GatestreamUp.arb_failure (to_string e)), s)
  respond_arb (fault p, s) = (fault p, s)

  unfoldable pub handle_upstream_arb : ArbCmd → M (PluginState R) (Unit {0})
  unfolding enter send_up to_string
  handle_upstream_arb cmd = do
    enter 1
    response ← λ s. respond_arb (definition.upstream_arb cmd s)
    send_up response
