-- ===== src/Plugin/Definition/Defaults.antt =====
-- An operator with the default callbacks passes the gatestream on as it is.
use dqcsim_rs.Common.{
  ℕ, zero, suc, ◌+◌, ◌%◌, ◌^◌, true, false, ◌≡◌, refl, ap, List, [], ◌∷◌, ◌++◌, length, Outcome, ok,
  err, fault, pass, arith, collect,
}
use dqcsim_rs.Types.{PluginType, PluginMetadata}
use dqcsim_rs.Types.Sequence.{SequenceNumber, SequenceNumberGenerator, get_next, get_previous}
use dqcsim_rs.Types.Qubit
use dqcsim_rs.Types.Qubit.{QubitRef, QubitRefGenerator, take_counter}
use dqcsim_rs.Types.Measurement.{QubitMeasurementResult}
use dqcsim_rs.Types.Arb.{ArbCmd}
use dqcsim_rs.Types.Gate.{Gate}
use dqcsim_rs.Protocol.{PipelinedGatestreamDown}
use dqcsim_rs.Plugin.Connection.{Connection}
use dqcsim_rs.Plugin.State.{PluginState}
use dqcsim_rs.Plugin.Api
use dqcsim_rs.Plugin.Api.Guards.{live, blocked}
use dqcsim_rs.Plugin.Api.Qubits.{CanSendDown, requested, allocate_eq, free_lem}
use dqcsim_rs.Plugin.Api.Gates.{gate_lem, gate-upstream_postponed}
use dqcsim_rs.Plugin.Definition.{new, new_context}
use dqcsim_rs.Plugin.Downstream.{is_operator}
use dqcsim_rs.Plugin.Pipelined.{
  pipelined_response, queue_measurements, check_missing_measures, postpone_or_send,
}

length-take_counter : (n c : ℕ) → length (take_counter n c).0 ≡ n
unfolding take_counter
length-take_counter zero c = refl
length-take_counter (suc n) c = ap suc (length-take_counter n ((c + 1) % 2 ^ 64))

length-allocate : (g : QubitRefGenerator) (n : ℕ) → length (Qubit.allocate g n).0 ≡ n
unfolding Qubit.allocate
length-allocate g n = length-take_counter n g.counter

-- No measurement returned: an operator may do so.
queue_nothing :
    (measures : List QubitRef)
    → check_missing_measures PluginType.operator (queue_measurements [] measures []) ≡ (ok tt, [])
unfolding check_missing_measures queue_measurements is_operator
queue_nothing measures = ground arith

-- The result of a gate callback, as `pipelined_response` treats it.
abbrev answer :
    List QubitRef
    → Outcome (List QubitMeasurementResult)
    → Outcome (Unit {0}) × List QubitMeasurementResult
answer measures r = elim r [
  | ok measurements ↦
      check_missing_measures PluginType.operator (queue_measurements measurements measures [])
  | err e ↦ (err e, [])
  | fault p ↦ (fault p, [])
]

-- The default gate callback, for what the call downstream gave.
finish :
    {R : Type 0} (measures : List QubitRef) (c : Connection) (tx : SequenceNumberGenerator)
    (postponed : List (SequenceNumber × SequenceNumber × List QubitMeasurementResult))
    (x : Outcome (Unit {0}) × PluginState R)
    → x.0 ≡ ok tt
    → x.1.connection ≡ c
    → x.1.downstream_sequence_tx ≡ tx
    → x.1.upstream_postponed ≡ postponed
    → let (r, s') = pass (λ _ s. (ok [], s)) x in
      ((answer measures r).0 ≡ ok tt)
      × ((answer measures r).1 ≡ [])
      × (s'.connection ≡ c)
      × (get_previous s'.downstream_sequence_tx ≡ get_previous tx)
      × (s'.upstream_postponed ≡ postponed)
finish measures c tx postponed (ok u, s) e f t p =
    rw (queue_nothing measures) (refl, refl, f, ap (λ g. g.previous) t, p)
finish measures c tx postponed (err x, s) e f t p = absurd (cc e)
finish measures c tx postponed (fault x, s) e f t p = absurd (cc e)

module _ {R : Type 0} (drain : List QubitRef → List QubitRef) (metadata : PluginMetadata) where
  -- An operator with the default callbacks that may make calls, and whose own downstream plugin can be
  -- reached, answers an `Allocate` request of the upstream plugin by sending the same request on
  -- under its own next sequence number, and the references that the two sides count up stay the
  -- same if they were the same before: upstream and downstream the qubits have the same names.
  pub allocate-forwards :
      (s : PluginState R) (n : ℕ) (commands : List ArbCmd)
      → s.synchronized_to_rpcs ≡ true
      → CanSendDown s.connection
      → s.upstream_qubit_ref_generator ≡ s.downstream_qubit_ref_generator
      → let ((response, queued), s') =
          pipelined_response
            (new drain PluginType.operator metadata)
            (PipelinedGatestreamDown.allocate n commands)
            s in
        (response ≡ ok tt)
        × (queued ≡ [])
        × (s'.connection ≡ (requested (PipelinedGatestreamDown.allocate n commands) s).connection)
        × (s'.upstream_qubit_ref_generator ≡ s'.downstream_qubit_ref_generator)
        × (s'.upstream_qubit_ref_generator ≡ (Qubit.allocate s.upstream_qubit_ref_generator n).1)
  unfolding pipelined_response new new_context Api.is_backend
  allocate-forwards s n commands sync can same =
      let s1 = record s {
        upstream_qubit_ref_generator = (Qubit.allocate s.upstream_qubit_ref_generator n).1;
      } in
      let b : blocked {R = R} (new_context drain PluginType.operator) s1 ≡ false = rw sync refl in
      rw
        (
          length-allocate s.upstream_qubit_ref_generator n,
          allocate_eq (new_context drain PluginType.operator) s1 n commands b can,
        )
        (refl, refl, refl, ap (λ g. (Qubit.allocate g n).1) same, refl)

  -- The same operator answers a `Gate` request on qubits that it knows by sending the same gate on, and
  -- queues no measurement. The acknowledgement, for the number of the request, then joins the end of
  -- the postponed ones with no measurements, to wait for the number that the gate went out under.
  pub gate-forwards :
      (s : PluginState R) (g : Gate) (sequence : SequenceNumber)
      → s.synchronized_to_rpcs ≡ true
      → live s g.targets ≡ true
      → live s g.controls ≡ true
      → live s g.measures ≡ true
      → CanSendDown s.connection
      → let definition = new {R = R} drain PluginType.operator metadata in
        let ((response, queued), s') =
          pipelined_response definition (PipelinedGatestreamDown.gate g) s in
        let (result, s'') = postpone_or_send definition sequence queued s' in
        (response ≡ ok tt)
        × (queued ≡ [])
        × (s'.connection ≡ (requested (PipelinedGatestreamDown.gate g) s).connection)
        × (result ≡ ok tt)
        × (s''.connection ≡ s'.connection)
        × (s''.upstream_postponed
            ≡ s.upstream_postponed ++ ((get_next s.downstream_sequence_tx).0, sequence, []) ∷ [])
  unfolding pipelined_response new new_context Api.is_backend get_next postpone_or_send is_operator
  gate-forwards s g sequence sync t c m can =
      let cx = new_context {R = R} drain PluginType.operator in
      let b : blocked cx s ≡ false = rw sync refl in
      let h = gate_lem cx s g 0 b t c m can in
      let kept = gate-upstream_postponed cx s g b t c m can in
      let (response, queued, sent, number, postponed) =
        finish (collect [] g.measures) _ _ _ (Api.gate cx g s) (h.0) (h.1) (h.2) kept in
      (response, queued, sent, refl, refl, rw (queued, number, postponed) refl)

  -- And so does a `Free` request for qubits that it knows.
  pub free-forwards :
      (s : PluginState R) (qubits : List QubitRef)
      → s.synchronized_to_rpcs ≡ true
      → live s qubits ≡ true
      → CanSendDown s.connection
      → let ((response, queued), s') =
          pipelined_response
            (new drain PluginType.operator metadata)
            (PipelinedGatestreamDown.free qubits)
            s in
        (response ≡ ok tt)
        × (queued ≡ [])
        × (s'.connection ≡ (requested (PipelinedGatestreamDown.free qubits) s).connection)
  unfolding pipelined_response new new_context Api.is_backend Qubit.free
  free-forwards s qubits sync l can =
      let cx = new_context {R = R} drain PluginType.operator in
      let b : blocked cx s ≡ false = rw sync refl in
      let f = free_lem cx s qubits 0 b l can in (f.0, refl, f.1)
