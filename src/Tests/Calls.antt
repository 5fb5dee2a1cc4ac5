-- ===== src/Tests/Calls.antt =====
-- The calls of `rust/src/core/plugin/state.rs` at concrete inputs.
use dqcsim_rs.Common.{
  remove, put, return, ℕ, ◌≡◌, refl, [], ◌∷◌, ok, false, some, none, lookup, contains, collect,
  is_empty, if◌then◌else◌,
}
use dqcsim_rs.Protocol.{PipelinedGatestreamDown, GatestreamUp}
use dqcsim_rs.Types.{PluginType}
use dqcsim_rs.Types.Qubit
use dqcsim_rs.Types.Sequence.{get_next}
use dqcsim_rs.Plugin.Api
use dqcsim_rs.Plugin.Api.Guards.{Refused, Rejected, calls-Refused, gate-Rejected}
use dqcsim_rs.Plugin.Api.Qubits.{CanSendDown, requested, new_data, allocate_lem}
use dqcsim_rs.Plugin.Api.Gates.{marked, gate_lem}
use dqcsim_rs.Plugin.State.{PluginState}
use dqcsim_rs.Plugin.Definition.{new}
use dqcsim_rs.Plugin.Definition.Defaults.{gate-forwards}
use dqcsim_rs.Plugin.Pipelined.{pipelined_response, postpone_or_send}
use dqcsim_rs.Plugin.Api.Measurements.{IsLatest, get_measurement-IsLatest}
use dqcsim_rs.Plugin.State.{Context}
use dqcsim_rs.Plugin.Connection.{IncomingMessage}
use dqcsim_rs.Plugin.Downstream.Fuel.{IsModest}
use dqcsim_rs.Tests.{one, connected, started, operating, holding, measuring, asking, about}

can_send_down : CanSendDown connected
can_send_down = record { connected = refl; open_end = refl }

-- While a message of the downstream plugin is handled.
abbrev handling : PluginState ℕ
handling = record holding { synchronized_to_rpcs = false }

calls-Refused_example :
    Refused handling (Api.allocate operating 2 [] handling)
    × Refused handling (Api.free operating (1 ∷ []) handling)
    × Refused handling (Api.gate operating measuring handling)
    × Refused handling (Api.get_measurement operating 1 handling)
    × Refused handling (Api.get_cycles_since_measure operating 1 handling)
    × Refused handling (Api.get_cycles_between_measures operating 1 handling)
    × Refused handling (Api.advance operating 5 handling)
    × Refused handling (Api.get_cycle operating handling)
    × Refused handling (Api.arb operating asking handling)
unfolding Api.is_backend
calls-Refused_example = calls-Refused operating handling 2 (1 ∷ []) 1 measuring 5 [] asking refl

gate-Rejected_example :
    Rejected started (Api.gate operating measuring started)
    × Rejected started (Api.free operating (3 ∷ []) started)
unfolding Api.is_backend lookup
gate-Rejected_example = gate-Rejected operating started measuring (3 ∷ []) refl refl refl

gate_lem_example :
    let (r, s') = Api.gate operating measuring holding in
    let sequence = (get_next holding.downstream_sequence_tx).0 in
    let measures = collect [] (2 ∷ []) in
    (r ≡ ok tt)
    × (s'.connection ≡ (requested (PipelinedGatestreamDown.gate measuring) holding).connection)
    × (s'.downstream_sequence_tx ≡ (get_next holding.downstream_sequence_tx).1)
    × (s'.downstream_expected_measurements
        ≡ (if is_empty measures then [] else (sequence, measures) ∷ []))
    × (lookup 2 s'.downstream_qubit_data
        ≡ marked sequence (contains measures 2) (lookup 2 holding.downstream_qubit_data))
unfolding Api.is_backend lookup
gate_lem_example = gate_lem operating holding measuring 2 refl refl refl refl can_send_down

allocate_lem_example :
    let (r, s') = Api.allocate operating 2 [] holding in
    let (qubits, g) = Qubit.allocate holding.downstream_qubit_ref_generator 2 in
    (r ≡ ok qubits)
    × (s'.downstream_qubit_ref_generator ≡ g)
    × (s'.connection ≡ (requested (PipelinedGatestreamDown.allocate 2 []) holding).connection)
    × (lookup 3 s'.downstream_qubit_data
        ≡ (if contains qubits 3 then some new_data else lookup 3 holding.downstream_qubit_data))
unfolding Api.is_backend
allocate_lem_example = allocate_lem operating holding 2 [] 3 refl can_send_down

gate-forwards_example :
    let definition = new (λ qubits. qubits) PluginType.operator about in
    let ((response, queued), s') =
      pipelined_response definition (PipelinedGatestreamDown.gate measuring) holding in
    let (result, s'') = postpone_or_send definition 4 queued s' in
    (response ≡ ok tt)
    × (queued ≡ [])
    × (s'.connection ≡ (requested (PipelinedGatestreamDown.gate measuring) holding).connection)
    × (result ≡ ok tt)
    × (s''.connection ≡ s'.connection)
    × (s''.upstream_postponed ≡ (1, 4, []) ∷ [])
unfolding lookup get_next
gate-forwards_example =
    gate-forwards (λ qubits. qubits) about holding measuring 4 refl refl refl refl can_send_down

abbrev fronting : Context ℕ
fronting = record {
  typ = PluginType.frontend;
  modify_measurement = λ m. return (m ∷ []);
  drain = λ qubits. qubits;
}

fronting-IsModest : IsModest fronting
fronting-IsModest m n expected = record { apply = λ s h. (h, λ e. cc e) }

-- The measurement of qubit 1 is on its way, in front of the completion of the gate that measures it.
abbrev measured : PluginState ℕ
measured = record holding {
  connection = record connected {
    incoming_buffer =
        IncomingMessage.downstream (GatestreamUp.measured one)
        ∷ IncomingMessage.downstream (GatestreamUp.completed_up_to 1)
        ∷ [];
  };
  downstream_qubit_data = (1, record { measurement = none; last_mutation = 1 }) ∷ [];
  downstream_expected_measurements = (1, 1 ∷ []) ∷ [];
}

get_measurement-IsLatest_example :
    IsLatest fronting 1 1 measured (Api.get_measurement fronting 1 measured)
unfolding Api.is_backend lookup
get_measurement-IsLatest_example =
    get_measurement-IsLatest fronting fronting-IsModest measured 1
      (record { measurement = none; last_mutation = 1 }) refl refl refl

-- The wait takes both messages, and the call returns the measurement.
measured_in_time : (Api.get_measurement fronting 1 measured).0 ≡ ok one
unfolding Api.get_measurement lookup contains remove put
measured_in_time = refl
