-- ===== src/Plugin/Api.antt =====
-- `rust/src/core/plugin/state.rs`: the calls that the user code of a frontend or an operator makes on
-- the downstream plugin.
pub mod Guards
pub mod Qubits
pub mod Gates
pub mod Measurements
use dqcsim_rs.Common.{
  ℕ, Bool, true, false, not, if◌then◌else◌, String, List, [], ◌∷◌, ◌++◌, is_empty, Option, none,
  some, Outcome, ok, err, fault, panicked, other_err, inv_arg, lit, num, say, M, ErrorKind, ◌>>=◌,
  ◌>>◌, pass, lift, return, guard, modify, gets, lookup, put, erase, collect,
}
use dqcsim_rs.Common.Int.{pos, pos_part, leb_ℤ}
use dqcsim_rs.Types.{PluginType}
use dqcsim_rs.Types.Sequence.{SequenceNumber, no_sequence, get_next, get_previous}
use dqcsim_rs.Types.Cycle.{Cycle, Cycles, diff}
use dqcsim_rs.Types.Cycle
use dqcsim_rs.Types.Qubit.{QubitRef}
use dqcsim_rs.Types.Qubit
use dqcsim_rs.Types.Measurement.{QubitMeasurementResult}
use dqcsim_rs.Types.Arb.{ArbData, ArbCmd}
use dqcsim_rs.Types.Gate.{Gate}
use dqcsim_rs.Protocol
use dqcsim_rs.Protocol.{
  GatestreamUp, GatestreamDown, PipelinedGatestreamDown, pipelined, arb_success, arb_failure,
}
use dqcsim_rs.Plugin.Connection.{IncomingMessage, OutgoingMessage, send, next_downstream_request}
use dqcsim_rs.Plugin.State.{PluginState, QubitData, QubitMeasurementData, Context, on_connection}
use dqcsim_rs.Plugin.Downstream.{synchronize_downstream, synchronize_downstream_up_to}

unfoldable pub is_backend : PluginType → Bool
is_backend PluginType.backend = true
is_backend _ = false

-- `check_qubits_live`.
unfoldable pub check_qubits_live : {R : Type 0} → List QubitRef → M (PluginState R) (Unit {0})
check_qubits_live [] s = (ok tt, s)
check_qubits_live (qubit ∷ qubits) s = elim (lookup qubit s.downstream_qubit_data) [
  | some _ ↦ check_qubits_live qubits s
  | none ↦ (inv_arg (lit "qubit " ∷ num qubit ∷ lit " is not allocated" ∷ []), s)
]

-- A pipelined request under the next sequence number.
unfoldable pub send_down : {R : Type 0} → PipelinedGatestreamDown → M (PluginState R) (Unit {0})
unfolding get_next send
send_down request s =
    let (sequence, g) = get_next s.downstream_sequence_tx in
    on_connection (send (OutgoingMessage.downstream (pipelined sequence request)))
      (record s { downstream_sequence_tx = g })

-- Classical storage for new qubits.
unfoldable pub insert_qubits :
    List QubitRef → List (QubitRef × QubitData) → List (QubitRef × QubitData)
insert_qubits [] m = m
insert_qubits (q ∷ qs) m =
    insert_qubits qs (put q (record { measurement = none; last_mutation = no_sequence }) m)

unfoldable pub remove_qubits :
    List QubitRef → List (QubitRef × QubitData) → List (QubitRef × QubitData)
remove_qubits [] m = m
remove_qubits (q ∷ qs) m = remove_qubits qs (erase q m)

-- `get_mut(measure).unwrap().last_mutation = sequence`, for each measured qubit.
unfoldable pub mark_mutations :
    SequenceNumber
    → List QubitRef
    → List (QubitRef × QubitData)
    → Outcome (List (QubitRef × QubitData))
mark_mutations sequence [] m = ok m
mark_mutations sequence (q ∷ qs) m = elim (lookup q m) [
  | none ↦ fault panicked
  | some d ↦ mark_mutations sequence qs (put q (record d { last_mutation = sequence }) m)
]

module _ {R : Type 0} (cx : Context R) where
  -- The two guards at the head of each call.
  unfoldable pub check_call : String → M (PluginState R) (Unit {0})
  unfolding is_backend
  check_call name s =
      (guard (is_backend cx.typ)
            (ErrorKind.invalid_operation (lit name ∷ lit "() is not available for backends" ∷ []))
          >> guard (not s.synchronized_to_rpcs) (
              ErrorKind.invalid_operation
                (lit name ∷ lit "() cannot be called while handling a gatestream response" ∷ [])))
        s

  -- Fresh references, with storage for each.
  unfoldable pub new_qubits : ℕ → M (PluginState R) (List QubitRef)
  unfolding Qubit.allocate insert_qubits
  new_qubits num_qubits s =
      let (qubits, g) = Qubit.allocate s.downstream_qubit_ref_generator num_qubits in
      (
        ok qubits,
        record s {
          downstream_qubit_ref_generator = g;
          downstream_qubit_data = insert_qubits qubits s.downstream_qubit_data;
        },
      )

  unfoldable pub allocate : ℕ → List ArbCmd → M (PluginState R) (List QubitRef)
  unfolding check_call new_qubits send_down
  allocate num_qubits commands = do
    check_call "allocate"
    qubits ← new_qubits num_qubits
    send_down (PipelinedGatestreamDown.allocate num_qubits commands)
    return qubits

  unfoldable pub free : List QubitRef → M (PluginState R) (Unit {0})
  unfolding check_call check_qubits_live send_down remove_qubits Qubit.free
  free qubits = do
    check_call "free"
    check_qubits_live qubits
    send_down (PipelinedGatestreamDown.free qubits)
    modify (λ s. record s {
      downstream_qubit_data = remove_qubits qubits s.downstream_qubit_data;
      downstream_qubit_ref_generator = Qubit.free s.downstream_qubit_ref_generator qubits;
    })

  -- What `gate` records after the request is sent.
  unfoldable pub expect_measures : List QubitRef → M (PluginState R) (Unit {0})
  unfolding mark_mutations
  expect_measures measures s =
      let sequence = get_previous s.downstream_sequence_tx in
      elim (mark_mutations sequence measures s.downstream_qubit_data) [
        | ok m ↦ (
          ok tt,
          record s {
            downstream_qubit_data = m;
            downstream_expected_measurements =
                if is_empty measures
                then s.downstream_expected_measurements
                else s.downstream_expected_measurements ++ (sequence, measures) ∷ [];
          },
        )
        | err e ↦ (err e, s)
        | fault p ↦ (fault p, s)
      ]

  unfoldable pub gate : Gate → M (PluginState R) (Unit {0})
  unfolding check_call check_qubits_live send_down expect_measures collect
  gate g = do
    check_call "gate"
    check_qubits_live g.targets
    check_qubits_live g.controls
    check_qubits_live g.measures
    send_down (PipelinedGatestreamDown.gate g)
    expect_measures (collect [] g.measures)

  -- The guards, the wait for the last mutation of the qubit, and its latest measurement.
  unfoldable pub synced_measurement : String → QubitRef → M (PluginState R) QubitMeasurementData
  unfolding check_call synchronize_downstream_up_to
  synced_measurement name qubit = do
    check_call name
    λ s. elim (lookup qubit s.downstream_qubit_data) [
      | none ↦ (inv_arg (lit "qubit " ∷ num qubit ∷ lit " is not allocated" ∷ []), s)
      | some data' ↦
          pass
            (λ _ s'. elim (lookup qubit s'.downstream_qubit_data) [
              | none ↦ (fault panicked, s')
              | some data'' ↦ elim data''.measurement [
                | some measurement ↦ (ok measurement, s')
                | none ↦
                    (inv_arg (lit "qubit " ∷ num qubit ∷ lit " has not been measured yet" ∷ []), s')
              ]
            ])
            (synchronize_downstream_up_to cx data'.last_mutation s)
    ]

  unfoldable pub get_measurement : QubitRef → M (PluginState R) QubitMeasurementResult
  unfolding synced_measurement
  get_measurement qubit = do
    m ← synced_measurement "get_measurement" qubit
    return (record { qubit = qubit; value = m.value; payload = m.payload })

  -- `assert!(delta >= 0); Ok(delta as u64)`.
  unfoldable pub get_cycles_since_measure : QubitRef → M (PluginState R) ℕ
  unfolding synced_measurement diff
  get_cycles_since_measure qubit = do
    m ← synced_measurement "get_cycles_since_measure" qubit
    now ← gets (λ s. s.downstream_cycle_tx)
    delta ← lift (diff now m.timestamp)
    λ s. if leb_ℤ (pos 0) delta then (ok (pos_part delta), s) else (fault panicked, s)

  unfoldable pub get_cycles_between_measures : QubitRef → M (PluginState R) ℕ
  unfolding synced_measurement
  get_cycles_between_measures qubit = do
    m ← synced_measurement "get_cycles_between_measures" qubit
    lift (elim m.timer [
      | some timer ↦ ok timer
      | none ↦ inv_arg (lit "qubit " ∷ num qubit ∷ lit " has only been measured once" ∷ [])
    ])

  unfoldable pub advance : Cycles → M (PluginState R) Cycle
  unfolding check_call send_down Cycle.advance
  advance cycles = do
    check_call "advance"
    cycle ← λ s. (Cycle.advance s.downstream_cycle_tx cycles, s)
    modify (λ s. record s { downstream_cycle_tx = cycle })
    send_down (PipelinedGatestreamDown.advance cycles)
    return cycle

  unfoldable pub get_cycle : M (PluginState R) Cycle
  unfolding check_call
  get_cycle = do check_call "get_cycle"; gets (λ s. s.downstream_cycle_tx)

  -- The answer to an `ArbRequest`.
  unfoldable pub arb_answer : Option IncomingMessage → Outcome ArbData
  arb_answer (some (IncomingMessage.downstream (arb_success x))) = ok x
  arb_answer (some (IncomingMessage.downstream (arb_failure e))) = other_err e
  arb_answer (some (IncomingMessage.downstream _)) =
      other_err (say "Protocol error: unexpected message from downstream")
  arb_answer (some _) = fault panicked
  arb_answer none = other_err (say "Simulation aborted")

  unfoldable pub arb : ArbCmd → M (PluginState R) ArbData
  unfolding check_call synchronize_downstream arb_answer send next_downstream_request
  arb cmd = do
    check_call "arb"
    synchronize_downstream cx
    on_connection (send (OutgoingMessage.downstream (GatestreamDown.arb_request cmd)))
    answer ← on_connection next_downstream_request
    lift (arb_answer answer)
