-- ===== src/Plugin/Downstream.antt =====
-- `rust/src/core/plugin/state.rs`: what a plugin does with the messages of the downstream plugin, and
-- how it waits for them. The log macros leave no trace.
pub mod Completion
pub mod Acknowledged
pub mod Fuel
pub mod Handling
pub mod Expected
pub mod Sync
use dqcsim_rs.Common.{
  ℕ, zero, suc, ◌+◌, Bool, true, false, if◌then◌else◌, List, [], ◌∷◌, ◌++◌, length, is_empty,
  Option, none, some, Outcome, ok, err, fault, panicked, out_of_fuel, other_err, lit, say, M, ◌>>=◌,
  ◌>>◌, pass, lift, return, modify, lookup, put, contains, remove,
}
use dqcsim_rs.Common.Int.{pos, pos_part, ltb_ℤ}
use dqcsim_rs.Types.{PluginType}
use dqcsim_rs.Types.Sequence.{SequenceNumber, acknowledges, after, preceding, get_previous}
use dqcsim_rs.Types.Cycle.{Cycle, Cycles, diff, advance}
use dqcsim_rs.Types.Qubit.{QubitRef}
use dqcsim_rs.Types.Measurement.{QubitMeasurementResult, undefined}
use dqcsim_rs.Types.Arb.{no_data}
use dqcsim_rs.Protocol.{GatestreamUp, completed_up_to, failure, measured, advanced}
use dqcsim_rs.Plugin.Connection.{
  Connection, IncomingMessage, OutgoingMessage, Event, Selection, selected, failed, send,
  next_downstream_request,
}
use dqcsim_rs.Plugin.State.{
  PluginState, QubitData, QubitMeasurementData, Context, on_connection, select_rng, selected_rng,
}

-- `self.connection.send(OutgoingMessage::Upstream(..))`.
unfoldable pub send_up : {R : Type 0} → GatestreamUp → M (PluginState R) (Unit {0})
unfolding send
send_up message = on_connection (send (OutgoingMessage.upstream message))

-- A loop that sends measurements upstream.
unfoldable pub send_measured :
    {R : Type 0} → List QubitMeasurementResult → M (PluginState R) (Unit {0})
unfolding send_up
send_measured [] s = (ok tt, s)
send_measured (m ∷ ms) s = pass (λ _. send_measured ms) (send_up (measured m) s)

-- The cycles since the measurement before, where there was one.
unfoldable pub measure_timer : Cycle → Option QubitMeasurementData → Outcome (Option Cycles)
unfolding diff
measure_timer timestamp none = ok none
measure_timer timestamp (some x) = elim (diff timestamp x.timestamp) [
  | ok delta ↦ if ltb_ℤ delta (pos 0) then fault panicked else ok (some (pos_part delta))
  | err e ↦ err e
  | fault p ↦ fault p
]

unfoldable pub is_operator : PluginType → Bool
is_operator PluginType.operator = true
is_operator _ = false

-- The latest measurement of a qubit goes to the cache.
unfoldable pub cache_measurement :
    {R : Type 0} → QubitMeasurementResult → QubitData → M (PluginState R) (Unit {0})
unfolding measure_timer
cache_measurement m data' s = elim (measure_timer s.downstream_cycle_rx data'.measurement) [
  | ok timer ↦ (
    ok tt,
    record s {
      downstream_qubit_data =
          put m.qubit
            (record data' {
              measurement = some (record {
                value = m.value;
                payload = m.payload;
                timestamp = s.downstream_cycle_rx;
                timer = timer;
              });
            })
            s.downstream_qubit_data;
    },
  )
  | err e ↦ (err e, s)
  | fault p ↦ (fault p, s)
]

-- `upstream_postponed`, from the front, as far as it is acknowledged. The first argument is the queue
-- itself, which nothing else changes meanwhile.
unfoldable pub flush_postponed :
    {R : Type 0}
    → List (SequenceNumber × SequenceNumber × List QubitMeasurementResult)
    → M (PluginState R) (Unit {0})
unfolding send_measured acknowledges
flush_postponed [] s = (ok tt, s)
flush_postponed ((downstream, upstream, measurements) ∷ rest) s =
    let more =
      pass (λ _. flush_postponed rest)
        (send_measured measurements (record s { upstream_postponed = rest })) in
    if acknowledges s.downstream_sequence_rx downstream then more else (ok tt, s)

-- The sequence number up to which everything is done, given the requests that still wait.
unfoldable pub completion :
    SequenceNumber
    → List (SequenceNumber × SequenceNumber × List QubitMeasurementResult)
    → SequenceNumber
unfolding after preceding
completion issued [] = issued
completion issued ((downstream, upstream, measurements) ∷ rest) =
    if after issued (preceding upstream) then preceding upstream else issued

-- The last step of `check_completed_up_to`.
unfoldable pub acknowledge : {R : Type 0} → SequenceNumber → M (PluginState R) (Unit {0})
unfolding send_up after
acknowledge completed s =
    if after completed s.upstream_completed_up_to
    then pass (λ _ s'. (ok tt, record s' { upstream_completed_up_to = completed }))
        (send_up (completed_up_to completed) s)
    else (ok tt, s)

unfoldable pub check_completed_up_to : {R : Type 0} → M (PluginState R) (Unit {0})
unfolding flush_postponed completion acknowledge
check_completed_up_to s =
    pass (λ _ s'. acknowledge (completion s.upstream_issued_up_to s'.upstream_postponed) s')
      (flush_postponed s.upstream_postponed s)

-- What is still to come: the buffered messages and the events of every selection.
unfoldable pub events_left : List Selection → ℕ
events_left [] = 0
events_left (selected events ∷ rest) = length events + events_left rest
events_left (failed e ∷ rest) = events_left rest

abbrev pub pending_messages : Connection → ℕ
pending_messages c = length c.incoming_buffer + events_left c.incoming

module _ {R : Type 0} (cx : Context R) where
  -- The measurement of an operator goes upstream as its callback modifies it.
  unfoldable pub propagate : QubitMeasurementResult → M (PluginState R) (Unit {0})
  unfolding is_operator send_measured
  propagate m s =
      if is_operator cx.typ then pass send_measured (cx.modify_measurement m s) else (ok tt, s)

  unfoldable pub handle_measurement : QubitMeasurementResult → M (PluginState R) (Unit {0})
  unfolding cache_measurement propagate
  handle_measurement m s = elim (lookup m.qubit s.downstream_qubit_data) [
    | none ↦ (ok tt, s)
    | some data' ↦ pass (λ _. propagate m) (cache_measurement m data' s)
  ]

  -- Whether the measurement belongs to the gate at the front of the queue; if so, the queue without it.
  abbrev pub expects :
      SequenceNumber
      → QubitRef
      → List (SequenceNumber × List QubitRef)
      → Option (List (SequenceNumber × List QubitRef))
  expects sequence qubit [] = none
  expects sequence qubit ((number, qubits) ∷ rest) =
      if (if acknowledges sequence number then contains qubits qubit else false)
      then some ((number, remove qubits qubit) ∷ rest)
      else none

  -- `if pop { self.downstream_expected_measurements.pop_front().unwrap(); }`: `pop` was read before
  -- the measurement was handled.
  unfoldable pub pop_expected : Bool → M (PluginState R) (Unit {0})
  pop_expected false s = (ok tt, s)
  pop_expected true s = elim s.downstream_expected_measurements [
    | [] ↦ (fault panicked, s)
    | e ∷ rest ↦ (ok tt, record s { downstream_expected_measurements = rest })
  ]

  abbrev pub front_done : List (SequenceNumber × List QubitRef) → Bool
  front_done [] = false
  front_done ((number, qubits) ∷ rest) = is_empty qubits

  -- The `for measurement in measurements` loop; an unexpected measurement is ignored.
  unfoldable pub check_measurements :
      SequenceNumber → List QubitMeasurementResult → M (PluginState R) (Unit {0})
  unfolding handle_measurement pop_expected acknowledges
  check_measurements sequence [] s = (ok tt, s)
  check_measurements sequence (m ∷ ms) s =
      elim (expects sequence m.qubit s.downstream_expected_measurements) [
        | none ↦ check_measurements sequence ms s
        | some expected ↦
            pass (λ _. check_measurements sequence ms)
              (pass (λ _. pop_expected (front_done expected))
                (handle_measurement m (record s { downstream_expected_measurements = expected })))
      ]

  -- The `for qubit in .. .drain()` loop.
  unfoldable pub fabricate : List QubitRef → M (PluginState R) (Unit {0})
  unfolding handle_measurement
  fabricate [] s = (ok tt, s)
  fabricate (qubit ∷ qubits) s = elim (lookup qubit s.downstream_qubit_data) [
    | none ↦ fabricate qubits s
    | some _ ↦
        pass (λ _. fabricate qubits)
          (handle_measurement (record { qubit = qubit; value = undefined; payload = no_data }) s)
  ]

  -- The `loop` over the gates that are acknowledged and still wait for measurements.
  unfoldable pub fabricate_missing : ℕ → SequenceNumber → M (PluginState R) (Unit {0})
  unfolding fabricate acknowledges
  fabricate_missing zero sequence s = (fault out_of_fuel, s)
  fabricate_missing (suc fuel) sequence s = elim s.downstream_expected_measurements [
    | [] ↦ (ok tt, s)
    | (number, qubits) ∷ rest ↦ elim (acknowledges sequence number) [
      | false ↦ (ok tt, s)
      | true ↦
          pass (λ _. fabricate_missing fuel sequence)
            (fabricate (cx.drain qubits) (record s { downstream_expected_measurements = rest }))
    ]
  ]

  -- The loop pops one gate a round, so one unit of fuel more than there are gates suffices.
  unfoldable pub check_missing : SequenceNumber → M (PluginState R) (Unit {0})
  unfolding fabricate_missing
  check_missing sequence s =
      fabricate_missing (length s.downstream_expected_measurements + 1) sequence s

  unfoldable pub received_downstream_sequence : SequenceNumber → M (PluginState R) (Unit {0})
  unfolding check_measurements check_missing check_completed_up_to
  received_downstream_sequence sequence s =
      (check_measurements sequence s.downstream_measurement_queue
          >> check_missing sequence
          >> check_completed_up_to)
        (record s { downstream_sequence_rx = sequence; downstream_measurement_queue = [] })

  -- The `match` of `handle_downstream_message`.
  unfoldable pub dispatch_downstream : GatestreamUp → M (PluginState R) (Unit {0})
  unfolding received_downstream_sequence advance
  dispatch_downstream (completed_up_to sequence) s = received_downstream_sequence sequence s
  dispatch_downstream (failure sequence message) s =
      (other_err (lit "simulation failed due to downstream error: " ∷ message), s)
  dispatch_downstream (measured m) s =
      (ok tt, record s { downstream_measurement_queue = s.downstream_measurement_queue ++ m ∷ [] })
  dispatch_downstream (advanced cycles) s = elim (advance s.downstream_cycle_rx cycles) [
    | ok cycle ↦ (ok tt, record s { downstream_cycle_rx = cycle })
    | err e ↦ (err e, s)
    | fault p ↦ (fault p, s)
  ]
  dispatch_downstream _ s = (other_err (say "unexpected message received from downstream"), s)

  unfoldable pub handle_downstream_message : GatestreamUp → M (PluginState R) (Unit {0})
  unfolding select_rng dispatch_downstream
  handle_downstream_message message =
      select_rng 2
      >> modify (λ s. record s { synchronized_to_rpcs = false })
      >> dispatch_downstream message

  -- `_synchronize_downstream_up_to`; a round takes one message.
  unfoldable pub receive_up_to : ℕ → SequenceNumber → M (PluginState R) (Unit {0})
  unfolding next_downstream_request handle_downstream_message after
  receive_up_to zero num s = (fault out_of_fuel, s)
  receive_up_to (suc fuel) num s = elim (after num s.downstream_sequence_rx) [
    | false ↦ (ok tt, s)
    | true ↦
        pass
          (λ request. elim request [
            | some (IncomingMessage.downstream message) ↦
                λ s'. pass (λ _. receive_up_to fuel num) (handle_downstream_message message s')
            | some _ ↦ λ s'. (fault panicked, s')
            | none ↦ λ s'. (other_err (say "Simulation aborted"), s')
          ])
          (on_connection next_downstream_request s)
  ]

  -- The end of `synchronize_downstream_up_to`, whatever the loop returned.
  unfoldable pub restore :
      ℕ → Outcome (Unit {0}) × PluginState R → Outcome (Unit {0}) × PluginState R
  unfolding select_rng
  restore rng_index (result, s) =
      pass (λ _ s'. (result, record s' { synchronized_to_rpcs = true })) (select_rng rng_index s)

  unfoldable pub synchronize_downstream_up_to : SequenceNumber → M (PluginState R) (Unit {0})
  unfolding receive_up_to restore selected_rng events_left
  synchronize_downstream_up_to num s =
      restore (selected_rng s) (receive_up_to (pending_messages s.connection + 1) num s)

  unfoldable pub synchronize_downstream : M (PluginState R) (Unit {0})
  unfolding synchronize_downstream_up_to
  synchronize_downstream s = synchronize_downstream_up_to (get_previous s.downstream_sequence_tx) s
