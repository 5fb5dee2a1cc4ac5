-- ===== src/Tests.antt =====
-- The properties at concrete inputs, and the data for that.
mod Types
mod Cbor
mod Arb
mod Values
mod Simulator
mod Commands
mod Reproduction
mod Bindings
mod Host
mod Configuration
mod Plugin
mod Calls
use dqcsim_rs.Common.{ℕ, ◌+◌, true, false, List, [], ◌∷◌, none, some, return, ok}
use dqcsim_rs.Types.{PluginType, PluginMetadata}
use dqcsim_rs.Types.Cycle.{t_zero}
use dqcsim_rs.Types.Measurement.{QubitMeasurementResult, one_value}
use dqcsim_rs.Types.Arb.{ArbData, ArbCmd, no_data}
use dqcsim_rs.Types.Gate.{Gate, custom}
use dqcsim_rs.Plugin.Connection.{Connection, Incoming}
use dqcsim_rs.Plugin.State.{PluginState, ChaCha, Context}
use dqcsim_rs.Plugin.Rpc.{External}

abbrev pub counting : ChaCha ℕ
counting = record { seed_from_u64 = λ n. n; next_u64 = λ r. (r, r + 1) }

abbrev pub connected : Connection
connected = record {
  incoming = [];
  incoming_map = (0, Incoming.simulator) ∷ (1, Incoming.upstream) ∷ (2, Incoming.downstream) ∷ [];
  incoming_buffer = [];
  pending_upstream = false;
  has_upstream = true;
  has_downstream = true;
  send_results = [];
  outbox = [];
}

abbrev pub started : PluginState ℕ
started = record {
  connection = connected;
  inside_run = false;
  synchronized_to_rpcs = true;
  frontend_to_host_data = [];
  host_to_frontend_data = [];
  rng = some (record { rngs = 5 ∷ 6 ∷ 7 ∷ []; selected = 1 });
  upstream_qubit_ref_generator = record { counter = 1 };
  upstream_issued_up_to = 0;
  upstream_postponed = [];
  upstream_completed_up_to = 0;
  downstream_sequence_tx = record { counter = 1; previous = 0 };
  downstream_sequence_rx = 0;
  downstream_cycle_tx = t_zero;
  downstream_cycle_rx = t_zero;
  downstream_qubit_ref_generator = record { counter = 1 };
  downstream_qubit_data = [];
  downstream_measurement_queue = [];
  downstream_expected_measurements = [];
  aborted = false;
}

abbrev pub operating : Context ℕ
operating = record {
  typ = PluginType.operator;
  modify_measurement = λ m. return (m ∷ []);
  drain = λ qubits. qubits;
}

abbrev pub one : QubitMeasurementResult
one = record { qubit = 1; value = one_value; payload = no_data }

-- Two requests wait; the first of them is done downstream.
abbrev pub busy : PluginState ℕ
busy = record started {
  upstream_issued_up_to = 3;
  upstream_postponed = (1, 2, one ∷ []) ∷ (2, 3, []) ∷ [];
  upstream_completed_up_to = 1;
  downstream_sequence_rx = 1;
  downstream_sequence_tx = record { counter = 3; previous = 2 };
}

-- The qubits 1 and 2 are allocated.
abbrev pub holding : PluginState ℕ
holding = record started {
  downstream_qubit_ref_generator = record { counter = 3 };
  downstream_qubit_data =
      (1, record { measurement = none; last_mutation = 0 })
      ∷ (2, record { measurement = none; last_mutation = 0 })
      ∷ [];
}

abbrev pub measuring : Gate
measuring = record {
  typ = custom "measure";
  targets = 1 ∷ [];
  controls = [];
  measures = 2 ∷ [];
  matrix = none;
  payload = no_data;
}

abbrev pub asking : ArbCmd
asking = record { interface_identifier = "a"; operation_identifier = "b"; payload = no_data }

abbrev pub about : PluginMetadata
about = record { name = "op"; author = "a"; version = "1" }

abbrev pub outside : External
outside = record {
  setup_logging = ok tt;
  downstream_link = λ address. ok 2;
  server = ok "upstream";
  accepted = ok 1;
}
