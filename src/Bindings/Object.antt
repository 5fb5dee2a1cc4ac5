-- ===== src/Bindings/Object.antt =====
-- `APIObject` of `rust/src/bindings/api_state.rs`, the objects behind the handles. `X` stands for
-- the values of the kinds that the table only carries: gate maps, configurations, simulators,
-- plugin definitions and join handles. A configuration or definition shows its plugin type.
use dqcsim_rs.Common.{List}
use dqcsim_rs.Types.{PluginType}
use dqcsim_rs.Types.Arb.{ArbData, ArbCmd}
use dqcsim_rs.Types.Gate.{Gate}
use dqcsim_rs.Types.Matrix.{Matrix}
use dqcsim_rs.Types.Measurement.{QubitMeasurementResult}
use dqcsim_rs.Types.Qubit.{QubitRef}

pub data ApiObject (X : Type 0) : Type 0 where
  arb_data : ArbData → ApiObject X
  arb_cmd : ArbCmd → ApiObject X
  arb_cmd_queue : List ArbCmd → ApiObject X
  qubit_reference_set : List QubitRef → ApiObject X
  gate : Gate → ApiObject X
  qubit_measurement_result : QubitMeasurementResult → ApiObject X
  -- The map of the results by their qubits, in the order of its iteration.
  qubit_measurement_result_set : List (QubitRef × QubitMeasurementResult) → ApiObject X
  matrix : Matrix → ApiObject X
  gate_map : X → ApiObject X
  plugin_process_configuration : PluginType → X → ApiObject X
  plugin_thread_configuration : PluginType → X → ApiObject X
  simulator_configuration : X → ApiObject X
  simulator : X → ApiObject X
  plugin_definition : PluginType → X → ApiObject X
  plugin_join_handle : X → ApiObject X
