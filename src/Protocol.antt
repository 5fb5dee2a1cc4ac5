-- ===== src/Protocol.antt =====
-- `rust/src/core/common/protocol`: the messages between simulator, plugins and the gatestream.
use dqcsim_rs.Common.{ℕ, String, List, Option, Text}
use dqcsim_rs.Types.{PluginType, PluginMetadata}
use dqcsim_rs.Types.Sequence.{SequenceNumber}
use dqcsim_rs.Types.Cycle.{Cycles}
use dqcsim_rs.Types.Qubit.{QubitRef}
use dqcsim_rs.Types.Measurement.{QubitMeasurementResult}
use dqcsim_rs.Types.Arb.{ArbData, ArbCmd}
use dqcsim_rs.Types.Gate.{Gate}
use dqcsim_rs.Types.Log.{PluginLogConfiguration}

pub data PipelinedGatestreamDown : Type 0 where
  allocate : ℕ → List ArbCmd → PipelinedGatestreamDown
  free : List QubitRef → PipelinedGatestreamDown
  gate : Gate → PipelinedGatestreamDown
  advance : Cycles → PipelinedGatestreamDown

pub data GatestreamDown : Type 0 where
  pipelined : SequenceNumber → PipelinedGatestreamDown → GatestreamDown
  arb_request : ArbCmd → GatestreamDown

pub data GatestreamUp : Type 0 where
  completed_up_to : SequenceNumber → GatestreamUp
  failure : SequenceNumber → Text → GatestreamUp
  measured : QubitMeasurementResult → GatestreamUp
  advanced : Cycles → GatestreamUp
  arb_success : ArbData → GatestreamUp
  arb_failure : Text → GatestreamUp

-- `log_channel` is the handle of the sender of log records.
pub record PluginInitializeRequest : Type 0 where
  pub downstream : Option String
  pub plugin_type : PluginType
  pub seed : ℕ
  pub log_configuration : PluginLogConfiguration
  pub log_channel : ℕ

pub record FrontendRunRequest : Type 0 where
  pub start : Option ArbData
  pub messages : List ArbData

pub data SimulatorToPlugin : Type 0 where
  initialize : PluginInitializeRequest → SimulatorToPlugin
  accept_upstream : SimulatorToPlugin
  user_initialize : List ArbCmd → SimulatorToPlugin
  abort : SimulatorToPlugin
  run_request : FrontendRunRequest → SimulatorToPlugin
  arb_request : ArbCmd → SimulatorToPlugin

pub record PluginInitializeResponse : Type 0 where
  pub upstream : Option String
  pub metadata : PluginMetadata

pub record FrontendRunResponse : Type 0 where
  pub return_value : Option ArbData
  pub messages : List ArbData

pub data PluginToSimulator : Type 0 where
  success : PluginToSimulator
  failure : Text → PluginToSimulator
  initialized : PluginInitializeResponse → PluginToSimulator
  run_response : FrontendRunResponse → PluginToSimulator
  arb_response : ArbData → PluginToSimulator
