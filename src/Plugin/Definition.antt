-- ===== src/Plugin/Definition.antt =====
-- `rust/src/core/plugin/definition.rs`: the callbacks of a plugin, and the defaults for each type.
-- The type, `modify_measurement` and the drain order stand in the `Context`.
pub mod Defaults
use dqcsim_rs.Common.{
  ℕ, String, List, [], ◌∷◌, length, Outcome, ok, inv_op, say, M, ◌>>=◌, ◌>>◌, return, lift,
}
use dqcsim_rs.Types.{PluginType, PluginMetadata}
use dqcsim_rs.Types.Cycle.{Cycles}
use dqcsim_rs.Types.Qubit.{QubitRef}
use dqcsim_rs.Types.Measurement.{QubitMeasurementResult}
use dqcsim_rs.Types.Arb.{ArbData, ArbCmd, no_data}
use dqcsim_rs.Types.Gate.{Gate}
use dqcsim_rs.Plugin.State.{PluginState, Context}
use dqcsim_rs.Plugin.Api

pub record PluginDefinition (R : Type 0) : Type 0 where
  pub context : Context R
  pub open context use *
  pub metadata : PluginMetadata
  pub initialize : List ArbCmd → M (PluginState R) (Unit {0})
  pub finalize : M (PluginState R) (Unit {0})
  pub run : ArbData → M (PluginState R) ArbData
  pub allocate : List QubitRef → List ArbCmd → M (PluginState R) (Unit {0})
  pub free : List QubitRef → M (PluginState R) (Unit {0})
  pub gate : Gate → M (PluginState R) (List QubitMeasurementResult)
  pub advance : Cycles → M (PluginState R) (Unit {0})
  pub upstream_arb : ArbCmd → M (PluginState R) ArbData
  pub host_arb : ArbCmd → M (PluginState R) ArbData

-- A callback that refuses.
abbrev pub refuse : {S A : Type 0} → String → M S A
refuse message = lift (inv_op (say message))

module _ {R : Type 0} (drain : List QubitRef → List QubitRef) where
  -- The default `modify_measurement` of each type.
  unfoldable pub new_context : PluginType → Context R
  new_context PluginType.frontend = record {
    typ = PluginType.frontend;
    modify_measurement = λ _. refuse "frontend.modify_measurement() called";
    drain = drain;
  }
  new_context PluginType.operator = record {
    typ = PluginType.operator;
    modify_measurement = λ m. return (m ∷ []);
    drain = drain;
  }
  new_context PluginType.backend = record {
    typ = PluginType.backend;
    modify_measurement = λ _. refuse "backend.modify_measurement() called";
    drain = drain;
  }

  unfoldable pub new : PluginType → PluginMetadata → PluginDefinition R
  unfolding new_context Api.allocate Api.free Api.gate Api.advance Api.arb
  new PluginType.frontend metadata = record {
    context = new_context PluginType.frontend;
    metadata = metadata;
    initialize = λ _. return tt;
    finalize = return tt;
    run = λ _. refuse "run() is not implemented";
    allocate = λ _ _. refuse "frontend.allocate() called";
    free = λ _. refuse "frontend.free() called";
    gate = λ _. refuse "frontend.gate() called";
    advance = λ _. refuse "frontend.advance() called";
    upstream_arb = λ _. refuse "frontend.upstream_arb() called";
    host_arb = λ _. return no_data;
  }
  new PluginType.operator metadata = record {
    context = new_context PluginType.operator;
    metadata = metadata;
    initialize = λ _. return tt;
    finalize = return tt;
    run = λ _. refuse "operator.run() called";
    allocate = λ qubits cmds.
        Api.allocate (new_context PluginType.operator) (length qubits) cmds >>= λ _. return tt;
    free = λ qubits. Api.free (new_context PluginType.operator) qubits;
    gate = λ g. Api.gate (new_context PluginType.operator) g >>= λ _. return [];
    advance = λ cycles. Api.advance (new_context PluginType.operator) cycles >>= λ _. return tt;
    upstream_arb = λ cmd. Api.arb (new_context PluginType.operator) cmd;
    host_arb = λ _. return no_data;
  }
  new PluginType.backend metadata = record {
    context = new_context PluginType.backend;
    metadata = metadata;
    initialize = λ _. return tt;
    finalize = return tt;
    run = λ _. refuse "backend.run() called";
    allocate = λ _ _. return tt;
    free = λ _. return tt;
    gate = λ _. refuse "gate() is not implemented";
    advance = λ _. return tt;
    upstream_arb = λ _. return no_data;
    host_arb = λ _. return no_data;
  }
