-- ===== src/Plugin/Rpc.antt =====
-- `rust/src/core/plugin/state.rs`: the requests of the simulator and their responses.
pub mod Responses
use dqcsim_rs.Common.{
  ℕ, zero, suc, ◌+◌, Bool, true, false, not, if◌then◌else◌, String, List, [], ◌∷◌, ◌++◌, is_empty,
  Option, none, some, Outcome, ok, err, fault, panicked, out_of_fuel, other_err, inv_op, lit, num,
  say, Text, Piece, M, ErrorKind, to_string, ◌>>=◌, ◌>>◌, pass, lift, return, guard, modify, gets,
  contains, remove, collect,
}
use dqcsim_rs.Types.{PluginType, PluginMetadata, same_type}
use dqcsim_rs.Types.Sequence.{SequenceNumber, get_previous}
use dqcsim_rs.Types.Qubit
use dqcsim_rs.Types.Qubit.{QubitRef}
use dqcsim_rs.Types.Measurement.{QubitMeasurementResult}
use dqcsim_rs.Types.Arb.{ArbData, ArbCmd, unwrap}
use dqcsim_rs.Types.Gate.{Gate}
use dqcsim_rs.Protocol.{
  SimulatorToPlugin, PluginToSimulator, GatestreamUp, GatestreamDown, PipelinedGatestreamDown,
  PluginInitializeRequest, PluginInitializeResponse, FrontendRunRequest, FrontendRunResponse,
}
use dqcsim_rs.Plugin.Connection.{
  Connection, IncomingMessage, OutgoingMessage, send, next_request, connect_downstream,
  serve_upstream, accept_upstream,
}
use dqcsim_rs.Plugin.State.{enter, PluginState, ChaCha, new_rng, on_connection, select_rng, initial}
use dqcsim_rs.Plugin.Downstream.{
  is_operator, send_up, send_measured, check_completed_up_to, handle_downstream_message,
  synchronize_downstream, pending_messages,
}
use dqcsim_rs.Plugin.Api.{is_backend}
use dqcsim_rs.Plugin.Definition.{PluginDefinition}

-- What the crates outside return while a plugin is set up: `setup_logging`, the connection to the address
-- of the downstream plugin, the one-shot server, and the connection of the upstream plugin.
pub record External : Type 0 where
  pub setup_logging : Outcome (Unit {0})
  pub downstream_link : String → Outcome ℕ
  pub server : Outcome String
  pub accepted : Outcome ℕ

unfoldable pub is_frontend : PluginType → Bool
is_frontend PluginType.frontend = true
is_frontend _ = false

-- A result as the response to an RPC: an error becomes a `Failure` with its message.
abbrev pub respond :
    {S A : Type 0} → (A → PluginToSimulator) → Outcome A × S → Outcome PluginToSimulator × S
respond f (ok a, s) = (ok (f a), s)
respond f (err e, s) = (ok (PluginToSimulator.failure (to_string e)), s)
respond f (fault p, s) = (fault p, s)

-- `{:?}` of a plugin type.
unfoldable pub type_name : PluginType → Piece
type_name PluginType.frontend = lit "Frontend"
type_name PluginType.operator = lit "Operator"
type_name PluginType.backend = lit "Backend"

module _ {R : Type 0} (chacha : ChaCha R) (external : External)
    (definition : PluginDefinition R) where
  -- `Setup logging` and the seeding of three streams.
  unfoldable pub handle_init : PluginInitializeRequest → M (PluginState R) PluginInitializeResponse
  unfolding new_rng same_type type_name is_backend is_frontend connect_downstream serve_upstream
  handle_init req = do
    lift external.setup_logging
    modify (λ s. record s { rng = some (new_rng chacha 3 req.seed) })
    guard (not (same_type definition.typ req.plugin_type)) (
        ErrorKind.invalid_operation (
          lit "host is expecting a plugin of type "
          ∷ type_name req.plugin_type
          ∷ lit ", but we're a plugin of type "
          ∷ type_name definition.typ
          ∷ []))
    (if is_backend definition.typ then return tt else elim req.downstream [
      | none ↦ λ s. (fault panicked, s)
      | some address ↦ on_connection (connect_downstream (external.downstream_link address))
    ])
    upstream ←
        (if is_frontend definition.typ then return none else λ s.
        pass (λ address. return (some address)) (on_connection (serve_upstream external.server) s))
    return (record { upstream = upstream; metadata = definition.metadata })

  unfoldable pub handle_accept_upstream : M (PluginState R) (Unit {0})
  unfolding accept_upstream
  handle_accept_upstream = on_connection (accept_upstream external.accepted)

  unfoldable pub handle_abort : M (PluginState R) (Unit {0})
  unfolding synchronize_downstream
  handle_abort =
      synchronize_downstream definition.context
      >> definition.finalize
      >> synchronize_downstream definition.context

  -- The `run()` callback, between setting and clearing `inside_run`.
  unfoldable pub run_callback : ArbData → M (PluginState R) ArbData
  run_callback args s =
      let (r, s') = definition.run args (record s { inside_run = true }) in
      (r, record s' { inside_run = false })

  unfoldable pub handle_run : FrontendRunRequest → M (PluginState R) FrontendRunResponse
  unfolding is_frontend run_callback
  handle_run req = do
    λ s. if s.inside_run then (fault panicked, s) else (ok tt, s)
    guard (not (is_frontend definition.typ)) (
        ErrorKind.invalid_operation
          (say "received run request from simulator, but we're not a frontend!"))
    modify (λ s. record s { host_to_frontend_data = s.host_to_frontend_data ++ req.messages })
    return_value ← elim req.start [
      | none ↦ return none
      | some args ↦ λ s. pass (λ v. return (some v)) (run_callback args s)
    ]
    λ s. (
      ok (record { return_value = return_value; messages = s.frontend_to_host_data }),
      record s { frontend_to_host_data = [] },
    )

  -- The `match` that makes the response to the simulator.
  unfoldable pub simulator_response : SimulatorToPlugin → M (PluginState R) PluginToSimulator
  unfolding handle_init handle_accept_upstream handle_abort handle_run to_string
  simulator_response (SimulatorToPlugin.initialize req) s =
      respond PluginToSimulator.initialized (handle_init req s)
  simulator_response SimulatorToPlugin.accept_upstream s =
      respond (λ _. PluginToSimulator.success) (handle_accept_upstream s)
  simulator_response (SimulatorToPlugin.user_initialize cmds) s =
      respond (λ _. PluginToSimulator.success) (definition.initialize cmds s)
  simulator_response SimulatorToPlugin.abort s =
      respond (λ _. PluginToSimulator.success) (handle_abort (record s { aborted = true }))
  simulator_response (SimulatorToPlugin.run_request req) s =
      respond PluginToSimulator.run_response (handle_run req s)
  simulator_response (SimulatorToPlugin.arb_request cmd) s =
      respond PluginToSimulator.arb_response (definition.host_arb cmd s)

  unfoldable pub handle_simulator : SimulatorToPlugin → M (PluginState R) (Unit {0})
  unfolding enter simulator_response synchronize_downstream send
  handle_simulator message = do
    enter 0
    response ← simulator_response message
    synchronize_downstream definition.context
    on_connection (send (OutgoingMessage.simulator response))
