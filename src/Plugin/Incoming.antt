-- ===== src/Plugin/Incoming.antt =====
-- `rust/src/core/plugin/state.rs`: the main loop of a plugin, and the calls between a running frontend and
-- the host.
use dqcsim_rs.Common.{
  ℕ, zero, suc, ◌+◌, Bool, true, false, not, if◌then◌else◌, [], ◌∷◌, ◌++◌, none, some, Outcome, ok,
  fault, out_of_fuel, other_err, say, M, ErrorKind, ◌>>=◌, ◌>>◌, pass, lift, return, guard, modify,
}
use dqcsim_rs.Types.Arb.{ArbData, unwrap}
use dqcsim_rs.Protocol.{SimulatorToPlugin, PluginToSimulator, GatestreamDown, FrontendRunRequest}
use dqcsim_rs.Plugin.Connection.{Connection, IncomingMessage, OutgoingMessage, send, next_request}
use dqcsim_rs.Plugin.State.{enter, PluginState, ChaCha, on_connection, initial}
use dqcsim_rs.Plugin.Downstream.{
  handle_downstream_message, synchronize_downstream, pending_messages,
}
use dqcsim_rs.Plugin.Definition.{PluginDefinition}
use dqcsim_rs.Plugin.Rpc.{External, handle_simulator}
use dqcsim_rs.Plugin.Pipelined.{handle_pipelined, handle_upstream_arb}

module _ {R : Type 0} (chacha : ChaCha R) (external : External)
    (definition : PluginDefinition R) where
  unfoldable pub dispatch_incoming : IncomingMessage → M (PluginState R) (Unit {0})
  unfolding handle_simulator handle_pipelined handle_upstream_arb handle_downstream_message
  dispatch_incoming (IncomingMessage.simulator message) =
      handle_simulator chacha external definition message
  dispatch_incoming (IncomingMessage.upstream (GatestreamDown.pipelined sequence message)) =
      handle_pipelined definition sequence message
  dispatch_incoming (IncomingMessage.upstream (GatestreamDown.arb_request cmd)) =
      handle_upstream_arb definition cmd
  dispatch_incoming (IncomingMessage.downstream message) =
      handle_downstream_message definition.context message

  -- The result says whether the plugin was aborted.
  unfoldable pub handle_incoming_message : IncomingMessage → M (PluginState R) Bool
  unfolding dispatch_incoming
  handle_incoming_message request s =
      pass (λ _ s'. (ok s'.aborted, s'))
        (if s.aborted then (ok tt, s) else dispatch_incoming request s)

  -- The loop of `PluginState::run`; each round takes a request.
  unfoldable pub run_loop : ℕ → M (PluginState R) (Unit {0})
  unfolding handle_incoming_message next_request
  run_loop zero s = (fault out_of_fuel, s)
  run_loop (suc fuel) s =
      pass
        (λ request s'. elim request [
          | none ↦ (ok tt, s')
          | some message ↦
              pass (λ aborted s''. elim aborted [ true ↦ (ok tt, s'') | false ↦ run_loop fuel s'' ])
                (handle_incoming_message message s')
        ])
        (on_connection next_request s)

  -- `PluginState::run`, once connected.
  unfoldable pub run : Connection → Outcome (Unit {0}) × PluginState R
  unfolding run_loop initial
  run connection = run_loop (pending_messages connection + 1) (initial connection)

  -- `send()` of a frontend.
  unfoldable pub send_to_host : ArbData → M (PluginState R) (Unit {0})
  send_to_host msg = λ s.
      (do
        guard (not s.inside_run) (
            ErrorKind.invalid_operation
              (say "send() can only be called from inside the run() callback"))
        modify (λ t. record t { frontend_to_host_data = t.frontend_to_host_data ++ msg ∷ [] }))
        s

  -- Control goes back to the host, with the messages that `send()` queued.
  unfoldable pub yield_to_host : M (PluginState R) (Unit {0})
  unfolding synchronize_downstream send
  yield_to_host = do
    synchronize_downstream definition.context
    messages ← λ s. (ok s.frontend_to_host_data, record s { frontend_to_host_data = [] })
    λ s.
        (let (r, s') =
            on_connection
              (send (
                OutgoingMessage.simulator (
                  PluginToSimulator.run_response
                    (record { return_value = none; messages = messages }))))
              s in
          (unwrap r, s'))

  -- A `RunRequest` that arrives inside `recv()`.
  unfoldable pub resume_run : FrontendRunRequest → M (PluginState R) (Unit {0})
  unfolding enter
  resume_run request = do
    enter 0
    modify (λ s. record s { host_to_frontend_data = s.host_to_frontend_data ++ request.messages })
    elim request.start [
      | none ↦ return tt
      | some _ ↦ lift (
          other_err
            (say "Protocol error: cannot start accelerator while accelerator is already running"))
    ]

  -- The two loops of `recv()`: `yielding` says that the outer one begins a round.
  unfoldable pub recv_loop : ℕ → Bool → M (PluginState R) ArbData
  unfolding yield_to_host resume_run handle_incoming_message next_request
  recv_loop zero yielding s = (fault out_of_fuel, s)
  recv_loop (suc fuel) yielding s = elim s.host_to_frontend_data [
    | x ∷ xs ↦ (ok x, record s { host_to_frontend_data = xs })
    | [] ↦
        pass
          (λ _ s'.
            pass
              (λ request s''. elim request [
                | none ↦ (other_err (say "Simulation aborted"), s'')
                | some (IncomingMessage.simulator (SimulatorToPlugin.run_request r)) ↦
                    pass (λ _. recv_loop fuel true) (resume_run r s'')
                | some message ↦
                    pass
                      (λ aborted t. elim aborted [
                        | true ↦ (other_err (say "Simulation aborted"), t)
                        | false ↦ recv_loop fuel false t
                      ])
                      (handle_incoming_message message s'')
              ])
              (on_connection next_request s'))
          (if yielding then yield_to_host s else (ok tt, s))
  ]

  -- `recv()` of a frontend.
  unfoldable pub recv_from_host : M (PluginState R) ArbData
  unfolding recv_loop
  recv_from_host s =
      pass (λ _ s'. recv_loop (pending_messages s'.connection + 1) true s')
        (guard (not s.inside_run)
          (ErrorKind.invalid_operation
            (say "recv() can only be called from inside the run() callback"))
          s)
