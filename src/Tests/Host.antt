-- ===== src/Tests/Host.antt =====
-- The properties of `rust/src/core/host` at concrete inputs.
use dqcsim_rs.Common.{ℕ, ◌+◌, ◌≡◌, refl, [], ◌∷◌, ok, some, return}
use dqcsim_rs.Types.{PluginType}
use dqcsim_rs.Types.Arb.{no_data}
use dqcsim_rs.Types.Log.{LoglevelFilter}
use dqcsim_rs.Protocol.{FrontendRunResponse, PluginToSimulator, run_request}
use dqcsim_rs.Host.Accelerator.{start_pending}
use dqcsim_rs.Host.Plugin.{PluginTrait}
use dqcsim_rs.Host.Plugin
use dqcsim_rs.Host.Simulation.{
  Simulation, InitializedPlugin, HostCall, internal_yield, recv_call, wait_call,
}
use dqcsim_rs.Host.Simulation.Queues.{yield_request, internal_yield_sends}
use dqcsim_rs.Host.Simulation.States.{after_call, Allows, after_call-Allows}
use dqcsim_rs.Host.Simulation.Calls.{
  Answers, recv_spec, wait_spec, recv_call-recv_spec, wait_call-wait_spec,
}
use dqcsim_rs.Host.Simulation.New.{Chain, Wired, initialize_all, initialize_all-Wired}
use dqcsim_rs.Tests.{about, counting}

-- A frontend that counts its requests, sends two messages back and returns.
abbrev answer : FrontendRunResponse
answer = record {
  return_value = some no_data;
  messages = no_data ∷ record { cbor = 0 ∷ []; args = [] } ∷ [];
}

abbrev frontend : PluginTrait ℕ
frontend = record {
  spawn = return tt;
  plugin_type = λ _. PluginType.frontend;
  init_cmds = λ _. [];
  log_configuration =
      λ _. record { name = "front"; verbosity = LoglevelFilter.info; tee_files = [] };
  rpc = λ message n. (ok (PluginToSimulator.run_response answer), n + 1);
}

abbrev front : InitializedPlugin ℕ
front = record { plugin = 0; metadata = about }

-- A program is to be started, and a message is queued for it.
abbrev pending : Simulation ℕ
pending = record {
  pipeline = front ∷ [];
  state = start_pending no_data;
  host_to_accelerator_data = no_data ∷ [];
  accelerator_to_host_data = [];
  reproduction_log = some [];
}

pending-answer : Answers frontend pending answer
unfolding Plugin.run
pending-answer = (front, [], refl, refl)

recv_call-recv_spec_example :
    let (r, s') = recv_call frontend pending in
    (r, s'.accelerator_to_host_data, s'.state) ≡ recv_spec [] (start_pending no_data) answer
recv_call-recv_spec_example = recv_call-recv_spec frontend pending answer pending-answer

wait_call-wait_spec_example :
    let (r, s') = wait_call frontend pending in
    (r, s'.state) ≡ wait_spec (start_pending no_data) (some no_data)
wait_call-wait_spec_example = wait_call-wait_spec frontend pending answer pending-answer

after_call-Allows_example :
    Allows HostCall.wait (start_pending no_data) (after_call frontend HostCall.wait pending).state
after_call-Allows_example = after_call-Allows frontend HostCall.wait pending

internal_yield_sends_example :
    let s' = (internal_yield frontend pending).1 in
    (s'.pipeline
      ≡ record front { plugin = (frontend.rpc (run_request (yield_request pending)) 0).1 } ∷ [])
    × (s'.host_to_accelerator_data ≡ [])
    × (s'.reproduction_log ≡ some [])
internal_yield_sends_example = internal_yield_sends frontend pending front [] refl

-- A plugin that answers every request with an address.
abbrev addressed : PluginTrait ℕ
addressed = record {
  spawn = return tt;
  plugin_type = λ _. PluginType.operator;
  init_cmds = λ _. [];
  log_configuration = λ _. record { name = "op"; verbosity = LoglevelFilter.info; tee_files = [] };
  rpc = λ message n. (
    ok (PluginToSimulator.initialized (record { upstream = some "address"; metadata = about })),
    n + 1,
  );
}

abbrev chained : Chain ℕ
chained = record { downstream = some "address"; rng = 7; metadata = about ∷ about ∷ [] }

initialize_all-two :
    initialize_all addressed counting 0 5 (10 ∷ 20 ∷ []) ≡ (ok chained, 11 ∷ 21 ∷ [])
unfolding initialize_all Plugin.initialize
initialize_all-two = refl

initialize_all-Wired_example : Wired addressed counting 0 5 (10 ∷ 20 ∷ []) chained (11 ∷ 21 ∷ [])
initialize_all-Wired_example =
    initialize_all-Wired addressed counting 0 5 (10 ∷ 20 ∷ []) chained (11 ∷ 21 ∷ [])
      initialize_all-two
