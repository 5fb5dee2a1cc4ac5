-- ===== src/Host/Plugin.antt =====
-- `rust/src/core/host/plugin/mod.rs`: the `Plugin` trait, as a record of its methods over the type
-- `P` of the plugins, and the calls that are made through `rpc`.
use dqcsim_rs.Common.{ℕ, String, List, Option, Outcome, ok, err, fault, other_err, say, M}
use dqcsim_rs.Types.{PluginType}
use dqcsim_rs.Types.Arb.{ArbData, ArbCmd}
use dqcsim_rs.Types.Log.{PluginLogConfiguration}
use dqcsim_rs.Protocol.{
  SimulatorToPlugin, PluginToSimulator, FrontendRunRequest, FrontendRunResponse,
  PluginInitializeResponse, success, failure, initialized, run_response, arb_response, run_request,
}
use dqcsim_rs.Protocol

pub record PluginTrait (P : Type 0) : Type 0 where
  pub spawn : M P (Unit {0})
  pub plugin_type : P → PluginType
  pub init_cmds : P → List ArbCmd
  pub log_configuration : P → PluginLogConfiguration
  pub rpc : SimulatorToPlugin → M P PluginToSimulator

-- `checked_rpc!`, one version for each response that is expected.
unfoldable pub expect_success : Outcome PluginToSimulator → Outcome (Unit {0})
expect_success (ok success) = ok tt
expect_success (ok (failure e)) = other_err e
expect_success (ok _) = other_err (say "Protocol error: unexpected response from plugin")
expect_success (err e) = err e
expect_success (fault p) = fault p

unfoldable pub expect_initialized : Outcome PluginToSimulator → Outcome PluginInitializeResponse
expect_initialized (ok (initialized x)) = ok x
expect_initialized (ok (failure e)) = other_err e
expect_initialized (ok _) = other_err (say "Protocol error: unexpected response from plugin")
expect_initialized (err e) = err e
expect_initialized (fault p) = fault p

unfoldable pub expect_run_response : Outcome PluginToSimulator → Outcome FrontendRunResponse
expect_run_response (ok (run_response x)) = ok x
expect_run_response (ok (failure e)) = other_err e
expect_run_response (ok _) = other_err (say "Protocol error: unexpected response from plugin")
expect_run_response (err e) = err e
expect_run_response (fault p) = fault p

unfoldable pub expect_arb_response : Outcome PluginToSimulator → Outcome ArbData
expect_arb_response (ok (arb_response x)) = ok x
expect_arb_response (ok (failure e)) = other_err e
expect_arb_response (ok _) = other_err (say "Protocol error: unexpected response from plugin")
expect_arb_response (err e) = err e
expect_arb_response (fault p) = fault p

-- A response, checked by one of the functions above, with the plugin as the call left it.
abbrev pub checked :
    {P A : Type 0}
    → (Outcome PluginToSimulator → Outcome A)
    → Outcome PluginToSimulator × P
    → Outcome A × P
checked f r = (f r.0, r.1)

module _ {P : Type 0} (trait : PluginTrait P) where
  unfoldable pub name : P → String
  name p = (trait.log_configuration p).name

  -- `logger` is the handle of the log thread's sender.
  unfoldable pub initialize : ℕ → Option String → ℕ → M P PluginInitializeResponse
  unfolding expect_initialized
  initialize logger downstream seed p = checked expect_initialized (
      trait.rpc
        (Protocol.initialize (record {
          downstream = downstream;
          plugin_type = trait.plugin_type p;
          seed = seed;
          log_configuration = trait.log_configuration p;
          log_channel = logger;
        }))
        p)

  unfoldable pub accept_upstream : M P (Unit {0})
  unfolding expect_success
  accept_upstream p = checked expect_success (trait.rpc Protocol.accept_upstream p)

  unfoldable pub user_initialize : M P (Unit {0})
  unfolding expect_success
  user_initialize p =
      checked expect_success (trait.rpc (Protocol.user_initialize (trait.init_cmds p)) p)

  unfoldable pub arb : ArbCmd → M P ArbData
  unfolding expect_arb_response
  arb cmd p = checked expect_arb_response (trait.rpc (Protocol.arb_request cmd) p)

  unfoldable pub run : FrontendRunRequest → M P FrontendRunResponse
  unfolding expect_run_response
  run request p = checked expect_run_response (trait.rpc (run_request request) p)
