-- ===== src/Tests/Simulator.antt =====
-- The property of `rust/src/core/host/simulator.rs` at a concrete input: a backend and a frontend without
-- names, whose plugins answer all that is asked when they are set up.
use dqcsim_rs.Common.{◌≡◌, refl, Option, none, some, List, [], ◌∷◌, map, Outcome, ok, return}
use dqcsim_rs.Types.{PluginType}
use dqcsim_rs.Types.Log.{LoglevelFilter}
use dqcsim_rs.Types.Gate.{vec_remove}
use dqcsim_rs.Protocol.{PluginToSimulator, SimulatorToPlugin}
use dqcsim_rs.Host.Accelerator.{idle}
use dqcsim_rs.Host.Plugin.{PluginTrait}
use dqcsim_rs.Host.Simulation.{Simulation, HostCall}
use dqcsim_rs.Host.Simulation.New.{new_simulation}
use dqcsim_rs.Host.Configuration.{PluginConfiguration, SimulatorConfiguration}
use dqcsim_rs.Host.Simulator.{new, IsPrepared, new-IsPrepared}
use dqcsim_rs.Tests.{about, counting}

abbrev respond : SimulatorToPlugin → PluginToSimulator
respond (SimulatorToPlugin.initialize r) =
    PluginToSimulator.initialized (record { upstream = some "address"; metadata = about })
respond SimulatorToPlugin.accept_upstream = PluginToSimulator.success
respond (SimulatorToPlugin.user_initialize cmds) = PluginToSimulator.success
respond SimulatorToPlugin.abort = PluginToSimulator.success
respond (SimulatorToPlugin.run_request r) = PluginToSimulator.success
respond (SimulatorToPlugin.arb_request r) = PluginToSimulator.success

abbrev responding : PluginTrait PluginConfiguration
responding = record {
  spawn = return tt;
  plugin_type = λ p. p.typ;
  init_cmds = λ _. [];
  log_configuration = λ p. record { name = p.name; verbosity = p.verbosity; tee_files = [] };
  rpc = λ message p. (ok (respond message), p);
}

abbrev described : SimulatorConfiguration
described = record {
  stderr_level = LoglevelFilter.info;
  tee_files = [];
  log_callback = none;
  dqcsim_level = LoglevelFilter.trace;
  plugins =
      record { name = ""; typ = PluginType.backend; verbosity = LoglevelFilter.trace }
      ∷ record { name = ""; typ = PluginType.frontend; verbosity = LoglevelFilter.note }
      ∷ [];
}

abbrev front : PluginConfiguration
front = record { name = "front"; typ = PluginType.frontend; verbosity = LoglevelFilter.note }

abbrev back : PluginConfiguration
back = record { name = "back"; typ = PluginType.backend; verbosity = LoglevelFilter.info }

abbrev unlogged : SimulatorConfiguration → Option (Option (List HostCall))
unlogged c = none

abbrev logging : SimulatorConfiguration → Outcome (Unit {0})
logging c = ok tt

abbrev made : Simulation PluginConfiguration
made = record {
  pipeline =
      record { plugin = front; metadata = about } ∷ record { plugin = back; metadata = about } ∷ [];
  state = idle;
  host_to_accelerator_data = [];
  accelerator_to_host_data = [];
  reproduction_log = none;
}

new_run : new responding counting 0 (λ p. p) unlogged logging 5 described ≡ ok made
unfolding new vec_remove
new_run = refl

new-IsPrepared_example :
    (prepared : SimulatorConfiguration) × IsPrepared described prepared
    × (new_simulation responding counting 0 none 5 (map (λ p. p) prepared.plugins) ≡ ok made)
new-IsPrepared_example =
    new-IsPrepared responding counting 0 (λ p. p) unlogged logging 5 described made new_run
