-- ===== src/Tests/Configuration.antt =====
-- The properties of `rust/src/core/host/configuration/simulator.rs` at concrete inputs.
use dqcsim_rs.Common.{List, [], ◌∷◌, ◌++◌, ok, and_then, say, refl, ◌≡◌, none}
use dqcsim_rs.Types.{PluginType}
use dqcsim_rs.Types.Log.{LoglevelFilter}
use dqcsim_rs.Host.Configuration.{
  PluginConfiguration, SimulatorConfiguration, check_plugin_list, name_plugins, optimize_loglevels,
  named, has_name, decimal, default_name,
}
use dqcsim_rs.Host.Configuration.Find.{of_type}
use dqcsim_rs.Host.Configuration.Plugins.{require, check_plugin_list_lem}
use dqcsim_rs.Host.Configuration.Verbosity.{IsOptimized, optimize_loglevels-IsOptimized}

-- A backend, an operator and a frontend, in this order and without names.
abbrev backwards : List PluginConfiguration
backwards =
    record { name = ""; typ = PluginType.backend; verbosity = LoglevelFilter.trace }
    ∷ record { name = ""; typ = PluginType.operator; verbosity = LoglevelFilter.note }
    ∷ record { name = ""; typ = PluginType.frontend; verbosity = LoglevelFilter.info }
    ∷ []

check_plugin_list_lem_example :
    check_plugin_list backwards
    ≡ and_then
        (require
          (say "missing frontend")
          (say "duplicate frontend")
          (of_type PluginType.frontend backwards))
        (λ _.
          and_then
            (require
              (say "missing backend")
              (say "duplicate backend")
              (of_type PluginType.backend backwards))
            (λ _. name_plugins 0 [] (
              (of_type PluginType.frontend backwards ++ of_type PluginType.operator backwards)
              ++ of_type PluginType.backend backwards)))
check_plugin_list_lem_example = check_plugin_list_lem backwards

abbrev two_named : List PluginConfiguration
two_named =
    record { name = "front"; typ = PluginType.frontend; verbosity = LoglevelFilter.info }
    ∷ record { name = "op1"; typ = PluginType.operator; verbosity = LoglevelFilter.info }
    ∷ []

abbrev two : List PluginConfiguration
two =
    record { name = ""; typ = PluginType.frontend; verbosity = LoglevelFilter.info }
    ∷ record { name = ""; typ = PluginType.operator; verbosity = LoglevelFilter.info }
    ∷ []

name_plugins-two : name_plugins 0 [] two ≡ ok two_named
unfolding name_plugins named has_name default_name decimal
name_plugins-two = refl

abbrev loud : SimulatorConfiguration
loud = record {
  stderr_level = LoglevelFilter.info;
  tee_files = record { filter = LoglevelFilter.debug; file = "log" } ∷ [];
  log_callback = none;
  dqcsim_level = LoglevelFilter.trace;
  plugins = backwards;
}

optimize_loglevels-IsOptimized_example : IsOptimized loud (optimize_loglevels loud)
optimize_loglevels-IsOptimized_example = optimize_loglevels-IsOptimized loud
