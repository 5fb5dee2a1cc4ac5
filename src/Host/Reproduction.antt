-- ===== src/Host/Reproduction.antt =====
-- `rust/src/core/host/reproduction/mod.rs`: the record of a run, and the run that is made from it. Of a
-- `SimulatorConfiguration` there are the fields that this code reads or writes.
pub mod Pipeline
pub mod Logger
pub mod Modify
pub mod Calls
use text.Mathlib.Text.{◌==◌ as str_eq}
use dqcsim_rs.Common.{
  ℕ, Bool, true, false, not, if◌then◌else◌, String, Option, none, some, List, [], ◌∷◌, ◌++◌, map,
  Outcome, ok, err, fault, inv_arg, inv_op, other_err, ok_or, and_then, say, lit, Text, Piece,
}
use dqcsim_rs.Types.{PluginType}
use dqcsim_rs.Types.Log.{LoglevelFilter, TeeFileConfiguration}
use dqcsim_rs.Host.Simulation.{HostCall}
use dqcsim_rs.Host.Configuration.Timeout.{Timeout}
use dqcsim_rs.Host.Configuration.Process.{
  FileSystem, StreamCaptureMode, ReproductionPathStyle, PluginProcessConfiguration,
  PluginProcessSpecification, PluginProcessNonfunctionalConfiguration, PluginReproduction,
  default_nonfunctional, get_reproduction,
}

pub record PluginModification : Type 0 where
  pub name : String
  pub verbosity : Option LoglevelFilter
  pub tee_files : List TeeFileConfiguration
  pub stdout_mode : Option StreamCaptureMode
  pub stderr_mode : Option StreamCaptureMode
  pub accept_timeout : Option Timeout
  pub shutdown_timeout : Option Timeout

pub record Reproduction : Type 0 where
  pub seed : ℕ
  pub plugins : List PluginReproduction
  pub host_calls : List HostCall
  pub hostname : String
  pub username : String
  pub workdir : String

-- A `Box<dyn PluginConfiguration>`: that of a process, or a thread, of which there is the name.
pub data AnyPlugin : Type 0 where
  process : PluginProcessConfiguration → AnyPlugin
  thread : String → AnyPlugin

pub record SimulatorConfiguration : Type 0 where
  pub seed : ℕ
  pub plugins : List AnyPlugin
  pub reproduction_path_style : Option ReproductionPathStyle

-- `if let Some(value) = new { old = value }`.
abbrev pub overwritten : {A : Type 0} → Option A → A → A
overwritten none old = old
overwritten (some value) old = value

-- The changes that `apply` makes to the plugin it finds.
unfoldable pub modified :
    PluginModification
    → PluginProcessNonfunctionalConfiguration
    → PluginProcessNonfunctionalConfiguration
modified m n = record {
  verbosity = overwritten m.verbosity n.verbosity;
  tee_files = n.tee_files ++ m.tee_files;
  stdout_mode = overwritten m.stdout_mode n.stdout_mode;
  stderr_mode = overwritten m.stderr_mode n.stderr_mode;
  accept_timeout = overwritten m.accept_timeout n.accept_timeout;
  shutdown_timeout = overwritten m.shutdown_timeout n.shutdown_timeout;
}

-- `friendly_enumerate` of names with `or`, as pieces of a message; `first` is whether one name went
-- before.
unfoldable pub enumerate_rest : List PluginProcessConfiguration → Bool → Text
enumerate_rest [] first = []
enumerate_rest (p ∷ []) first = lit (if first then " or " else ", or ") ∷ lit p.name ∷ []
enumerate_rest (p ∷ q ∷ ps) first = lit ", " ∷ lit p.name ∷ enumerate_rest (q ∷ ps) false

unfoldable pub enumerate_plugins : List PluginProcessConfiguration → Text
unfolding enumerate_rest
enumerate_plugins [] = say "<nothing>"
enumerate_plugins (p ∷ ps) = lit p.name ∷ enumerate_rest ps true

-- The loop of `apply`, which ends at the first plugin of the name; none where there is no such plugin.
unfoldable pub apply_loop :
    PluginModification → List PluginProcessConfiguration → Option (List PluginProcessConfiguration)
unfolding modified
apply_loop m [] = none
apply_loop m (p ∷ ps) =
    let rest = apply_loop m ps in
    if str_eq p.name m.name
    then some (record p { nonfunctional = modified m p.nonfunctional } ∷ ps)
    else elim rest [ none ↦ none | some qs ↦ some (p ∷ qs) ]

-- After an error the plugins are not used any more, so that only a success has a new list.
unfoldable pub apply :
    PluginModification → List PluginProcessConfiguration → Outcome (List PluginProcessConfiguration)
unfolding apply_loop enumerate_plugins
apply m to = ok_or (apply_loop m to) (
    lit "There is no plugin named "
    ∷ lit m.name
    ∷ lit ". The available plugins are "
    ∷ (enumerate_plugins to ++ lit "." ∷ []))

unfoldable pub apply_all :
    List PluginModification
    → List PluginProcessConfiguration
    → Outcome (List PluginProcessConfiguration)
unfolding apply
apply_all [] plugins = ok plugins
apply_all (m ∷ ms) plugins = and_then (apply m plugins) (apply_all ms)

-- `Reproduction::record`.
unfoldable pub record_call : HostCall → Reproduction → Reproduction
record_call call r = record r { host_calls = r.host_calls ++ call ∷ [] }

-- The first configuration of a plugin, for the time being as an operator.
unfoldable pub configured : PluginReproduction → PluginProcessConfiguration
unfolding default_nonfunctional
configured x = record {
  name = x.name;
  specification = record {
    executable = x.executable;
    script = x.script;
    typ = PluginType.operator;
  };
  functional = x.functional;
  nonfunctional = default_nonfunctional;
}

abbrev pub with_type : PluginType → PluginProcessConfiguration → PluginProcessConfiguration
with_type typ p = record p { specification = record (p.specification) { typ = typ } }

-- The write at the last index.
unfoldable pub set_backend : List PluginProcessConfiguration → List PluginProcessConfiguration
set_backend [] = []
set_backend (p ∷ []) = with_type PluginType.backend p ∷ []
set_backend (p ∷ q ∷ ps) = p ∷ set_backend (q ∷ ps)

-- The types of the plugins, which have to be two at least.
unfoldable pub set_types :
    List PluginProcessConfiguration → Outcome (List PluginProcessConfiguration)
unfolding set_backend
set_types [] = other_err (say "reproduction file corrupted: less than two plugins specified")
set_types (p ∷ []) = other_err (say "reproduction file corrupted: less than two plugins specified")
set_types (p ∷ q ∷ ps) = ok (with_type PluginType.frontend p ∷ set_backend (q ∷ ps))

unfoldable pub make_plugins :
    Reproduction → List PluginModification → Outcome (List PluginProcessConfiguration)
unfolding set_types apply_all configured
make_plugins r modifications =
    and_then (set_types (map configured r.plugins)) (apply_all modifications)

-- What `to_run` leaves behind: on an error the seed is set, and the plugins are as they were.
abbrev pub installed :
    Reproduction
    → Outcome (List PluginProcessConfiguration)
    → SimulatorConfiguration
    → Outcome (List HostCall) × SimulatorConfiguration
installed r (ok plugins) config = (ok r.host_calls, record config { plugins = map process plugins })
installed r (err e) config = (err e, config)
installed r (fault f) config = (fault f, config)

unfoldable pub to_run :
    Reproduction
    → List PluginModification
    → Bool
    → SimulatorConfiguration
    → Outcome (List HostCall) × SimulatorConfiguration
unfolding make_plugins
to_run r modifications exact config =
    installed r (make_plugins r modifications)
      (if exact then record config { seed = r.seed } else config)

-- What the `whoami` crate and the working directory say of the host.
pub record Whoami : Type 0 where
  pub hostname : String
  pub username : String
  pub workdir : Outcome String

module _ (fs : FileSystem) where
  unfoldable pub reproduction_of :
      Option ReproductionPathStyle → AnyPlugin → Outcome PluginReproduction
  unfolding get_reproduction
  reproduction_of style (process c) =
      and_then
        (ok_or style (
          say
            "cannot create reproduction logger for simulator configuration with reproduction explicitly disabled"))
        (λ s. get_reproduction fs s c)
  reproduction_of style (thread name) =
      and_then
        (ok_or style (
          say
            "cannot create reproduction logger for simulator configuration with reproduction explicitly disabled"))
        (λ _. inv_op (say "It's not possible to build a plugin reproduction for PluginThreads"))

  -- `collect` of the results: the first error, or all values.
  unfoldable pub collect_reproductions :
      Option ReproductionPathStyle → List AnyPlugin → Outcome (List PluginReproduction)
  unfolding reproduction_of
  collect_reproductions style [] = ok []
  collect_reproductions style (p ∷ ps) =
      and_then (reproduction_of style p)
        (λ x. and_then (collect_reproductions style ps) (λ xs. ok (x ∷ xs)))

  unfoldable pub new_logger : Whoami → SimulatorConfiguration → Outcome Reproduction
  unfolding collect_reproductions
  new_logger who config =
      and_then (collect_reproductions config.reproduction_path_style config.plugins) (λ plugins.
        and_then who.workdir (λ workdir. ok (record {
          seed = config.seed;
          plugins = plugins;
          host_calls = [];
          hostname = who.hostname;
          username = who.username;
          workdir = workdir;
        })))
