-- ===== src/Tests/Reproduction.antt =====
-- The properties of `rust/src/core/host/reproduction` and of the configuration of plugin processes at
-- concrete inputs.
use Prim.Native.String.{◌++◌ as append}
use text.Mathlib.Text.{◌==◌ as str_eq}
use dqcsim_rs.Common.{
  if◌then◌else◌, true, false, ◌||◌, ◌≡◌, refl, ◌↔◌, String, none, some, [], ◌∷◌, ok,
}
use dqcsim_rs.Types.{PluginType}
use dqcsim_rs.Types.Arb.{no_data}
use dqcsim_rs.Types.Log.{LoglevelFilter, Loglevel}
use dqcsim_rs.Host.Simulation.{HostCall}
use dqcsim_rs.Host.Configuration.Process.{
  FileSystem, StreamCaptureMode, capture, capture_from_str, keep, PluginProcessSpecification,
  PluginProcessConfiguration, PluginReproduction, default_functional,
}
use dqcsim_rs.Host.Configuration.Timeout.{Timeout}
use dqcsim_rs.Host.Configuration.Process.Sugar.{from_sugar}
use dqcsim_rs.Host.Configuration.Process.Found.{IsDesugared, from_sugar-IsDesugared}
use dqcsim_rs.Host.Reproduction.{
  PluginModification, Reproduction, SimulatorConfiguration, Whoami, to_run, new_logger, apply,
}
use dqcsim_rs.Host.Reproduction.Modify.{OneModified, apply_iff}
use dqcsim_rs.Host.Reproduction.Pipeline.{RunOf, to_run-RunOf}
use dqcsim_rs.Host.Reproduction.Logger.{new_logger-to_run}

-- There are the files "test.py" and "bin/dqcsfepy", and the path is "bin".
abbrev files : FileSystem
files = record {
  exists = λ p. str_eq p "test.py" || str_eq p "bin/dqcsfepy";
  extension = λ p. if str_eq p "test.py" then some "py" else none;
  contains_slash = λ p. false;
  push = λ base p. append base (append "/" p);
  exe_parent = none;
  sys_path = some ("bin" ∷ []);
  canonicalize = λ p. ok p;
  current_dir = ok ".";
  diff_paths = λ p base. some p;
}

abbrev desugared : PluginProcessSpecification
desugared = record {
  executable = "bin/dqcsfepy";
  script = some "test.py";
  typ = PluginType.frontend;
}

from_sugar_run : from_sugar files "test.py" PluginType.frontend ≡ ok desugared
unfolding from_sugar
from_sugar_run = refl

from_sugar-IsDesugared_example : IsDesugared files "test.py" PluginType.frontend desugared
from_sugar-IsDesugared_example =
    from_sugar-IsDesugared files "test.py" PluginType.frontend desugared from_sugar_run

-- "n" is null or note, and "no" is note.
capture_run : capture_from_str (b'N' ∷ b'o' ∷ []) ≡ ok (capture Loglevel.note)
unfolding capture_from_str
capture_run = refl

abbrev named : String → PluginReproduction
named n = record { name = n; executable = "exe"; script = none; functional = default_functional }

abbrev recorded : Reproduction
recorded = record {
  seed = 33;
  plugins = named "front" ∷ named "op" ∷ named "back" ∷ [];
  host_calls = HostCall.start no_data ∷ HostCall.wait ∷ [];
  hostname = "host";
  username = "user";
  workdir = "dir";
}

abbrev quieter : PluginModification
quieter = record {
  name = "op";
  verbosity = some LoglevelFilter.warn;
  tee_files = [];
  stdout_mode = none;
  stderr_mode = some StreamCaptureMode.null;
  accept_timeout = none;
  shutdown_timeout = none;
}

abbrev default_configuration : SimulatorConfiguration
default_configuration = record { seed = 5; plugins = []; reproduction_path_style = some keep }

abbrev me : Whoami
me = record { hostname = "h"; username = "u"; workdir = ok "w" }

to_run-RunOf_example :
    RunOf recorded true default_configuration
      (to_run recorded (quieter ∷ []) true default_configuration)
to_run-RunOf_example = to_run-RunOf recorded (quieter ∷ []) true default_configuration

to_run_run : (to_run recorded (quieter ∷ []) true default_configuration).0 ≡ ok recorded.host_calls
unfolding to_run
to_run_run = refl

new_logger-to_run_example :
    new_logger files me (to_run recorded (quieter ∷ []) true default_configuration).1
    ≡ ok (record recorded { host_calls = []; hostname = "h"; username = "u"; workdir = "w" })
new_logger-to_run_example =
    new_logger-to_run files me "w" recorded (quieter ∷ []) true default_configuration
      recorded.host_calls refl refl to_run_run

abbrev operator : PluginProcessConfiguration
operator = record {
  name = "op";
  specification = desugared;
  functional = default_functional;
  nonfunctional = record {
    verbosity = LoglevelFilter.trace;
    tee_files = [];
    stdout_mode = StreamCaptureMode.pass;
    stderr_mode = StreamCaptureMode.pass;
    accept_timeout = Timeout.infinite;
    shutdown_timeout = Timeout.infinite;
  };
}

abbrev quiet : PluginProcessConfiguration
quiet = record operator {
  nonfunctional = record (operator.nonfunctional) {
    verbosity = LoglevelFilter.warn;
    stderr_mode = StreamCaptureMode.null;
  };
}

apply_iff_example :
    (apply quieter (operator ∷ []) ≡ ok (quiet ∷ []))
    ↔ OneModified quieter (operator ∷ []) (quiet ∷ [])
apply_iff_example = apply_iff quieter (operator ∷ []) (quiet ∷ [])
