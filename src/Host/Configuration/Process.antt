-- ===== src/Host/Configuration/Process.antt =====
-- `rust/src/core/host/configuration/plugin/process.rs`, with `stream_capture_mode.rs` and
-- `reproduction_path_style.rs`: the configuration of a plugin in its own process. A path is a text; the
-- file system and the crates that look at paths are arguments.
pub mod Sugar
pub mod Found
use Prim.Native.String.{◌++◌ as append}
use text.Mathlib.Text.{◌==◌ as str_eq}
use dqcsim_rs.Common.{
  ℕ, Bool, true, false, if◌then◌else◌, String, Option, none, some, List, [], ◌∷◌, Outcome, ok, err,
  fault, ErrorKind, inv_arg, inv_op, ok_or, and_then, say, lit,
}
use dqcsim_rs.Types.{PluginType}
use dqcsim_rs.Types.Arb.{ArbCmd}
use dqcsim_rs.Types.Log.{Loglevel, LoglevelFilter, TeeFileConfiguration, PluginLogConfiguration}
use dqcsim_rs.Util.{friendly_enum_parse}
use dqcsim_rs.Host.Configuration.{PluginConfiguration, clamp, default_name}
use dqcsim_rs.Host.Configuration.EnvMod.{EnvMod}
use dqcsim_rs.Host.Configuration.Timeout.{Timeout, from_seconds}

pub data StreamCaptureMode : Type 0 where
  pass null : StreamCaptureMode
  capture : Loglevel → StreamCaptureMode

-- The names of `StreamCaptureOption`, and what they stand for.
abbrev pub capture_options : List (List ℕ × StreamCaptureMode)
capture_options =
    (b'P' ∷ b'a' ∷ b's' ∷ b's' ∷ [], StreamCaptureMode.pass)
    ∷ (b'N' ∷ b'u' ∷ b'l' ∷ b'l' ∷ [], StreamCaptureMode.null)
    ∷ (b'F' ∷ b'a' ∷ b't' ∷ b'a' ∷ b'l' ∷ [], capture Loglevel.fatal)
    ∷ (b'E' ∷ b'r' ∷ b'r' ∷ b'o' ∷ b'r' ∷ [], capture Loglevel.error)
    ∷ (b'W' ∷ b'a' ∷ b'r' ∷ b'n' ∷ [], capture Loglevel.warn)
    ∷ (b'N' ∷ b'o' ∷ b't' ∷ b'e' ∷ [], capture Loglevel.note)
    ∷ (b'I' ∷ b'n' ∷ b'f' ∷ b'o' ∷ [], capture Loglevel.info)
    ∷ (b'D' ∷ b'e' ∷ b'b' ∷ b'u' ∷ b'g' ∷ [], capture Loglevel.debug)
    ∷ (b'T' ∷ b'r' ∷ b'a' ∷ b'c' ∷ b'e' ∷ [], capture Loglevel.trace)
    ∷ []

-- "StreamCaptureOption".
abbrev capture_type : List ℕ
capture_type =
    b'S' ∷ b't' ∷ b'r' ∷ b'e' ∷ b'a' ∷ b'm' ∷ b'C' ∷ b'a' ∷ b'p' ∷ b't' ∷ b'u' ∷ b'r' ∷ b'e' ∷ b'O'
    ∷ b'p' ∷ b't' ∷ b'i' ∷ b'o' ∷ b'n' ∷ []

-- `StreamCaptureMode::from_str`.
unfoldable pub capture_from_str : List ℕ → Outcome StreamCaptureMode
unfolding friendly_enum_parse
capture_from_str s = friendly_enum_parse capture_type capture_options s

-- What the code asks of the environment: `exists` and `extension` of a path, the slash test, `push`, the
-- folder of the executable (or that the executable is unknown, or that it has no parent), the folders of
-- `PATH`, `canonicalize`, `current_dir` and `diff_paths`.
pub record FileSystem : Type 0 where
  pub exists : String → Bool
  pub extension : String → Option String
  pub contains_slash : String → Bool
  pub push : String → String → String
  pub exe_parent : Option (Option String)
  pub sys_path : Option (List String)
  pub canonicalize : String → Outcome String
  pub current_dir : Outcome String
  pub diff_paths : String → String → Option String

pub data ReproductionPathStyle : Type 0 where
  keep relative absolute : ReproductionPathStyle

pub record PluginProcessSpecification : Type 0 where
  pub executable : String
  pub script : Option String
  pub typ : PluginType

pub record PluginProcessFunctionalConfiguration : Type 0 where
  pub init : List ArbCmd
  pub env : List EnvMod
  pub work : String

pub record PluginProcessNonfunctionalConfiguration : Type 0 where
  pub verbosity : LoglevelFilter
  pub tee_files : List TeeFileConfiguration
  pub stdout_mode : StreamCaptureMode
  pub stderr_mode : StreamCaptureMode
  pub accept_timeout : Timeout
  pub shutdown_timeout : Timeout

pub record PluginProcessConfiguration : Type 0 where
  pub name : String
  pub specification : PluginProcessSpecification
  pub functional : PluginProcessFunctionalConfiguration
  pub nonfunctional : PluginProcessNonfunctionalConfiguration

-- `PluginReproduction` of `rust/src/core/host/reproduction/mod.rs`.
pub record PluginReproduction : Type 0 where
  pub name : String
  pub executable : String
  pub script : Option String
  pub functional : PluginProcessFunctionalConfiguration

abbrev pub default_functional : PluginProcessFunctionalConfiguration
default_functional = record { init = []; env = []; work = "." }

unfoldable pub default_nonfunctional : PluginProcessNonfunctionalConfiguration
unfolding from_seconds
default_nonfunctional = record {
  verbosity = LoglevelFilter.trace;
  tee_files = [];
  stdout_mode = capture Loglevel.info;
  stderr_mode = capture Loglevel.info;
  accept_timeout = from_seconds 5;
  shutdown_timeout = from_seconds 5;
}

-- `PluginProcessConfiguration::new`.
unfoldable pub new : String → PluginProcessSpecification → PluginProcessConfiguration
unfolding default_nonfunctional
new name specification = record {
  name = name;
  specification = specification;
  functional = default_functional;
  nonfunctional = default_nonfunctional;
}

-- What the trait `PluginConfiguration` shows of the configuration.
unfoldable pub configuration : PluginProcessConfiguration → PluginConfiguration
configuration c = record {
  name = c.name;
  typ = c.specification.typ;
  verbosity = c.nonfunctional.verbosity;
}

-- `limit_verbosity`.
unfoldable pub limit : LoglevelFilter → PluginProcessConfiguration → PluginProcessConfiguration
unfolding clamp
limit max_verbosity c = record c {
  nonfunctional = record (c.nonfunctional) {
    verbosity = clamp max_verbosity c.nonfunctional.verbosity;
  };
}

-- `set_default_name`.
unfoldable pub set_default_name : String → PluginProcessConfiguration → PluginProcessConfiguration
set_default_name n c = if str_eq c.name "" then record c { name = n } else c

module _ (fs : FileSystem) where
  abbrev dot_if_empty : String → String
  dot_if_empty path = if str_eq path "" then "." else path

  unfoldable pub convert_path : ReproductionPathStyle → String → Outcome String
  convert_path keep path = ok path
  convert_path relative path = and_then fs.current_dir (λ workdir.
      and_then (fs.canonicalize path) (λ full. elim (fs.diff_paths full workdir) [
        | none ↦ err (ErrorKind.io_error (say "Cannot make path relative"))
        | some p ↦ ok (dot_if_empty p)
      ]))
  convert_path absolute path = fs.canonicalize path

  unfoldable pub convert_path_option :
      ReproductionPathStyle → Option String → Outcome (Option String)
  unfolding convert_path
  convert_path_option style none = ok none
  convert_path_option style (some path) = and_then (convert_path style path) (λ p. ok (some p))

  unfoldable pub get_reproduction :
      ReproductionPathStyle → PluginProcessConfiguration → Outcome PluginReproduction
  unfolding convert_path convert_path_option
  get_reproduction style c = and_then (convert_path style c.specification.executable) (λ executable.
      and_then (convert_path_option style c.specification.script) (λ script.
        and_then (convert_path style c.functional.work) (λ work. ok (record {
          name = c.name;
          executable = executable;
          script = script;
          functional = record { init = c.functional.init; env = c.functional.env; work = work };
        }))))
