-- ===== src/Host/Configuration/Process/Sugar.antt =====
-- `PluginProcessSpecification::from_sugar` of `rust/src/core/host/configuration/plugin/process.rs`: the
-- search for the executable of a plugin.
use Prim.Native.String.{◌++◌ as append}
use dqcsim_rs.Common.{
  if◌then◌else◌, String, Option, none, some, List, [], ◌∷◌, Outcome, ok, Text, inv_arg, other_err,
  ok_or, and_then, say, lit,
}
use dqcsim_rs.Types.{PluginType}
use dqcsim_rs.Host.Configuration.Process.{FileSystem, PluginProcessSpecification}

abbrev pub prefix : PluginType → String
prefix PluginType.frontend = "dqcsfe"
prefix PluginType.operator = "dqcsop"
prefix PluginType.backend = "dqcsbe"

abbrev pub not_found : String → String → Text
not_found executable sugared =
    lit "could not find plugin executable '"
    ∷ lit executable
    ∷ lit "', needed for plugin specification '"
    ∷ lit sugared
    ∷ lit "'"
    ∷ []

module _ (fs : FileSystem) where
  -- The loop over the folders of `PATH`.
  unfoldable pub search_path : String → List String → Option String
  search_path executable [] = none
  search_path executable (base ∷ bases) =
      let rest = search_path executable bases in
      let exec = fs.push base executable in if fs.exists exec then some exec else rest

  unfoldable pub on_path : String → String → Option (List String) → Outcome String
  unfolding search_path
  on_path executable sugared none = inv_arg (not_found executable sugared)
  on_path executable sugared (some bases) =
      ok_or (search_path executable bases) (not_found executable sugared)

  unfoldable pub beside_binary : String → String → Option (Option String) → Outcome String
  unfolding on_path
  beside_binary executable sugared none = on_path executable sugared fs.sys_path
  beside_binary executable sugared (some none) =
      other_err (say "Could not determine path to DQCsim binary.")
  beside_binary executable sugared (some (some dir)) =
      if fs.exists (fs.push dir executable)
      then ok (fs.push dir executable)
      else on_path executable sugared fs.sys_path

  unfoldable pub locate : String → String → Outcome String
  unfolding beside_binary
  locate executable sugared =
      if fs.exists executable then ok executable else beside_binary executable sugared fs.exe_parent

  unfoldable pub desugar :
      String → Option String → PluginType → String → Outcome PluginProcessSpecification
  unfolding locate
  desugar executable script typ sugared =
      and_then (locate (append (prefix typ) executable) sugared)
        (λ found. ok (record { executable = found; script = script; typ = typ }))

  -- The case that the specification is the path of a file, by its extension.
  unfoldable pub of_file : String → PluginType → Option String → Outcome PluginProcessSpecification
  unfolding desugar
  of_file specification typ none =
      ok (record { executable = specification; script = none; typ = typ })
  of_file specification typ (some ext) = desugar ext (some specification) typ specification

  unfoldable pub from_sugar : String → PluginType → Outcome PluginProcessSpecification
  unfolding of_file desugar
  from_sugar specification typ =
      if fs.exists specification
      then of_file specification typ (fs.extension specification)
      else if fs.contains_slash specification
      then inv_arg (
          lit "the plugin specification '"
          ∷ lit specification
          ∷ lit "' appears to be a path, but the referenced file does not exist"
          ∷ [])
      else desugar specification none typ specification
