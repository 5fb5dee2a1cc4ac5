-- ===== src/Host/Configuration.antt =====
-- `rust/src/core/host/configuration/simulator.rs`: the check of the plugin list and the verbosity of the
-- log sources. Of a plugin configuration there is what its trait shows: name, type and verbosity. After
-- an error the configuration is not used any more, so that only a success has a new plugin list.
pub mod Find
pub mod Plugins
pub mod Names
pub mod Verbosity
pub mod EnvMod
pub mod Timeout
pub mod Process
use Prim.Native.String.{◌++◌ as append}
use text.Mathlib.Text.{◌==◌ as str_eq}
use dqcsim_rs.Common.{
  Text, ℕ, zero, suc, ◌+◌, ◌-◌, ◌/◌, ◌%◌, Bool, true, false, ◌||◌, not, ltb, ◌==◌, if◌then◌else◌,
  String, List, [], ◌∷◌, ◌++◌, length, get_elem?, Option, none, some, Outcome, ok, err, fault,
  panicked, inv_arg, and_then, lit, say,
}
use dqcsim_rs.Types.{PluginType, same_type}
use dqcsim_rs.Types.Log.{LoglevelFilter, TeeFileConfiguration, more_verbose}
use dqcsim_rs.Types.Gate.{vec_remove}

pub record PluginConfiguration : Type 0 where
  pub name : String
  pub typ : PluginType
  pub verbosity : LoglevelFilter

-- The parts of `SimulatorConfiguration` that the check and the optimization use; of the log callback,
-- its filter.
pub record SimulatorConfiguration : Type 0 where
  pub stderr_level : LoglevelFilter
  pub tee_files : List TeeFileConfiguration
  pub log_callback : Option LoglevelFilter
  pub dqcsim_level : LoglevelFilter
  pub plugins : List PluginConfiguration

-- `a` clamped to be no more verbose than `max`.
unfoldable pub clamp : LoglevelFilter → LoglevelFilter → LoglevelFilter
unfolding more_verbose
clamp max a = if more_verbose a max then max else a

-- The more verbose of two filters, as the loop over the sinks keeps it.
unfoldable pub most_verbose : LoglevelFilter → List TeeFileConfiguration → LoglevelFilter
unfolding more_verbose
most_verbose max [] = max
most_verbose max (tee ∷ tees) =
    most_verbose (if more_verbose tee.filter max then tee.filter else max) tees

unfoldable pub limit_verbosity :
    LoglevelFilter → List PluginConfiguration → List PluginConfiguration
unfolding clamp
limit_verbosity max [] = []
limit_verbosity max (p ∷ ps) =
    record p { verbosity = clamp max p.verbosity } ∷ limit_verbosity max ps

unfoldable pub max_dqcsim_verbosity : SimulatorConfiguration → LoglevelFilter
unfolding most_verbose
max_dqcsim_verbosity c =
    let max = most_verbose c.stderr_level c.tee_files in
    elim c.log_callback [
      | none ↦ max
      | some filter ↦ if more_verbose filter max then filter else max
    ]

unfoldable pub optimize_loglevels : SimulatorConfiguration → SimulatorConfiguration
unfolding max_dqcsim_verbosity limit_verbosity clamp
optimize_loglevels c = record c {
  dqcsim_level = clamp (max_dqcsim_verbosity c) c.dqcsim_level;
  plugins = limit_verbosity (max_dqcsim_verbosity c) c.plugins;
}

-- The loop that looks for the one plugin of a type; `duplicate` is the message where there is another.
unfoldable pub find_type :
    PluginType → Text → ℕ → Option ℕ → List PluginConfiguration → Outcome (Option ℕ)
unfolding same_type
find_type typ duplicate i found [] = ok found
find_type typ duplicate i found (p ∷ ps) =
    let here = find_type typ duplicate (i + 1) (some i) ps in
    let rest = find_type typ duplicate (i + 1) found ps in
    elim (same_type p.typ typ) [
      | false ↦ rest
      | true ↦ elim found [ none ↦ here | some _ ↦ inv_arg duplicate ]
    ]

-- `remove(x)`, then `insert(0, ..)`.
unfoldable pub move_to_front : ℕ → List PluginConfiguration → Outcome (List PluginConfiguration)
move_to_front zero ps = ok ps
move_to_front (suc x) ps = and_then (vec_remove ps (suc x)) (λ r. ok (r.0 ∷ r.1))

-- `remove(x)`, then `push(..)`.
unfoldable pub move_to_back : ℕ → List PluginConfiguration → Outcome (List PluginConfiguration)
move_to_back x ps =
    if x == length ps - 1 then ok ps else and_then (vec_remove ps x) (λ r. ok (r.1 ++ r.0 ∷ []))

unfoldable pub fix_frontend : List PluginConfiguration → Outcome (List PluginConfiguration)
unfolding find_type move_to_front
fix_frontend ps =
    and_then (find_type PluginType.frontend (say "duplicate frontend") 0 none ps) (λ found.
      elim found [ none ↦ inv_arg (say "missing frontend") | some x ↦ move_to_front x ps ])

unfoldable pub fix_backend : List PluginConfiguration → Outcome (List PluginConfiguration)
unfolding find_type move_to_back
fix_backend ps =
    and_then (find_type PluginType.backend (say "duplicate backend") 0 none ps)
      (λ found. elim found [ none ↦ inv_arg (say "missing backend") | some x ↦ move_to_back x ps ])

abbrev digits : List String
digits = "0" ∷ "1" ∷ "2" ∷ "3" ∷ "4" ∷ "5" ∷ "6" ∷ "7" ∷ "8" ∷ "9" ∷ []

abbrev digit : Option String → String
digit none = ""
digit (some d) = d

-- `format!("{}", n)` of a number with at most `fuel` digits.
unfoldable pub decimal : ℕ → ℕ → String
decimal zero n = ""
decimal (suc fuel) n =
    let more = decimal fuel (n / 10) in
    let last = digit (get_elem? digits (n % 10)) in if ltb n 10 then last else append more last

-- A `usize` has at most 20 digits.
unfoldable pub default_name : ℕ → PluginType → String
unfolding decimal
default_name i PluginType.frontend = "front"
default_name i PluginType.operator = append "op" (decimal 20 i)
default_name i PluginType.backend = "back"

-- `set_default_name`.
unfoldable pub named : ℕ → PluginConfiguration → PluginConfiguration
unfolding default_name
named i p = if str_eq p.name "" then record p { name = default_name i p.typ } else p

-- Whether a name is in the set.
unfoldable pub has_name : List String → String → Bool
has_name [] name = false
has_name (n ∷ ns) name = str_eq n name || has_name ns name

-- The loop that names the plugins from index `i` on.
unfoldable pub name_plugins :
    ℕ → List String → List PluginConfiguration → Outcome (List PluginConfiguration)
unfolding named has_name
name_plugins i names [] = ok []
name_plugins i names (p ∷ ps) =
    let q = named i p in
    let rest = and_then (name_plugins (i + 1) (q.name ∷ names) ps) (λ qs. ok (q ∷ qs)) in
    if has_name names q.name
    then inv_arg (lit "duplicate plugin name '" ∷ lit q.name ∷ lit "'" ∷ [])
    else rest

unfoldable pub check_plugin_list : List PluginConfiguration → Outcome (List PluginConfiguration)
unfolding fix_frontend fix_backend name_plugins
check_plugin_list ps =
    and_then (fix_frontend ps) (λ qs. and_then (fix_backend qs) (name_plugins 0 []))
