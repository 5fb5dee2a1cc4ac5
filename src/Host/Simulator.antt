-- ===== src/Host/Simulator.antt =====
-- `Simulator::new` of `rust/src/core/host/simulator.rs`: the configuration is checked, and a simulation is
-- made from its plugins. The seed and the start of the log thread are arguments, as is the log of the host
-- calls, which is made from the configuration.
use text.Mathlib.Text.{◌==◌ as str_eq}
use dqcsim_rs.Common.{
  ℕ, ◌≡◌, refl, sym, ◌∙◌, ap, subst, false, Option, none, some, List, [], ◌∷◌, ◌++◌, map, All,
  Outcome, ok, and_then, and_then-eq-ok, ok-injective, Text, say,
}
use dqcsim_rs.Types.{PluginType}
use dqcsim_rs.Types.Log.{LoglevelFilter}
use dqcsim_rs.Plugin.State.{ChaCha}
use dqcsim_rs.Host.Plugin.{PluginTrait}
use dqcsim_rs.Host.Simulation.{Simulation, HostCall}
use dqcsim_rs.Host.Simulation.New.{new_simulation}
use dqcsim_rs.Host.Configuration.{
  PluginConfiguration, SimulatorConfiguration, check_plugin_list, optimize_loglevels,
}
use dqcsim_rs.Host.Configuration.Find.{of_type}
use dqcsim_rs.Host.Configuration.Plugins.{require, check_plugin_list_lem}
use dqcsim_rs.Host.Configuration.Names.{
  DistinctNames, AreNamed, name_plugins-IsNamed, name_plugins-AreNamed,
}
use dqcsim_rs.Host.Configuration.Verbosity.{
  IsSink, IsLowered, AreLowered, CoversSinks, optimize_loglevels-IsOptimized,
}

-- The checked configuration, with its log levels.
unfoldable pub prepare : SimulatorConfiguration → Outcome SimulatorConfiguration
unfolding check_plugin_list optimize_loglevels
prepare c =
    and_then (check_plugin_list c.plugins)
      (λ ps. ok (optimize_loglevels (record c { plugins = ps })))

-- The log of the host calls is made only where the configuration has a style for it; where it cannot be
-- made, there is a warning and no log.
abbrev pub kept_log : Option (Option (List HostCall)) → Option (List HostCall)
kept_log (some log) = log
kept_log none = none

module _ {P R : Type 0} (trait : PluginTrait P) (chacha : ChaCha R) (logger : ℕ)
    (instantiate : PluginConfiguration → P)
    (new_logger : SimulatorConfiguration → Option (Option (List HostCall)))
    (spawn_log : SimulatorConfiguration → Outcome (Unit {0})) where
  unfoldable pub new : ℕ → SimulatorConfiguration → Outcome (Simulation P)
  unfolding prepare new_simulation
  new seed configuration = and_then (prepare configuration) (λ c. and_then (spawn_log c) (λ _.
      new_simulation trait chacha logger (kept_log (new_logger c)) seed
        (map instantiate c.plugins)))

-- The plugins in their order: one that has a name keeps it, the types are kept, and so is the verbosity,
-- but where it is lowered to the limit.
abbrev pub ArePrepared :
    LoglevelFilter → List PluginConfiguration → List PluginConfiguration → Type 0
ArePrepared limit [] [] = Unit
ArePrepared limit (p ∷ ps) [] = ⊥
ArePrepared limit [] (q ∷ qs) = ⊥
ArePrepared limit (p ∷ ps) (q ∷ qs) =
    (str_eq p.name "" ≡ false → q.name ≡ p.name)
    × (q.typ ≡ p.typ)
    × IsLowered limit p.verbosity q.verbosity
    × ArePrepared limit ps qs

-- What the check and the optimization make of a configuration: the one frontend, the operators in their
-- order and the one backend, with distinct names, and with the log sources lowered to the most verbose
-- sink.
pub record IsPrepared (c prepared : SimulatorConfiguration) : Type 0 where
  pub front : PluginConfiguration
  pub back : PluginConfiguration
  pub only_front : of_type PluginType.frontend c.plugins ≡ front ∷ []
  pub only_back : of_type PluginType.backend c.plugins ≡ back ∷ []
  pub limit : LoglevelFilter
  pub is_sink : IsSink c limit
  pub covers : CoversSinks c limit
  pub plugins :
      ArePrepared limit
        ((front ∷ of_type PluginType.operator c.plugins) ++ back ∷ [])
        prepared.plugins
  pub distinct : DistinctNames prepared.plugins
  pub dqcsim : IsLowered limit c.dqcsim_level prepared.dqcsim_level

-- Naming, and then lowering.
named-lowered :
    (limit : LoglevelFilter) (ps qs rs : List PluginConfiguration)
    → AreNamed ps qs
    → AreLowered limit qs rs
    → ArePrepared limit ps rs
named-lowered limit [] [] [] h k = tt
named-lowered limit [] [] (r ∷ rs) h k = k
named-lowered limit [] (q ∷ qs) rs h k = absurd h
named-lowered limit (p ∷ ps) [] rs h k = absurd h
named-lowered limit (p ∷ ps) (q ∷ qs) [] h k = k
named-lowered limit (p ∷ ps) (q ∷ qs) (r ∷ rs) (name, typ, verbosity, h) (same, typ', lowered, k) =
    (
      λ e. same ∙ name e,
      typ' ∙ typ,
      subst (λ (f : LoglevelFilter). IsLowered limit f r.verbosity) verbosity lowered,
      named-lowered limit ps qs rs h k,
    )

require-single :
    (missing duplicate : Text) (ps : List PluginConfiguration) (u : Unit {0})
    → require missing duplicate ps ≡ ok u
    → (p : PluginConfiguration) × (ps ≡ p ∷ [])
require-single missing duplicate [] u h = absurd (cc h)
require-single missing duplicate (p ∷ []) u h = (p, refl)
require-single missing duplicate (p ∷ q ∷ ps) u h = absurd (cc h)

-- The distinct names stay so.
AreLowered-DistinctNames :
    (limit : LoglevelFilter) (ps qs : List PluginConfiguration)
    → AreLowered limit ps qs
    → DistinctNames ps
    → DistinctNames qs
AreLowered-DistinctNames limit [] [] k h = tt
AreLowered-DistinctNames limit [] (q ∷ qs) k h = absurd k
AreLowered-DistinctNames limit (p ∷ ps) [] k h = absurd k
AreLowered-DistinctNames limit (p ∷ ps) (q ∷ qs) (name, typ, lowered, k) h =
    (others ps qs k h.0, AreLowered-DistinctNames limit ps qs k h.1)
  where
    others :
        (xs ys : List PluginConfiguration)
        → AreLowered limit xs ys
        → All (λ x. str_eq p.name x.name ≡ false) xs
        → All (λ y. str_eq q.name y.name ≡ false) ys
    others [] [] k h = tt
    others [] (y ∷ ys) k h = absurd k
    others (x ∷ xs) [] k h = absurd k
    others (x ∷ xs) (y ∷ ys) (same, t, l, k) h = (rw (name, same) (h.0), others xs ys k h.1)

-- The plugins of the three types, where there is one frontend and one backend.
ordered :
    (fronts operators backs : List PluginConfiguration) (front back : PluginConfiguration)
    → fronts ≡ front ∷ []
    → backs ≡ back ∷ []
    → (fronts ++ operators) ++ backs ≡ (front ∷ operators) ++ back ∷ []
ordered fronts operators backs front back f b =
    ap (λ (ps : List PluginConfiguration). (ps ++ operators) ++ backs) f
    ∙ ap (λ (ps : List PluginConfiguration). (front ∷ operators) ++ ps) b

checked :
    (c : SimulatorConfiguration) (ps : List PluginConfiguration)
    → check_plugin_list c.plugins ≡ ok ps
    → IsPrepared c (optimize_loglevels (record c { plugins = ps }))
checked c ps h =
    let (u, a, k) =
      and_then-eq-ok
        (require (say "missing frontend") (say "duplicate frontend")
          (of_type PluginType.frontend c.plugins))
        _ (sym (check_plugin_list_lem c.plugins) ∙ h) in
    let (v, b, l) =
      and_then-eq-ok
        (require (say "missing backend") (say "duplicate backend")
          (of_type PluginType.backend c.plugins))
        _ k in
    let (front, only_front) = require-single _ _ (of_type PluginType.frontend c.plugins) u a in
    let (back, only_back) = require-single _ _ (of_type PluginType.backend c.plugins) v b in
    let (fresh, distinct, types) = name_plugins-IsNamed 0 [] _ ps l in
    let named = name_plugins-AreNamed 0 [] _ ps l in
    let o = optimize_loglevels-IsOptimized (record c { plugins = ps }) in
    let order =
      ordered (of_type PluginType.frontend c.plugins) (of_type PluginType.operator c.plugins)
        (of_type PluginType.backend c.plugins) front back only_front only_back in
    record {
      front = front;
      back = back;
      only_front = only_front;
      only_back = only_back;
      limit = o.limit;
      is_sink = o.is_sink;
      covers = o.covers;
      plugins =
          named-lowered o.limit ((front ∷ of_type PluginType.operator c.plugins) ++ back ∷ []) ps _
            (subst (λ (xs : List PluginConfiguration). AreNamed xs ps) order named) o.plugins;
      distinct = AreLowered-DistinctNames o.limit ps _ o.plugins distinct;
      dqcsim = o.dqcsim;
    }

-- Where a simulator is made, its simulation is made from a prepared configuration: that of one frontend,
-- the operators in their order and one backend, which keep the names that they have and their types, with
-- distinct names, and with every source of log messages that is more verbose than the most verbose sink
-- lowered to that.
pub new-IsPrepared :
    {P R : Type 0} (trait : PluginTrait P) (chacha : ChaCha R) (logger : ℕ)
    (instantiate : PluginConfiguration → P)
    (new_logger : SimulatorConfiguration → Option (Option (List HostCall)))
    (spawn_log : SimulatorConfiguration → Outcome (Unit {0})) (seed : ℕ)
    (c : SimulatorConfiguration) (s : Simulation P)
    → new trait chacha logger instantiate new_logger spawn_log seed c ≡ ok s
    → (prepared : SimulatorConfiguration) × IsPrepared c prepared
      × (new_simulation trait chacha logger
            (kept_log (new_logger prepared))
            seed
            (map instantiate prepared.plugins)
          ≡ ok s)
unfolding new prepare
new-IsPrepared trait chacha logger instantiate new_logger spawn_log seed c s h =
    let (prepared, a, k) = and_then-eq-ok (prepare c) _ h in
    let (u, b, l) = and_then-eq-ok (spawn_log prepared) _ k in
    let (ps, d, m) = and_then-eq-ok (check_plugin_list c.plugins) _ a in
    (prepared, subst (IsPrepared c) (ok-injective m) (checked c ps d), l)
