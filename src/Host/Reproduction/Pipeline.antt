-- ===== src/Host/Reproduction/Pipeline.antt =====
-- The pipeline that is made from a reproduction.
use dqcsim_rs.Common.{
  Bool, true, false, ◌≡◌, refl, sym, ◌∙◌, ap, if◌then◌else◌, String, Option, none, some, List, [],
  ◌∷◌, ◌++◌, map, length, ◌<◌, arith, Outcome, ok, err, fault, Fault, Text, ok_or, and_then,
  and_then-eq-ok, ok-injective,
}
use dqcsim_rs.Types.{PluginType}
use dqcsim_rs.Host.Simulation.{HostCall}
use dqcsim_rs.Host.Configuration.Process.{
  PluginProcessConfiguration, PluginProcessSpecification, PluginProcessFunctionalConfiguration,
  PluginReproduction,
}
use dqcsim_rs.Host.Reproduction.{
  PluginModification, Reproduction, process, SimulatorConfiguration, apply, apply_loop, apply_all,
  configured, set_backend, set_types, make_plugins, installed, to_run,
}
use dqcsim_rs.Host.Reproduction.Modify.{OneModified, applied, apply_iff}

-- What decides how a plugin behaves.
abbrev pub Core : Type 0
Core = String × PluginProcessSpecification × PluginProcessFunctionalConfiguration

abbrev pub core : PluginProcessConfiguration → Core
core p = (p.name, p.specification, p.functional)

abbrev pub placed : PluginType → PluginReproduction → Core
placed typ x =
    (x.name, record { executable = x.executable; script = x.script; typ = typ }, x.functional)

-- The last plugin is the backend, the first one the frontend, and the others are operators.
abbrev pub behind_frontend : List PluginReproduction → List Core
behind_frontend [] = []
behind_frontend (x ∷ []) = placed PluginType.backend x ∷ []
behind_frontend (x ∷ y ∷ xs) = placed PluginType.operator x ∷ behind_frontend (y ∷ xs)

abbrev pub pipeline_of : List PluginReproduction → List Core
pipeline_of [] = []
pipeline_of (x ∷ xs) = placed PluginType.frontend x ∷ behind_frontend xs

core-applied :
    (m : PluginModification) (p : PluginProcessConfiguration)
    (before behind : List PluginProcessConfiguration)
    → map core (before ++ applied m p ∷ behind) ≡ map core (before ++ p ∷ behind)
core-applied m p [] behind = refl
core-applied m p (q ∷ before) behind = rw (core-applied m p before behind)

core-OneModified :
    (m : PluginModification) (ps qs : List PluginProcessConfiguration)
    → OneModified m ps qs
    → map core qs ≡ map core ps
core-OneModified m ps qs o =
    ap (map core) o.after ∙ core-applied m o.plugin o.before o.behind ∙ sym (ap (map core) o.split)

core-apply_all :
    (ms : List PluginModification) (ps qs : List PluginProcessConfiguration)
    → apply_all ms ps ≡ ok qs
    → map core qs ≡ map core ps
unfolding apply_all
core-apply_all [] ps qs h = sym (ap (map core) (ok-injective h))
core-apply_all (m ∷ ms) ps qs h =
    let (rs, a, k) = and_then-eq-ok (apply m ps) (apply_all ms) h in
    core-apply_all ms rs qs k ∙ core-OneModified m ps rs ((apply_iff m ps rs).0 a)

core-set_backend :
    (x : PluginReproduction) (xs : List PluginReproduction)
    → map core (set_backend (map configured (x ∷ xs))) ≡ behind_frontend (x ∷ xs)
unfolding set_backend configured
core-set_backend x [] = refl
core-set_backend x (y ∷ xs) =
    ap (λ (cs : List Core). placed PluginType.operator x ∷ cs) (core-set_backend y xs)

core-set_types :
    (xs : List PluginReproduction) (ps : List PluginProcessConfiguration)
    → set_types (map configured xs) ≡ ok ps
    → (map core ps ≡ pipeline_of xs) × (1 < length xs)
unfolding set_types configured
core-set_types [] ps h = absurd (cc h)
core-set_types (x ∷ []) ps h = absurd (cc h)
core-set_types (x ∷ y ∷ xs) ps h = (
  sym (ap (map core) (ok-injective h))
      ∙ ap (λ (cs : List Core). placed PluginType.frontend x ∷ cs) (core-set_backend y xs),
  omega arith,
)

core-make_plugins :
    (r : Reproduction) (ms : List PluginModification) (ps : List PluginProcessConfiguration)
    → make_plugins r ms ≡ ok ps
    → (map core ps ≡ pipeline_of r.plugins) × (1 < length r.plugins)
unfolding make_plugins
core-make_plugins r ms ps h =
    let (qs, a, k) = and_then-eq-ok (set_types (map configured r.plugins)) (apply_all ms) h in
    let (c, n) = core-set_types r.plugins qs a in (core-apply_all ms qs ps k ∙ c, n)

-- How a run from a reproduction is set up.
pub record IsRun (r : Reproduction) (exact : Bool) (old : SimulatorConfiguration)
    (calls : List HostCall) (new : SimulatorConfiguration) : Type 0 where
  pub plugins : List PluginProcessConfiguration
  pub installs : new.plugins ≡ map process plugins
  pub pipeline : map core plugins ≡ pipeline_of r.plugins
  pub enough : 1 < length r.plugins
  pub replays : calls ≡ r.host_calls
  pub same_seed : new.seed ≡ (if exact then r.seed else old.seed)
  pub same_style : new.reproduction_path_style ≡ old.reproduction_path_style

abbrev pub RunOf :
    Reproduction
    → Bool
    → SimulatorConfiguration
    → Outcome (List HostCall) × SimulatorConfiguration
    → Type 0
RunOf r exact old (ok calls, new) = IsRun r exact old calls new
RunOf r exact old (err e, new) = new ≡ (if exact then record old { seed = r.seed } else old)
RunOf r exact old (fault f, new) = ⊥

seeded-IsRun :
    (r : Reproduction) (exact : Bool) (old : SimulatorConfiguration)
    (ps : List PluginProcessConfiguration)
    → (map core ps ≡ pipeline_of r.plugins) × (1 < length r.plugins)
    → (made : SimulatorConfiguration) → made ≡ (if exact then record old { seed = r.seed } else old)
    → IsRun r exact old r.host_calls (record made { plugins = map process ps })
seeded-IsRun r exact old ps h made q = record {
  plugins = ps;
  installs = refl;
  pipeline = h.0;
  enough = h.1;
  replays = refl;
  same_seed = ap (λ (c : SimulatorConfiguration). c.seed) q ∙ seed_if exact;
  same_style = ap (λ (c : SimulatorConfiguration). c.reproduction_path_style) q ∙ style_if exact;
}
  where
    seed_if :
        (b : Bool)
        → (if b then record old { seed = r.seed } else old).seed ≡ (if b then r.seed else old.seed)
    seed_if true = refl
    seed_if false = refl

    style_if :
        (b : Bool)
        → (if b then record old { seed = r.seed } else old).reproduction_path_style
          ≡ old.reproduction_path_style
    style_if true = refl
    style_if false = refl

apply-no_fault :
    (m : PluginModification) (ps : List PluginProcessConfiguration) (f : Fault)
    → ¬ (apply m ps ≡ fault f)
unfolding apply
apply-no_fault m ps f = go (apply_loop m ps) _
  where
    go : (o : Option (List PluginProcessConfiguration)) (t : Text) → ¬ (ok_or o t ≡ fault f)
    go none t h = cc h
    go (some qs) t h = cc h

apply_all-no_fault :
    (ms : List PluginModification) (ps : List PluginProcessConfiguration) (f : Fault)
    → ¬ (apply_all ms ps ≡ fault f)
unfolding apply_all
apply_all-no_fault [] ps f h = cc h
apply_all-no_fault (m ∷ ms) ps f h = go (apply m ps) refl (λ qs. apply_all-no_fault ms qs f) h
  where
    go :
        (o : Outcome (List PluginProcessConfiguration))
        → apply m ps ≡ o
        → ((qs : List PluginProcessConfiguration) → ¬ (apply_all ms qs ≡ fault f))
        → ¬ (and_then o (apply_all ms) ≡ fault f)
    go (ok qs) q ih h = ih qs h
    go (err e) q ih h = cc h
    go (fault p) q ih h = apply-no_fault m ps p q

make_plugins-no_fault :
    (r : Reproduction) (ms : List PluginModification) (f : Fault) → ¬ (make_plugins r ms ≡ fault f)
unfolding make_plugins set_types
make_plugins-no_fault r ms f = go (map configured r.plugins)
  where
    go :
        (ps : List PluginProcessConfiguration)
        → ¬ (and_then (set_types ps) (apply_all ms) ≡ fault f)
    go [] h = cc h
    go (p ∷ []) h = cc h
    go (p ∷ q ∷ ps) h = apply_all-no_fault ms _ f h

-- A run from a reproduction either fails, with no change but the seed, or replays the host calls with the
-- recorded plugins, at least two, whose names, executables, scripts and functional configurations are
-- those recorded: the first as frontend, the last as backend and the others as operators. The seed is the
-- recorded one in an exact run, and else as it was.
pub to_run-RunOf :
    (r : Reproduction) (ms : List PluginModification) (exact : Bool) (old : SimulatorConfiguration)
    → RunOf r exact old (to_run r ms exact old)
unfolding to_run
to_run-RunOf r ms exact old = go (make_plugins r ms) refl
  where
    go :
        (made : Outcome (List PluginProcessConfiguration))
        → make_plugins r ms ≡ made
        → RunOf r exact old (installed r made (if exact then record old { seed = r.seed } else old))
    go (ok ps) q = seeded-IsRun r exact old ps (core-make_plugins r ms ps q) _ refl
    go (err e) q = refl
    go (fault f) q = absurd (make_plugins-no_fault r ms f q)
