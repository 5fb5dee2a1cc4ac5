-- ===== src/Host/Reproduction/Logger.antt =====
-- The log of a run that is made from a reproduction.
use dqcsim_rs.Common.{
  ℕ, Bool, ◌≡◌, refl, ◌∙◌, ap, subst, if◌then◌else◌, String, Option, none, some, List, [], ◌∷◌, map,
  Outcome, ok, err, fault, and_then,
}
use dqcsim_rs.Host.Simulation.{HostCall}
use dqcsim_rs.Host.Configuration.Process.{
  FileSystem, keep, PluginProcessConfiguration, PluginReproduction, convert_path,
  convert_path_option, get_reproduction,
}
use dqcsim_rs.Host.Reproduction.{
  PluginModification, Reproduction, process, SimulatorConfiguration, Whoami, to_run,
  reproduction_of, collect_reproductions, new_logger,
}
use dqcsim_rs.Host.Reproduction.Pipeline.{
  Core, core, behind_frontend, pipeline_of, RunOf, to_run-RunOf,
}

-- What is kept of a reproduction in the style that keeps paths.
abbrev logged : Core → PluginReproduction
logged (name, specification, functional) = record {
  name = name;
  executable = specification.executable;
  script = specification.script;
  functional = functional;
}

behind-logged : (xs : List PluginReproduction) → map logged (behind_frontend xs) ≡ xs
behind-logged [] = refl
behind-logged (x ∷ []) = refl
behind-logged (x ∷ y ∷ xs) = ap (λ (zs : List PluginReproduction). x ∷ zs) (behind-logged (y ∷ xs))

pipeline-logged : (xs : List PluginReproduction) → map logged (pipeline_of xs) ≡ xs
pipeline-logged [] = refl
pipeline-logged (x ∷ xs) = ap (λ (zs : List PluginReproduction). x ∷ zs) (behind-logged xs)

get_reproduction-keep :
    (fs : FileSystem) (c : PluginProcessConfiguration)
    → get_reproduction fs keep c ≡ ok (logged (core c))
unfolding get_reproduction convert_path convert_path_option
get_reproduction-keep fs c = go c.specification.script
  where
    made : Option String → PluginReproduction
    made s = record {
      name = c.name;
      executable = c.specification.executable;
      script = s;
      functional = c.functional;
    }

    go :
        (script : Option String)
        → and_then (convert_path_option fs keep script) (λ s. ok (made s)) ≡ ok (made script)
    go none = refl
    go (some path) = refl

collect-logged :
    (fs : FileSystem) (ps : List PluginProcessConfiguration)
    → collect_reproductions fs (some keep) (map process ps) ≡ ok (map logged (map core ps))
unfolding collect_reproductions reproduction_of
collect-logged fs [] = refl
collect-logged fs (p ∷ ps) = rw (get_reproduction-keep fs p, collect-logged fs ps)

new_logger-collected :
    (fs : FileSystem) (who : Whoami) (workdir : String) (c : SimulatorConfiguration)
    (xs : List PluginReproduction)
    → collect_reproductions fs c.reproduction_path_style c.plugins ≡ ok xs
    → who.workdir ≡ ok workdir
    → new_logger fs who c
      ≡ ok (record {
        seed = c.seed;
        plugins = xs;
        host_calls = [];
        hostname = who.hostname;
        username = who.username;
        workdir = workdir;
      })
unfolding new_logger
new_logger-collected fs who workdir c xs h w = rw (h, w)

-- The log that is started for a run from a reproduction has the plugins of that reproduction, where paths
-- are kept as they are, and its seed if the run is exact.
pub new_logger-to_run :
    (fs : FileSystem) (who : Whoami) (workdir : String) (r : Reproduction)
    (ms : List PluginModification) (exact : Bool) (old : SimulatorConfiguration)
    (calls : List HostCall)
    → who.workdir ≡ ok workdir
    → old.reproduction_path_style ≡ some keep
    → (to_run r ms exact old).0 ≡ ok calls
    → new_logger fs who (to_run r ms exact old).1
      ≡ ok (record {
        seed = if exact then r.seed else old.seed;
        plugins = r.plugins;
        host_calls = [];
        hostname = who.hostname;
        username = who.username;
        workdir = workdir;
      })
new_logger-to_run fs who workdir r ms exact old calls w style h =
    go (to_run r ms exact old) (to_run-RunOf r ms exact old) h
  where
    go :
        (x : Outcome (List HostCall) × SimulatorConfiguration)
        → RunOf r exact old x
        → x.0 ≡ ok calls
        → new_logger fs who x.1
          ≡ ok (record {
            seed = if exact then r.seed else old.seed;
            plugins = r.plugins;
            host_calls = [];
            hostname = who.hostname;
            username = who.username;
            workdir = workdir;
          })
    go (ok cs, new) k h =
        subst
          (λ (s : ℕ).
            new_logger fs who new
            ≡ ok (record {
              seed = s;
              plugins = r.plugins;
              host_calls = [];
              hostname = who.hostname;
              username = who.username;
              workdir = workdir;
            }))
          k.same_seed
          (new_logger-collected fs who workdir new r.plugins
            (rw (k.same_style, style, k.installs)
              (collect-logged fs k.plugins
                ∙ ap (λ (cores : List Core). ok (map logged cores)) k.pipeline
                ∙ ap (λ (xs : List PluginReproduction). ok xs) (pipeline-logged r.plugins)))
            w)
    go (err e, new) k h = absurd (cc h)
    go (fault f, new) k h = absurd k
