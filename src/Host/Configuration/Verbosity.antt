-- ===== src/Host/Configuration/Verbosity.antt =====
-- The verbosity of the log sources after the optimization.
use dqcsim_rs.Common.{
  ◌≤◌, ◌<◌, ◌≡◌, ◌⊎◌, refl, Bool, true, false, List, [], ◌∷◌, Option, none, some, arith, All,
  All-imp, Bool-cases, inl, inr, ltb, ltb→lt, if◌then◌else◌,
}
use dqcsim_rs.Types.Log.{LoglevelFilter, TeeFileConfiguration, filter_rank, more_verbose}
use dqcsim_rs.Host.Configuration.{
  PluginConfiguration, SimulatorConfiguration, clamp, most_verbose, limit_verbosity,
  max_dqcsim_verbosity, optimize_loglevels,
}

either-le :
    (max f : LoglevelFilter)
    → (filter_rank max ≤ filter_rank (if more_verbose f max then f else max))
      × (filter_rank f ≤ filter_rank (if more_verbose f max then f else max))
unfolding more_verbose
either-le max f = elim (Bool-cases (ltb (filter_rank max) (filter_rank f))) [
  | inl e ↦
      let l : filter_rank max < filter_rank f = ltb→lt _ _ e in rw e (omega (arith, l), omega arith)
  | inr e ↦ rw e (omega arith, ground (arith, e))
]

most_verbose-le :
    (max : LoglevelFilter) (tees : List TeeFileConfiguration)
    → (filter_rank max ≤ filter_rank (most_verbose max tees))
      × All (λ tee. filter_rank tee.filter ≤ filter_rank (most_verbose max tees)) tees
unfolding most_verbose more_verbose
most_verbose-le max [] = (omega arith, tt)
most_verbose-le max (tee ∷ tees) =
    let (a, b) = most_verbose-le (if more_verbose tee.filter max then tee.filter else max) tees in
    let (l, m) = either-le max tee.filter in (omega (arith, a, l), (omega (arith, a, m), b))

-- The filter of every sink is at most as verbose as the maximum.
abbrev pub CoversSinks : SimulatorConfiguration → LoglevelFilter → Type 0
CoversSinks c max =
    (filter_rank c.stderr_level ≤ filter_rank max)
    × All (λ tee. filter_rank tee.filter ≤ filter_rank max) c.tee_files
    × elim c.log_callback as (λ _. Type 0) [
      | none ↦ Unit {0}
      | some f ↦ filter_rank f ≤ filter_rank max
    ]

-- One of the tee files has the filter.
abbrev pub HasFilter : LoglevelFilter → List TeeFileConfiguration → Type 0
HasFilter f [] = ⊥
HasFilter f (tee ∷ tees) = (f ≡ tee.filter) ⊎ HasFilter f tees

-- The filter is that of a sink: of stderr, of a tee file, or of the callback.
abbrev pub IsSink : SimulatorConfiguration → LoglevelFilter → Type 0
IsSink c f = (f ≡ c.stderr_level) ⊎ (HasFilter f c.tee_files ⊎ (c.log_callback ≡ some f))

-- A filter above the limit is lowered to it, and any other one is kept.
abbrev pub IsLowered : LoglevelFilter → LoglevelFilter → LoglevelFilter → Type 0
IsLowered limit old new =
    ((filter_rank old ≤ filter_rank limit) × (new ≡ old))
    ⊎ ((filter_rank limit < filter_rank old) × (new ≡ limit))

-- The plugins with their verbosity lowered so, and nothing else changed.
abbrev pub AreLowered :
    LoglevelFilter → List PluginConfiguration → List PluginConfiguration → Type 0
AreLowered limit [] [] = Unit
AreLowered limit (p ∷ ps) [] = ⊥
AreLowered limit [] (q ∷ qs) = ⊥
AreLowered limit (p ∷ ps) (q ∷ qs) =
    (q.name ≡ p.name)
    × (q.typ ≡ p.typ)
    × IsLowered limit p.verbosity q.verbosity
    × AreLowered limit ps qs

-- The sinks are as they were, and the sources are lowered to the most verbose of them.
pub record IsOptimized (c optimized : SimulatorConfiguration) : Type 0 where
  pub limit : LoglevelFilter
  pub is_sink : IsSink c limit
  pub covers : CoversSinks c limit
  pub dqcsim : IsLowered limit c.dqcsim_level optimized.dqcsim_level
  pub plugins : AreLowered limit c.plugins optimized.plugins
  pub stderr : optimized.stderr_level ≡ c.stderr_level
  pub tee_files : optimized.tee_files ≡ c.tee_files
  pub callback : optimized.log_callback ≡ c.log_callback

clamp-IsLowered : (limit a : LoglevelFilter) → IsLowered limit a (clamp limit a)
unfolding clamp more_verbose
clamp-IsLowered limit a = elim (Bool-cases (ltb (filter_rank limit) (filter_rank a))) [
  | inl e ↦ inr (ltb→lt _ _ e, rw (e, clamp) refl)
  | inr e ↦ inl (ground (arith, e), rw (e, clamp) refl)
]

limit_verbosity-AreLowered :
    (limit : LoglevelFilter) (ps : List PluginConfiguration)
    → AreLowered limit ps (limit_verbosity limit ps)
unfolding limit_verbosity
limit_verbosity-AreLowered limit [] = tt
limit_verbosity-AreLowered limit (p ∷ ps) =
    (refl, refl, clamp-IsLowered limit p.verbosity, limit_verbosity-AreLowered limit ps)

-- The loop over the tee files keeps the filter that it starts with, or that of a tee file.
most_verbose-HasFilter :
    (max : LoglevelFilter) (tees : List TeeFileConfiguration)
    → (most_verbose max tees ≡ max) ⊎ HasFilter (most_verbose max tees) tees
unfolding most_verbose
most_verbose-HasFilter max [] = inl refl
most_verbose-HasFilter max (tee ∷ tees) =
    go (more_verbose tee.filter max)
      (most_verbose-HasFilter (if more_verbose tee.filter max then tee.filter else max) tees)
  where
    go :
        (b : Bool)
        → ((most_verbose (if b then tee.filter else max) tees ≡ (if b then tee.filter else max))
            ⊎ HasFilter (most_verbose (if b then tee.filter else max) tees) tees)
        → (most_verbose (if b then tee.filter else max) tees ≡ max)
          ⊎ HasFilter (most_verbose (if b then tee.filter else max) tees) (tee ∷ tees)
    go true (inl e) = inr (inl e)
    go false (inl e) = inl e
    go b (inr h) = inr (inr h)

max-IsSink : (c : SimulatorConfiguration) → IsSink c (max_dqcsim_verbosity c)
unfolding max_dqcsim_verbosity
max-IsSink c = go c.log_callback refl (most_verbose-HasFilter c.stderr_level c.tee_files)
  where
    m : LoglevelFilter
    m = most_verbose c.stderr_level c.tee_files

    go :
        (o : Option LoglevelFilter)
        → c.log_callback ≡ o
        → (m ≡ c.stderr_level) ⊎ HasFilter m c.tee_files
        → IsSink c (elim o as (λ _. LoglevelFilter) [
          | none ↦ m
          | some f ↦ if more_verbose f m then f else m
        ])
    go none e (inl h) = inl h
    go none e (inr h) = inr (inl h)
    go (some f) e h = pick (more_verbose f m) h
      where
        pick :
            (b : Bool)
            → (m ≡ c.stderr_level) ⊎ HasFilter m c.tee_files
            → IsSink c (if b then f else m)
        pick true h = inr (inr e)
        pick false (inl h) = inl h
        pick false (inr h) = inr (inl h)

max-CoversSinks : (c : SimulatorConfiguration) → CoversSinks c (max_dqcsim_verbosity c)
unfolding max_dqcsim_verbosity
max-CoversSinks c = go c.log_callback
  where
    m : LoglevelFilter
    m = most_verbose c.stderr_level c.tee_files

    go :
        (o : Option LoglevelFilter)
        → let max = elim o as (λ _. LoglevelFilter) [
          | none ↦ m
          | some f ↦ if more_verbose f m then f else m
        ] in
          (filter_rank c.stderr_level ≤ filter_rank max)
          × All (λ tee. filter_rank tee.filter ≤ filter_rank max) c.tee_files
          × elim o as (λ _. Type 0) [ none ↦ Unit {0} | some f ↦ filter_rank f ≤ filter_rank max ]
    go none = let (a, b) = most_verbose-le c.stderr_level c.tee_files in (a, b, tt)
    go (some f) =
        let (a, b) = most_verbose-le c.stderr_level c.tee_files in
        let (l, k) = either-le m f in
        (omega (arith, a, l), All-imp _ _ (λ tee h. omega (arith, h, l)) c.tee_files b, k)

-- The optimization keeps the sinks, lowers the verbosity of DQCsim itself and of every plugin to that of
-- the most verbose sink where it is above that, and changes nothing else of the plugins.
pub optimize_loglevels-IsOptimized :
    (c : SimulatorConfiguration) → IsOptimized c (optimize_loglevels c)
unfolding optimize_loglevels
optimize_loglevels-IsOptimized c = record {
  limit = max_dqcsim_verbosity c;
  is_sink = max-IsSink c;
  covers = max-CoversSinks c;
  dqcsim = clamp-IsLowered (max_dqcsim_verbosity c) c.dqcsim_level;
  plugins = limit_verbosity-AreLowered (max_dqcsim_verbosity c) c.plugins;
  stderr = refl;
  tee_files = refl;
  callback = refl;
}
