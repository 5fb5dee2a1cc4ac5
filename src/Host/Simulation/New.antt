-- ===== src/Host/Simulation/New.antt =====
-- `Simulation::new` of `rust/src/core/host/simulation.rs`: the plugins are spawned, and then initialized from
-- the back to the front, each with the address that the one behind it returned.
use dqcsim_rs.Common.{
  ℕ, Bool, true, false, ◌≡◌, refl, ltb, String, List, [], ◌∷◌, length, Option, none, Outcome, ok,
  err, fault, ErrorKind, subst, ◌>>=◌, ◌>>◌, guard, return, sym, ◌∙◌, inv_arg, say, M, arith,
  if◌then◌else◌,
}
use dqcsim_rs.Types.{PluginMetadata}
use dqcsim_rs.Protocol.{PluginInitializeResponse}
use dqcsim_rs.Host.Accelerator.{idle}
use dqcsim_rs.Host.Plugin
use dqcsim_rs.Host.Plugin.{PluginTrait}
use dqcsim_rs.Host.Simulation.{Simulation, InitializedPlugin, HostCall}
use dqcsim_rs.Plugin.State.{ChaCha}

-- `zip` of the plugins with their metadata.
unfoldable pub zip : {P : Type 0} → List P → List PluginMetadata → List (InitializedPlugin P)
zip [] ms = []
zip (p ∷ ps) [] = []
zip (p ∷ ps) (m ∷ ms) = record { plugin = p; metadata = m } ∷ zip ps ms

-- A call on each plugin from the back to the front, up to the first error.
unfoldable pub each_back : {P : Type 0} → M P (Unit {0}) → M (List P) (Unit {0})
each_back call [] = (ok tt, [])
each_back call (p ∷ ps) =
    let (r, qs) = each_back call ps in
    elim r [
      | ok _ ↦ let (r', q) = call p in (r', q ∷ qs)
      | err e ↦ (err e, p ∷ qs)
      | fault f ↦ (fault f, p ∷ qs)
    ]

-- What the plugins behind returned: the address for the next one, the generator of the seeds, and the
-- metadata from the front.
pub record Chain (R : Type 0) : Type 0 where
  pub downstream : Option String
  pub rng : R
  pub metadata : List PluginMetadata

module _ {P R : Type 0} (trait : PluginTrait P) (chacha : ChaCha R) (logger : ℕ) where
  -- Every plugin is spawned, also after an error; the result says whether any of them failed.
  unfoldable pub spawn_all : M (List P) Bool
  spawn_all [] = (ok false, [])
  spawn_all (p ∷ ps) =
      let (r, q) = trait.spawn p in
      let (rest, qs) = spawn_all ps in
      elim r [
        | ok _ ↦ (rest, q ∷ qs)
        | err _ ↦ elim rest [
          | ok _ ↦ (ok true, q ∷ qs)
          | err e ↦ (err e, q ∷ qs)
          | fault f ↦ (fault f, q ∷ qs)
        ]
        | fault f ↦ (fault f, q ∷ ps)
      ]

  -- One plugin is initialized, and its answer put in front of the chain.
  unfoldable pub link : Chain R → PluginInitializeResponse → Chain R
  link c response = record {
    downstream = response.upstream;
    rng = (chacha.next_u64 c.rng).1;
    metadata = response.metadata ∷ c.metadata;
  }

  unfoldable pub initialize_one : Chain R → M P (Chain R)
  unfolding Plugin.initialize link
  initialize_one c p =
      let (r, q) = Plugin.initialize trait logger c.downstream (chacha.next_u64 c.rng).0 p in
      elim r [
        | ok response ↦ (ok (link c response), q)
        | err e ↦ (err e, q)
        | fault f ↦ (fault f, q)
      ]

  unfoldable pub initialize_all : R → M (List P) (Chain R)
  unfolding initialize_one
  initialize_all rng [] = (ok (record { downstream = none; rng = rng; metadata = [] }), [])
  initialize_all rng (p ∷ ps) =
      let (r, qs) = initialize_all rng ps in
      elim r [
        | ok c ↦ let (r', q) = initialize_one c p in (r', q ∷ qs)
        | err e ↦ (err e, p ∷ qs)
        | fault f ↦ (fault f, p ∷ qs)
      ]

  -- All plugins but the frontend wait for a connection.
  unfoldable pub accept_all : M (List P) (Unit {0})
  unfolding each_back Plugin.accept_upstream
  accept_all [] = (ok tt, [])
  accept_all (p ∷ ps) = let (r, qs) = each_back (Plugin.accept_upstream trait) ps in (r, p ∷ qs)

  -- The set-up, once the plugins are spawned.
  unfoldable pub set_up : R → M (List P) (Chain R)
  unfolding initialize_all accept_all each_back Plugin.user_initialize
  set_up rng = do
    chain ← initialize_all rng
    accept_all
    each_back (Plugin.user_initialize trait)
    return chain

  unfoldable pub new_simulation : Option (List HostCall) → ℕ → List P → Outcome (Simulation P)
  unfolding spawn_all set_up zip
  new_simulation reproduction_log seed plugins =
      let (r, ps) =
        (do
          failed ← spawn_all
          guard failed (ErrorKind.other (say "Failed to spawn plugin(s)"))
          set_up (chacha.seed_from_u64 seed))
          plugins in
      let done : Outcome (Simulation P) = elim r [
        | ok chain ↦ ok (record {
          pipeline = zip ps chain.metadata;
          state = idle;
          host_to_accelerator_data = [];
          accelerator_to_host_data = [];
          reproduction_log = reproduction_log;
        })
        | err e ↦ err e
        | fault f ↦ fault f
      ] in
      if ltb (length plugins) 2
      then inv_arg (say "Simulation must consist of at least a frontend and backend")
      else done

  -- How the plugins were wired: the last one without a downstream address, and each other one with the
  -- address that the one behind it returned, under seeds drawn one after the other.
  pub data Wired (rng : R) : List P → Chain R → List P → Type 0 where
    last : Wired rng [] (record { downstream = none; rng = rng; metadata = [] }) []
    before :
        {ps qs : List P} {c : Chain R} (p q : P) (response : PluginInitializeResponse)
        → Wired rng ps c qs
        → Plugin.initialize trait logger c.downstream (chacha.next_u64 c.rng).0 p ≡ (ok response, q)
        → Wired rng
            (p ∷ ps)
            (record {
              downstream = response.upstream;
              rng = (chacha.next_u64 c.rng).1;
              metadata = response.metadata ∷ c.metadata;
            })
            (q ∷ qs)

  -- The wiring, of a call that succeeded.
  abbrev Result : R → List P → Outcome (Chain R) × List P → Type 0
  Result rng ps (ok c, qs) = Wired rng ps c qs
  Result rng ps (err e, qs) = Unit
  Result rng ps (fault f, qs) = Unit

  -- One round, by what initializing the plugin behind gave and what this plugin answers.
  wire :
      (rng : R) (p : P) (ps : List P) (x : Outcome (Chain R) × List P)
      → initialize_all rng ps ≡ x
      → ((c : Chain R) (qs : List P) → initialize_all rng ps ≡ (ok c, qs) → Wired rng ps c qs)
      → (c : Chain R) (qs : List P) → initialize_all rng (p ∷ ps) ≡ (ok c, qs)
      → Wired rng (p ∷ ps) c qs
  unfolding initialize_all initialize_one link
  wire rng p ps (err x, ts) e ih c qs h = absurd (cc (sym (failed) ∙ h))
    where
      failed : initialize_all rng (p ∷ ps) ≡ (err x, p ∷ ts)
      failed = ground (arith, e)
  wire rng p ps (fault x, ts) e ih c qs h = absurd (cc (sym (failed) ∙ h))
    where
      failed : initialize_all rng (p ∷ ps) ≡ (fault x, p ∷ ts)
      failed = ground (arith, e)
  wire rng p ps (ok b, ts) e ih c qs h =
      answer (Plugin.initialize trait logger b.downstream (chacha.next_u64 b.rng).0 p) refl
    where
      linked : Chain R → PluginInitializeResponse → Chain R
      linked d response = record {
        downstream = response.upstream;
        rng = (chacha.next_u64 d.rng).1;
        metadata = response.metadata ∷ d.metadata;
      }

      answer :
          (z : Outcome PluginInitializeResponse × P)
          → Plugin.initialize trait logger b.downstream (chacha.next_u64 b.rng).0 p ≡ z
          → Wired rng (p ∷ ps) c qs
      answer (ok response, q) f =
          let k : initialize_all rng (p ∷ ps) ≡ (ok (linked b response), q ∷ ts) =
            ground (arith, e, f) in
          let g : Path (Outcome (Chain R) × List P) (ok (linked b response), q ∷ ts) (ok c, qs) =
            sym k ∙ h in
          subst (Result rng (p ∷ ps)) g (before p q response (ih b ts e) f)
      answer (err x, q) f =
          let k : initialize_all rng (p ∷ ps) ≡ (err x, q ∷ ts) = ground (arith, e, f) in
          absurd (cc (sym k ∙ h))
      answer (fault x, q) f =
          let k : initialize_all rng (p ∷ ps) ≡ (fault x, q ∷ ts) = ground (arith, e, f) in
          absurd (cc (sym k ∙ h))

  -- If initializing the plugins succeeds then they are wired as a pipeline: the last one is initialized
  -- without a downstream address, each other one with the address that the plugin behind it
  -- returned, each under the next seed of the generator, and the metadata are those that they
  -- returned, from the front to the back.
  pub initialize_all-Wired :
      (rng : R) (ps : List P) (c : Chain R) (qs : List P)
      → initialize_all rng ps ≡ (ok c, qs)
      → Wired rng ps c qs
  unfolding initialize_all
  initialize_all-Wired rng [] c qs h = subst (Result rng []) h last
  initialize_all-Wired rng (p ∷ ps) c qs h =
      wire rng p ps (initialize_all rng ps) refl (initialize_all-Wired rng ps) c qs h
