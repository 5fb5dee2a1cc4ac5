-- ===== src/Host/Configuration/Plugins.antt =====
-- The order of the plugins after the check of the plugin list.
use dqcsim_rs.Common.{
  ℕ, ◌≤◌, ◌≡◌, refl, ◌∙◌, ap, List, [], ◌∷◌, ◌++◌, length, Option, none, some, Text, Outcome, ok,
  err, fault, inv_arg, and_then, say, arith,
}
use dqcsim_rs.Types.{PluginType, same_type}
use dqcsim_rs.Host.Configuration.{
  PluginConfiguration, find_type, move_to_front, move_to_back, fix_frontend, fix_backend,
  name_plugins, check_plugin_list,
}
use dqcsim_rs.Host.Configuration.Find.{
  of_type, others, Finds, find_type-Finds, move_to_front-append, move_to_back-append,
}

-- That there is exactly one plugin of a type.
abbrev pub require : Text → Text → List PluginConfiguration → Outcome (Unit {0})
require missing duplicate [] = inv_arg missing
require missing duplicate (p ∷ []) = ok tt
require missing duplicate (p ∷ q ∷ ps) = inv_arg duplicate

require-duplicate :
    (missing duplicate : Text) (ps : List PluginConfiguration)
    → 2 ≤ length ps
    → require missing duplicate ps ≡ inv_arg duplicate
require-duplicate missing duplicate [] h = absurd (omega (arith, h))
require-duplicate missing duplicate (p ∷ []) h = absurd (omega (arith, h))
require-duplicate missing duplicate (p ∷ q ∷ ps) h = refl

fix_frontend_lem :
    (ps : List PluginConfiguration)
    → fix_frontend ps
      ≡ and_then
          (require
            (say "missing frontend")
            (say "duplicate frontend")
            (of_type PluginType.frontend ps))
          (λ _. ok (of_type PluginType.frontend ps ++ others PluginType.frontend ps))
unfolding fix_frontend
fix_frontend_lem ps =
    go (find_type PluginType.frontend (say "duplicate frontend") 0 none ps) refl
      (find_type-Finds PluginType.frontend (say "duplicate frontend") 0 ps)
  where
    go :
        (r : Outcome (Option ℕ))
        → find_type PluginType.frontend (say "duplicate frontend") 0 none ps ≡ r
        → Finds PluginType.frontend (say "duplicate frontend") 0 ps r
        → fix_frontend ps
          ≡ and_then
              (require
                (say "missing frontend")
                (say "duplicate frontend")
                (of_type PluginType.frontend ps))
              (λ _. ok (of_type PluginType.frontend ps ++ others PluginType.frontend ps))
    go (ok none) e f = rw (e, f) refl
    go (ok (some k)) e (j, h, l) =
        let k_eq : k ≡ length l.before = omega (arith, h, l.index) in
        rw (e, l.alone, l.rest)
          (ap (λ i. move_to_front i ps) k_eq
            ∙ ap (λ qs. move_to_front (length l.before) qs) l.split
            ∙ move_to_front-append l.before l.behind l.plugin)
    go (err x) e (f, h) =
        rw
          (
            e,
            f,
            require-duplicate (say "missing frontend") (say "duplicate frontend")
                (of_type PluginType.frontend ps) h,
          )
          refl
    go (fault x) e f = absurd f

fix_backend_lem :
    (ps : List PluginConfiguration)
    → fix_backend ps
      ≡ and_then
          (require
            (say "missing backend")
            (say "duplicate backend")
            (of_type PluginType.backend ps))
          (λ _. ok (others PluginType.backend ps ++ of_type PluginType.backend ps))
unfolding fix_backend
fix_backend_lem ps =
    go (find_type PluginType.backend (say "duplicate backend") 0 none ps) refl
      (find_type-Finds PluginType.backend (say "duplicate backend") 0 ps)
  where
    go :
        (r : Outcome (Option ℕ))
        → find_type PluginType.backend (say "duplicate backend") 0 none ps ≡ r
        → Finds PluginType.backend (say "duplicate backend") 0 ps r
        → fix_backend ps
          ≡ and_then
              (require
                (say "missing backend")
                (say "duplicate backend")
                (of_type PluginType.backend ps))
              (λ _. ok (others PluginType.backend ps ++ of_type PluginType.backend ps))
    go (ok none) e f = rw (e, f) refl
    go (ok (some k)) e (j, h, l) =
        let k_eq : k ≡ length l.before = omega (arith, h, l.index) in
        rw (e, l.alone, l.rest)
          (ap (λ i. move_to_back i ps) k_eq
            ∙ ap (λ qs. move_to_back (length l.before) qs) l.split
            ∙ move_to_back-append l.before l.behind l.plugin)
    go (err x) e (f, h) =
        rw
          (
            e,
            f,
            require-duplicate (say "missing backend") (say "duplicate backend")
                (of_type PluginType.backend ps) h,
          )
          refl
    go (fault x) e f = absurd f

-- What the two rearrangements do to one another.
of_type-append :
    (typ : PluginType) (ps qs : List PluginConfiguration)
    → of_type typ (ps ++ qs) ≡ of_type typ ps ++ of_type typ qs
of_type-append typ [] qs = refl
of_type-append typ (p ∷ ps) qs = ground (arith, of_type-append typ ps qs)

others-append :
    (typ : PluginType) (ps qs : List PluginConfiguration)
    → others typ (ps ++ qs) ≡ others typ ps ++ others typ qs
others-append typ [] qs = refl
others-append typ (p ∷ ps) qs = ground (arith, others-append typ ps qs)

-- What rearranging the frontends leaves of the backends and the operators.
abbrev Rearranged : List PluginConfiguration → Type 0
Rearranged ps =
    (of_type PluginType.backend (of_type PluginType.frontend ps) ≡ [])
    × (others PluginType.backend (of_type PluginType.frontend ps) ≡ of_type PluginType.frontend ps)
    × (of_type PluginType.backend (others PluginType.frontend ps) ≡ of_type PluginType.backend ps)
    × (others PluginType.backend (others PluginType.frontend ps) ≡ of_type PluginType.operator ps)

all-Rearranged : (ps : List PluginConfiguration) → Rearranged ps
unfolding same_type
all-Rearranged [] = (refl, refl, refl, refl)
all-Rearranged (p ∷ ps) = go p.typ refl (all-Rearranged ps)
  where
    go : (t : PluginType) → p.typ ≡ t → Rearranged ps → Rearranged (p ∷ ps)
    go PluginType.frontend e (a, b, c, d) =
        (ground (arith, e, a), ground (arith, e, b), ground (arith, e, c), ground (arith, e, d))
    go PluginType.operator e (a, b, c, d) =
        (ground (arith, e, a), ground (arith, e, b), ground (arith, e, c), ground (arith, e, d))
    go PluginType.backend e (a, b, c, d) =
        (ground (arith, e, a), ground (arith, e, b), ground (arith, e, c), ground (arith, e, d))

-- The plugins with the frontend in front.
abbrev front_first : List PluginConfiguration → List PluginConfiguration
front_first ps = of_type PluginType.frontend ps ++ others PluginType.frontend ps

backends-front_first :
    (ps : List PluginConfiguration)
    → of_type PluginType.backend (front_first ps) ≡ of_type PluginType.backend ps
backends-front_first ps =
    let (a, b, c, d) = all-Rearranged ps in
    rw
      (
        of_type-append PluginType.backend (of_type PluginType.frontend ps)
            (others PluginType.frontend ps),
        a,
        c,
      )
      refl

others-front_first :
    (ps : List PluginConfiguration)
    → others PluginType.backend (front_first ps)
      ≡ of_type PluginType.frontend ps ++ of_type PluginType.operator ps
others-front_first ps =
    let (a, b, c, d) = all-Rearranged ps in
    rw
      (
        others-append PluginType.backend (of_type PluginType.frontend ps)
            (others PluginType.frontend ps),
        b,
        d,
      )
      refl

and_then_ok :
    (r : Outcome (Unit {0})) (qs : List PluginConfiguration)
    (f : List PluginConfiguration → Outcome (List PluginConfiguration))
    → and_then (and_then r (λ _. ok qs)) f ≡ and_then r (λ _. f qs)
and_then_ok (ok u) qs f = refl
and_then_ok (err e) qs f = refl
and_then_ok (fault p) qs f = refl

-- The check of the plugin list, in full: it is an error if there is no frontend or more than one, then
-- if there is no backend or more than one, each with its own message; and otherwise the frontend
-- is put first, the backend last, and the operators between them in the order in which they were
-- given, before the plugins are named and their names compared.
pub check_plugin_list_lem :
    (ps : List PluginConfiguration)
    → check_plugin_list ps
      ≡ and_then
          (require
            (say "missing frontend")
            (say "duplicate frontend")
            (of_type PluginType.frontend ps))
          (λ _.
            and_then
              (require
                (say "missing backend")
                (say "duplicate backend")
                (of_type PluginType.backend ps))
              (λ _. name_plugins 0 [] (
                (of_type PluginType.frontend ps ++ of_type PluginType.operator ps)
                ++ of_type PluginType.backend ps)))
unfolding check_plugin_list
check_plugin_list_lem ps =
    let rest : List PluginConfiguration → Outcome (List PluginConfiguration) =
      λ qs. and_then (fix_backend qs) (name_plugins 0 []) in
    ap (λ (r : Outcome (List PluginConfiguration)). and_then r rest) (fix_frontend_lem ps)
    ∙ and_then_ok
        (require (say "missing frontend") (say "duplicate frontend")
          (of_type PluginType.frontend ps))
        (front_first ps) rest
    ∙ ap
        (λ (r : Outcome (List PluginConfiguration)).
          and_then
            (require (say "missing frontend") (say "duplicate frontend")
              (of_type PluginType.frontend ps))
            (λ _. and_then r (name_plugins 0 [])))
        (fix_backend_lem (front_first ps))
    ∙ rw (backends-front_first ps, others-front_first ps)
        (ap
          (λ (r : Outcome (List PluginConfiguration)).
            and_then
              (require (say "missing frontend") (say "duplicate frontend")
                (of_type PluginType.frontend ps))
              (λ _. r))
          (and_then_ok
            (require (say "missing backend") (say "duplicate backend")
              (of_type PluginType.backend ps))
            ((of_type PluginType.frontend ps ++ of_type PluginType.operator ps)
              ++ of_type PluginType.backend ps)
            (name_plugins 0 [])))
