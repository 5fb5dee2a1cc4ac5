-- ===== src/Host/Configuration/Find.antt =====
-- Finding the one plugin of a type and moving it, for the check of the plugin list.
use dqcsim_rs.Common.{
  ℕ, suc, ◌+◌, ◌-◌, ◌≤◌, true, false, ◌≡◌, refl, ap, List, [], ◌∷◌, ◌++◌, length, Option, none,
  some, Text, ErrorKind, ◌⊎◌, Outcome, ok, err, fault, inv_arg, and_then, arith, Bool-cases, inl,
  inr, length-append, ◌==◌, if◌then◌else◌,
}
use mathlib.Core.List.{append-nil}
use dqcsim_rs.Types.{PluginType, same_type}
use dqcsim_rs.Types.Gate.{vec_remove}
use dqcsim_rs.Host.Configuration.{PluginConfiguration, find_type, move_to_front, move_to_back}

-- The plugins of a type, and the others, in their order.
abbrev pub of_type : PluginType → List PluginConfiguration → List PluginConfiguration
of_type typ [] = []
of_type typ (p ∷ ps) = if same_type p.typ typ then p ∷ of_type typ ps else of_type typ ps

abbrev pub others : PluginType → List PluginConfiguration → List PluginConfiguration
others typ [] = []
others typ (p ∷ ps) = if same_type p.typ typ then others typ ps else p ∷ others typ ps

-- The one plugin of a type stands at an index.
pub record Located (typ : PluginType) (ps : List PluginConfiguration) (j : ℕ) : Type 0 where
  pub plugin : PluginConfiguration
  pub before : List PluginConfiguration
  pub behind : List PluginConfiguration
  pub split : ps ≡ before ++ plugin ∷ behind
  pub index : length before ≡ j
  pub alone : of_type typ ps ≡ plugin ∷ []
  pub rest : others typ ps ≡ before ++ behind

-- What the loop finds, by the plugins of the type: none, one at an index, or more.
abbrev pub Finds : PluginType → Text → ℕ → List PluginConfiguration → Outcome (Option ℕ) → Type 0
Finds typ duplicate i ps (ok none) = of_type typ ps ≡ []
Finds typ duplicate i ps (ok (some k)) = (j : ℕ) × (k ≡ i + j) × Located typ ps j
Finds typ duplicate i ps (err e) =
    (e ≡ ErrorKind.invalid_argument duplicate) × (2 ≤ length (of_type typ ps))
Finds typ duplicate i ps (fault p) = ⊥

-- The rest of the loop once one was found at `k`.
found_one :
    (typ : PluginType) (duplicate : Text) (i k : ℕ) (ps : List PluginConfiguration)
    → ((of_type typ ps ≡ [])
        × (others typ ps ≡ ps)
        × (find_type typ duplicate i (some k) ps ≡ ok (some k)))
      ⊎ ((1 ≤ length (of_type typ ps))
          × (find_type typ duplicate i (some k) ps ≡ inv_arg duplicate))
unfolding find_type
found_one typ duplicate i k [] = inl (refl, refl, refl)
found_one typ duplicate i k (p ∷ ps) = elim (Bool-cases (same_type p.typ typ)) [
  | inl e ↦ inr (rw (e, find_type) (omega arith, refl))
  | inr e ↦
      rw (e, find_type)
        (elim (found_one typ duplicate (i + 1) k ps) [
          | inl (a, b, c) ↦ inl (a, ap (λ qs. p ∷ qs) b, c)
          | inr (a, c) ↦ inr (a, c)
        ])
]

-- One more plugin of another type in front.
Located-cons :
    (typ : PluginType) (p : PluginConfiguration) (ps : List PluginConfiguration) (j : ℕ)
    → same_type p.typ typ ≡ false
    → Located typ ps j
    → Located typ (p ∷ ps) (suc j)
Located-cons typ p ps j e l = record {
  plugin = l.plugin;
  before = p ∷ l.before;
  behind = l.behind;
  split = ap (λ qs. p ∷ qs) l.split;
  index = ap suc l.index;
  alone = rw e l.alone;
  rest = rw e (ap (λ qs. p ∷ qs) l.rest);
}

Finds-cons :
    (typ : PluginType) (duplicate : Text) (i : ℕ) (p : PluginConfiguration)
    (ps : List PluginConfiguration) (r : Outcome (Option ℕ))
    → same_type p.typ typ ≡ false
    → Finds typ duplicate (i + 1) ps r
    → Finds typ duplicate i (p ∷ ps) r
Finds-cons typ duplicate i p ps (ok none) e f = rw e f
Finds-cons typ duplicate i p ps (ok (some k)) e (j, h, l) =
    (suc j, omega (arith, h), Located-cons typ p ps j e l)
Finds-cons typ duplicate i p ps (err x) e f = rw e f
Finds-cons typ duplicate i p ps (fault x) e f = f

pub find_type-Finds :
    (typ : PluginType) (duplicate : Text) (i : ℕ) (ps : List PluginConfiguration)
    → Finds typ duplicate i ps (find_type typ duplicate i none ps)
unfolding find_type
find_type-Finds typ duplicate i [] = refl
find_type-Finds typ duplicate i (p ∷ ps) = elim (Bool-cases (same_type p.typ typ)) [
  | inr e ↦
      rw (e, find_type)
        (Finds-cons typ duplicate i p ps _ e (find_type-Finds typ duplicate (i + 1) ps))
  | inl e ↦ elim (found_one typ duplicate (i + 1) i ps) [
    | inl (a, b, c) ↦
        rw (e, find_type, c)
          (
            0,
            omega arith,
            record {
              plugin = p;
              before = [];
              behind = ps;
              split = refl;
              index = refl;
              alone = rw (e, a) refl;
              rest = rw (e, b) refl;
            },
          )
    | inr (a, c) ↦ rw (e, find_type, c) (refl, rw e (omega (arith, a)))
  ]
]

-- Removing the item at its index.
vec_remove-append :
    (before behind : List PluginConfiguration) (p : PluginConfiguration)
    → vec_remove (before ++ p ∷ behind) (length before) ≡ ok (p, before ++ behind)
unfolding vec_remove
vec_remove-append [] behind p = refl
vec_remove-append (q ∷ before) behind p = rw (vec_remove-append before behind p) refl

-- The two moves, for an item between two lists.
pub move_to_front-append :
    (before behind : List PluginConfiguration) (p : PluginConfiguration)
    → move_to_front (length before) (before ++ p ∷ behind) ≡ ok (p ∷ before ++ behind)
unfolding move_to_front
move_to_front-append [] behind p = refl
move_to_front-append (q ∷ before) behind p =
    ap (λ r. and_then r (λ x. ok (x.0 ∷ x.1))) (vec_remove-append (q ∷ before) behind p)

pub move_to_back-append :
    (before behind : List PluginConfiguration) (p : PluginConfiguration)
    → move_to_back (length before) (before ++ p ∷ behind) ≡ ok ((before ++ behind) ++ p ∷ [])
unfolding move_to_back
move_to_back-append before [] p =
    let e : (length before == length (before ++ p ∷ []) - 1) ≡ true =
      ground (arith, length-append before (p ∷ [])) in
    rw (e, append-nil before) refl
move_to_back-append before (q ∷ behind) p =
    let e : (length before == length (before ++ p ∷ q ∷ behind) - 1) ≡ false =
      ground (arith, length-append before (p ∷ q ∷ behind)) in
    rw (e, vec_remove-append before (q ∷ behind) p) refl
