-- ===== src/Host/Configuration/Names.antt =====
-- The names of the plugins after the check of the plugin list.
use text.Mathlib.Text.{◌==◌ as str_eq}
use dqcsim_rs.Common.{
  ℕ, subst, ◌⊎◌, inv_arg, lit, ◌+◌, Bool, true, false, ◌≡◌, refl, sym, ◌∙◌, String, List, [], ◌∷◌,
  map, Outcome, ok, err, fault, ok-injective, guard-eq-ok, and_then-eq-ok, arith, All, All-imp,
  Bool-cases, inl, inr, ◌||◌, if◌then◌else◌,
}
use dqcsim_rs.Host.Configuration.{PluginConfiguration, default_name, named, has_name, name_plugins}

-- No two plugins have the same name.
abbrev pub DistinctNames : List PluginConfiguration → Type 0
DistinctNames [] = Unit
DistinctNames (p ∷ ps) = All (λ q. str_eq p.name q.name ≡ false) ps × DistinctNames ps

-- What naming the plugins gives, if it succeeds: the names are new and distinct, and the types are kept.
abbrev pub IsNamed : List String → List PluginConfiguration → List PluginConfiguration → Type 0
IsNamed names ps qs =
    All (λ q. has_name names q.name ≡ false) qs
    × DistinctNames qs
    × (map (λ q. q.typ) qs ≡ map (λ p. p.typ) ps)

named-typ : (i : ℕ) (p : PluginConfiguration) → (named i p).typ ≡ p.typ
unfolding named
named-typ i p = go (str_eq p.name "")
  where
    go : (b : Bool) → (if b then record p { name = default_name i p.typ } else p).typ ≡ p.typ
    go true = refl
    go false = refl

or-false : (a b : Bool) → (a || b) ≡ false → (a ≡ false) × (b ≡ false)
or-false a b h = (ground (arith, h), ground (arith, h))

-- The name of the plugin in front is set apart from the names behind it.
cons-IsNamed :
    (i : ℕ) (names : List String) (p : PluginConfiguration) (ps qs : List PluginConfiguration)
    → has_name names (named i p).name ≡ false
    → IsNamed ((named i p).name ∷ names) ps qs
    → IsNamed names (p ∷ ps) (named i p ∷ qs)
unfolding has_name
cons-IsNamed i names p ps qs h (a, b, c) = (
  (
    h,
    All-imp _ _ (λ q e. (or-false (str_eq (named i p).name q.name) (has_name names q.name) e).1) qs
        a,
  ),
  (
    All-imp _ _ (λ q e. (or-false (str_eq (named i p).name q.name) (has_name names q.name) e).0) qs
        a,
    b,
  ),
  rw (named-typ i p, c) refl,
)

-- If naming the plugins succeeds then no two of them have the same name, none has one of the names that
-- were taken before, and the types are the same in the same order.
pub name_plugins-IsNamed :
    (i : ℕ) (names : List String) (ps qs : List PluginConfiguration)
    → name_plugins i names ps ≡ ok qs
    → IsNamed names ps qs
unfolding name_plugins
name_plugins-IsNamed i names [] qs h =
    let e : Path (List PluginConfiguration) [] qs = cc h in
    subst (λ x. IsNamed names [] x) e (tt, tt, refl)
name_plugins-IsNamed i names (p ∷ ps) qs h =
    go (Bool-cases (has_name names (named i p).name))
      (name_plugins (i + 1) ((named i p).name ∷ names) ps) refl
      (name_plugins-IsNamed (i + 1) ((named i p).name ∷ names) ps)
  where
    go :
        (has_name names (named i p).name ≡ true) ⊎ (has_name names (named i p).name ≡ false)
        → (r : Outcome (List PluginConfiguration))
        → name_plugins (i + 1) ((named i p).name ∷ names) ps ≡ r
        → ((qs' : List PluginConfiguration)
            → name_plugins (i + 1) ((named i p).name ∷ names) ps ≡ ok qs'
            → IsNamed ((named i p).name ∷ names) ps qs')
        → IsNamed names (p ∷ ps) qs
    go (inl t) r e ih =
        let k : name_plugins i names (p ∷ ps)
            ≡ inv_arg (lit "duplicate plugin name '" ∷ lit (named i p).name ∷ lit "'" ∷ []) =
          rw (t, name_plugins) refl in
        absurd (cc (sym k ∙ h))
    go (inr f) (ok qs') e ih =
        let k : name_plugins i names (p ∷ ps) ≡ ok (named i p ∷ qs') =
          rw (f, e, name_plugins) refl in
        let same : named i p ∷ qs' ≡ qs = cc (sym k ∙ h) in
        subst (λ x. IsNamed names (p ∷ ps) x) same (cons-IsNamed i names p ps qs' f (ih qs' e))
    go (inr f) (err x) e ih =
        let k : name_plugins i names (p ∷ ps) ≡ err x = rw (f, e, name_plugins) refl in
        absurd (cc (sym k ∙ h))
    go (inr f) (fault x) e ih =
        let k : name_plugins i names (p ∷ ps) ≡ fault x = rw (f, e, name_plugins) refl in
        absurd (cc (sym k ∙ h))

-- The plugins in their order, with names for those without.
abbrev pub AreNamed : List PluginConfiguration → List PluginConfiguration → Type 0
AreNamed [] [] = Unit
AreNamed (p ∷ ps) [] = ⊥
AreNamed [] (q ∷ qs) = ⊥
AreNamed (p ∷ ps) (q ∷ qs) =
    (str_eq p.name "" ≡ false → q.name ≡ p.name)
    × (q.typ ≡ p.typ)
    × (q.verbosity ≡ p.verbosity)
    × AreNamed ps qs

named-kept :
    (i : ℕ) (p : PluginConfiguration)
    → (str_eq p.name "" ≡ false → (named i p).name ≡ p.name)
      × ((named i p).typ ≡ p.typ)
      × ((named i p).verbosity ≡ p.verbosity)
unfolding named
named-kept i p = elim (Bool-cases (str_eq p.name "")) [
  | inl e ↦ rw e (λ f. absurd (cc f), refl, refl)
  | inr e ↦ rw e (λ f. refl, refl, refl)
]

pub name_plugins-AreNamed :
    (i : ℕ) (names : List String) (ps qs : List PluginConfiguration)
    → name_plugins i names ps ≡ ok qs
    → AreNamed ps qs
unfolding name_plugins
name_plugins-AreNamed i names [] qs h = subst (AreNamed []) (ok-injective h) tt
name_plugins-AreNamed i names (p ∷ ps) qs h =
    let (fresh, h') = guard-eq-ok (has_name names (named i p).name) _ _ h in
    let (rest, e, k) = and_then-eq-ok (name_plugins (i + 1) ((named i p).name ∷ names) ps) _ h' in
    let (a, b, c) = named-kept i p in
    subst (AreNamed (p ∷ ps)) (ok-injective k) (a, b, c, name_plugins-AreNamed (i + 1) _ ps rest e)
