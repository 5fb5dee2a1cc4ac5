-- ===== src/Host/Reproduction/Modify.antt =====
-- What the modifications of a reproduction change.
use text.Mathlib.Text.{◌==◌ as str_eq}
use dqcsim_rs.Common.{
  true, false, Bool-cases, inl, inr, ◌≡◌, refl, sym, ◌∙◌, ap, ◌↔◌, Option, none, some, List, [],
  ◌∷◌, ◌++◌, All, ok, Text, ok_or, ok_or-eq-ok,
}
use dqcsim_rs.Host.Configuration.Process.{PluginProcessConfiguration}
use dqcsim_rs.Host.Reproduction.{PluginModification, modified, apply_loop, apply}

-- The plugins before and after: the first one of the name has its nonfunctional configuration changed.
pub record OneModified (m : PluginModification) (ps qs : List PluginProcessConfiguration)
    : Type 0 where
  pub before : List PluginProcessConfiguration
  pub plugin : PluginProcessConfiguration
  pub behind : List PluginProcessConfiguration
  pub split : ps ≡ before ++ plugin ∷ behind
  pub named : str_eq plugin.name m.name ≡ true
  pub others : All (λ p. str_eq p.name m.name ≡ false) before
  pub after :
      qs ≡ before ++ record plugin { nonfunctional = modified m plugin.nonfunctional } ∷ behind

abbrev pub applied : PluginModification → PluginProcessConfiguration → PluginProcessConfiguration
applied m p = record p { nonfunctional = modified m p.nonfunctional }

OneModified-apply_loop :
    (m : PluginModification) (ps qs : List PluginProcessConfiguration)
    → apply_loop m ps ≡ some qs
    → OneModified m ps qs
unfolding apply_loop
OneModified-apply_loop m [] qs h = absurd (cc h)
OneModified-apply_loop m (p ∷ ps) qs h = elim (Bool-cases (str_eq p.name m.name)) [
  | inl e ↦ record {
    before = [];
    plugin = p;
    behind = ps;
    split = refl;
    named = e;
    others = tt;
    after = sym (cc (rw e at h));
  }
  | inr e ↦ go e (λ rs k. OneModified-apply_loop m ps rs k) (apply_loop m ps) refl (rw e at h)
]
  where
    go :
        str_eq p.name m.name ≡ false
        → ((rs : List PluginProcessConfiguration) → apply_loop m ps ≡ some rs → OneModified m ps rs)
        → (rest : Option (List PluginProcessConfiguration)) → apply_loop m ps ≡ rest
        → elim rest as (λ _. Option (List PluginProcessConfiguration)) [
          | none ↦ none
          | some rs ↦ some (p ∷ rs)
        ]
          ≡ some qs
        → OneModified m (p ∷ ps) qs
    go e ih none k h = absurd (cc h)
    go e ih (some rs) k h =
        let o = ih rs k in
        let q : p ∷ rs ≡ qs = cc h in
        record {
          before = p ∷ o.before;
          plugin = o.plugin;
          behind = o.behind;
          split = ap (λ (x : List PluginProcessConfiguration). p ∷ x) o.split;
          named = o.named;
          others = (e, o.others);
          after = sym q ∙ ap (λ (x : List PluginProcessConfiguration). p ∷ x) o.after;
        }

apply_loop-found :
    (m : PluginModification) (p : PluginProcessConfiguration)
    (before behind : List PluginProcessConfiguration)
    → str_eq p.name m.name ≡ true
    → All (λ p. str_eq p.name m.name ≡ false) before
    → apply_loop m (before ++ p ∷ behind) ≡ some (before ++ applied m p ∷ behind)
unfolding apply_loop
apply_loop-found m p [] behind e h = rw e
apply_loop-found m p (q ∷ before) behind e h = rw (h.0, apply_loop-found m p before behind e h.1)

ok_or-some : {A : Type 0} (o : Option A) (e : Text) (a : A) → o ≡ some a → ok_or o e ≡ ok a
ok_or-some o e a h = rw h

OneModified-found :
    (m : PluginModification) (ps qs : List PluginProcessConfiguration)
    → OneModified m ps qs
    → apply_loop m ps ≡ some qs
OneModified-found m ps qs o =
    ap (apply_loop m) o.split
    ∙ apply_loop-found m o.plugin o.before o.behind o.named o.others
    ∙ ap (λ (x : List PluginProcessConfiguration). some x) (sym o.after)

-- A modification succeeds exactly if there is a plugin of its name, and changes the nonfunctional
-- configuration of the first such plugin and nothing else.
pub apply_iff :
    (m : PluginModification) (ps qs : List PluginProcessConfiguration)
    → (apply m ps ≡ ok qs) ↔ OneModified m ps qs
unfolding apply
apply_iff m ps qs = (
  λ h. OneModified-apply_loop m ps qs (ok_or-eq-ok _ _ h),
  λ o. ok_or-some _ _ qs (OneModified-found m ps qs o),
)
