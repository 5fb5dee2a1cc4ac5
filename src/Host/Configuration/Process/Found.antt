-- ===== src/Host/Configuration/Process/Found.antt =====
-- What the search for the executable of a plugin finds.
use Prim.Native.String.{◌++◌ as append}
use dqcsim_rs.Common.{
  true, Bool-cases, inl, inr, ◌≡◌, refl, subst, if◌then◌else◌, String, Option, none, some, List, [],
  ◌∷◌, ◌++◌, map, Outcome, ok, ok_or, ok_or-eq-ok, and_then-eq-ok,
}
use dqcsim_rs.Types.{PluginType}
use dqcsim_rs.Host.Configuration.Process.{FileSystem, PluginProcessSpecification}
use dqcsim_rs.Host.Configuration.Process.Sugar.{
  prefix, not_found, search_path, on_path, beside_binary, locate, desugar, of_file, from_sugar,
}

module _ (fs : FileSystem) where
  -- Where an executable is looked for, in this order.
  abbrev pub beside : Option (Option String) → String → List String
  beside none executable = []
  beside (some none) executable = []
  beside (some (some dir)) executable = fs.push dir executable ∷ []

  abbrev pub folders : Option (List String) → List String
  folders none = []
  folders (some bases) = bases

  abbrev pub candidates : String → List String
  candidates executable =
      executable
      ∷ (beside fs.exe_parent executable
          ++ map (λ base. fs.push base executable) (folders fs.sys_path))

  abbrev pub first_existing : List String → Option String
  first_existing [] = none
  first_existing (p ∷ ps) = if fs.exists p then some p else first_existing ps

  search_path_lem :
      (executable : String) (bases : List String)
      → search_path fs executable bases
        ≡ first_existing (map (λ base. fs.push base executable) bases)
  unfolding search_path
  search_path_lem executable [] = refl
  search_path_lem executable (base ∷ bases) = rw (search_path_lem executable bases)

  on_path_lem :
      (executable sugared : String) (path : Option (List String))
      → on_path fs executable sugared path
        ≡ ok_or
            (first_existing (map (λ base. fs.push base executable) (folders path)))
            (not_found executable sugared)
  unfolding on_path
  on_path_lem executable sugared none = refl
  on_path_lem executable sugared (some bases) = rw (search_path_lem executable bases)

  -- Unless the executable of the program has no parent folder, the search finds the first candidate that
  -- exists.
  pub locate_lem :
      (executable sugared : String)
      → ¬ (fs.exe_parent ≡ some none)
      → locate fs executable sugared
        ≡ ok_or (first_existing (candidates executable)) (not_found executable sugared)
  unfolding locate beside_binary
  locate_lem executable sugared h = elim (Bool-cases (fs.exists executable)) [
    | inl e ↦ rw e
    | inr e ↦ rw e (go fs.exe_parent h)
  ]
    where
      go :
          (parent : Option (Option String))
          → ¬ (parent ≡ some none)
          → beside_binary fs executable sugared parent
            ≡ ok_or
                (first_existing (
                  beside parent executable
                  ++ map (λ base. fs.push base executable) (folders fs.sys_path)))
                (not_found executable sugared)
      go none h = on_path_lem executable sugared fs.sys_path
      go (some none) h = absurd (h refl)
      go (some (some dir)) h = elim (Bool-cases (fs.exists (fs.push dir executable))) [
        | inl e ↦ rw e
        | inr e ↦ rw e (on_path_lem executable sugared fs.sys_path)
      ]

  first_existing_exists :
      (ps : List String) (p : String) → first_existing ps ≡ some p → fs.exists p ≡ true
  first_existing_exists [] p h = absurd (cc h)
  first_existing_exists (q ∷ ps) p h = elim (Bool-cases (fs.exists q)) [
    | inl e ↦
        let h' : some q ≡ some p = rw e at h in
        let q_eq : q ≡ p = cc h' in subst (λ x. fs.exists x ≡ true) q_eq e
    | inr e ↦ first_existing_exists ps p (rw e at h)
  ]

  -- The type is kept, the executable exists, and there is a script exactly where the text is the path of a
  -- file with an extension: then the text is the script.
  pub record IsDesugared (specification : String) (typ : PluginType)
      (r : PluginProcessSpecification) : Type 0 where
    pub same_typ : r.typ ≡ typ
    pub executable_exists : fs.exists r.executable ≡ true
    pub script_of : r.script ≡ (
        if fs.exists specification
        then elim (fs.extension specification) [ none ↦ none | some _ ↦ some specification ]
        else none)

  on_path_exists :
      (executable sugared p : String)
      → on_path fs executable sugared fs.sys_path ≡ ok p
      → fs.exists p ≡ true
  on_path_exists executable sugared p h =
      first_existing_exists (map (λ base. fs.push base executable) (folders fs.sys_path)) p
        (ok_or-eq-ok _ _ (rw (on_path_lem executable sugared fs.sys_path) at h))

  locate_exists :
      (executable sugared p : String) → locate fs executable sugared ≡ ok p → fs.exists p ≡ true
  unfolding locate beside_binary
  locate_exists executable sugared p h = elim (Bool-cases (fs.exists executable)) [
    | inl e ↦
        let h' : Path (Outcome String) (ok executable) (ok p) = rw e at h in
        let same : executable ≡ p = cc h' in subst (λ x. fs.exists x ≡ true) same e
    | inr e ↦ go fs.exe_parent (rw e at h)
  ]
    where
      go :
          (parent : Option (Option String))
          → beside_binary fs executable sugared parent ≡ ok p
          → fs.exists p ≡ true
      go none h = on_path_exists executable sugared p h
      go (some none) h = absurd (cc h)
      go (some (some dir)) h = elim (Bool-cases (fs.exists (fs.push dir executable))) [
        | inl e ↦
            let h' : Path (Outcome String) (ok (fs.push dir executable)) (ok p) = rw e at h in
            let same : fs.push dir executable ≡ p = cc h' in subst (λ x. fs.exists x ≡ true) same e
        | inr e ↦ on_path_exists executable sugared p (rw e at h)
      ]

  desugar_cases :
      (x : String) (script : Option String) (typ : PluginType) (sugared : String)
      (r : PluginProcessSpecification)
      → desugar fs x script typ sugared ≡ ok r
      → (r.typ ≡ typ) × (fs.exists r.executable ≡ true) × (r.script ≡ script)
  unfolding desugar
  desugar_cases x script typ sugared r h =
      let (found, q, k) = and_then-eq-ok (locate fs (append (prefix typ) x) sugared) _ h in
      (
        cc k,
        subst (λ y. fs.exists y ≡ true) (cc k)
            (locate_exists (append (prefix typ) x) sugared found q),
        cc k,
      )

  -- Where the search for a plugin succeeds, the executable that it names exists, the type is the one asked
  -- for, and there is a script exactly where the text is the path of a file with an extension: that file.
  pub from_sugar-IsDesugared :
      (specification : String) (typ : PluginType) (r : PluginProcessSpecification)
      → from_sugar fs specification typ ≡ ok r
      → IsDesugared specification typ r
  unfolding from_sugar of_file
  from_sugar-IsDesugared specification typ r h = elim (Bool-cases (fs.exists specification)) [
    | inl e ↦ file e (fs.extension specification) refl (rw e at h)
    | inr e ↦ elim (Bool-cases (fs.contains_slash specification)) [
      | inl s ↦ absurd (cc (rw (e, s) at h))
      | inr s ↦
          let (t, x, k) = desugar_cases specification none typ specification r (rw (e, s) at h) in
          record { same_typ = t; executable_exists = x; script_of = rw e k }
    ]
  ]
    where
      file :
          fs.exists specification ≡ true
          → (ext : Option String) → fs.extension specification ≡ ext
          → of_file fs specification typ ext ≡ ok r
          → IsDesugared specification typ r
      file e none q h = record {
        same_typ = cc h;
        executable_exists = subst (λ y. fs.exists y ≡ true) (cc h) e;
        script_of = rw (e, q) (cc h);
      }
      file e (some ext) q h =
          let (t, x, k) = desugar_cases ext (some specification) typ specification r h in
          record { same_typ = t; executable_exists = x; script_of = rw (e, q) k }
