-- ===== src/Util/Parse.antt =====
-- When `friendly_enum_parse` accepts a text.
use dqcsim_rs.Common.{
  ℕ, ◌≡◌, ◌↔◌, refl, true, false, Bool-cases, List, [], ◌∷◌, ◌++◌, map, All, ok, inl, inr,
}
use dqcsim_rs.Util.{to_ascii_lowercase, starts_with, find_matches, pick_match, friendly_enum_parse}

module _ {E : Type 0} where
  -- The name of the variant, in lower case, starts with the text.
  abbrev pub IsMatch : List ℕ → List ℕ × E → Type 0
  IsMatch s x = starts_with (map to_ascii_lowercase x.0) s ≡ true

  abbrev pub NoMatch : List ℕ → List (List ℕ × E) → Type 0
  NoMatch s = All (λ x. starts_with (map to_ascii_lowercase x.0) s ≡ false)

  -- One variant matches, and none before or behind it does.
  pub record OnlyMatch (s : List ℕ) (vars : List (List ℕ × E)) (v : E) : Type 0 where
    pub before : List (List ℕ × E)
    pub name : List ℕ
    pub behind : List (List ℕ × E)
    pub split : vars ≡ before ++ ((name, v) ∷ behind)
    pub matched : IsMatch s (name, v)
    pub none_before : NoMatch s before
    pub none_behind : NoMatch s behind

  find_matches-NoMatch :
      (s : List ℕ) (vars : List (List ℕ × E)) → NoMatch s vars → find_matches s vars ≡ []
  unfolding find_matches
  find_matches-NoMatch s [] h = refl
  find_matches-NoMatch s (x ∷ vars) h = rw (h.0) (find_matches-NoMatch s vars h.1)

  NoMatch-find_matches :
      (s : List ℕ) (vars : List (List ℕ × E)) → find_matches s vars ≡ [] → NoMatch s vars
  unfolding find_matches
  NoMatch-find_matches s [] e = tt
  NoMatch-find_matches s (x ∷ vars) e =
      elim (Bool-cases (starts_with (map to_ascii_lowercase x.0) s)) [
        | inl b ↦ absurd (cc (rw b at e))
        | inr b ↦ (b, NoMatch-find_matches s vars (rw b at e))
      ]

  find_matches-only :
      (s name : List ℕ) (v : E) (before behind : List (List ℕ × E))
      → NoMatch s before
      → IsMatch s (name, v)
      → NoMatch s behind
      → find_matches s (before ++ ((name, v) ∷ behind)) ≡ (map to_ascii_lowercase name, v) ∷ []
  unfolding find_matches
  find_matches-only s name v [] behind h m k = rw (m, find_matches-NoMatch s behind k)
  find_matches-only s name v (x ∷ before) behind h m k =
      rw (h.0) (find_matches-only s name v before behind h.1 m k)

  OnlyMatch-find_matches :
      (s n : List ℕ) (v : E) (vars : List (List ℕ × E))
      → find_matches s vars ≡ (n, v) ∷ []
      → OnlyMatch s vars v
  unfolding find_matches
  OnlyMatch-find_matches s n v [] e = absurd (cc e)
  OnlyMatch-find_matches s n v ((name, w) ∷ vars) e =
      elim (Bool-cases (starts_with (map to_ascii_lowercase name) s)) [
        | inl b ↦
            let e' : ((map to_ascii_lowercase name, w) ∷ find_matches s vars) ≡ (n, v) ∷ [] =
              rw b at e in
            record {
              before = [];
              name = name;
              behind = vars;
              split = cc e';
              matched = b;
              none_before = tt;
              none_behind = NoMatch-find_matches s vars (cc e');
            }
        | inr b ↦
            let o = OnlyMatch-find_matches s n v vars (rw b at e) in
            record {
              before = (name, w) ∷ o.before;
              name = o.name;
              behind = o.behind;
              split = cc (o.split);
              matched = o.matched;
              none_before = (b, o.none_before);
              none_behind = o.none_behind;
            }
      ]

  pick_match-eq-ok :
      (typ s : List ℕ) (vars found : List (List ℕ × E)) (v : E)
      → pick_match typ s vars found ≡ ok v
      → (n : List ℕ) × (found ≡ (n, v) ∷ [])
  unfolding pick_match
  pick_match-eq-ok typ s vars [] v e = absurd (cc e)
  pick_match-eq-ok typ s vars ((n, w) ∷ []) v e = (n, cc e)
  pick_match-eq-ok typ s vars (m ∷ n ∷ found) v e = absurd (cc e)

  pick_match-single :
      (typ s : List ℕ) (vars found : List (List ℕ × E)) (n : List ℕ) (v : E)
      → found ≡ (n, v) ∷ []
      → pick_match typ s vars found ≡ ok v
  unfolding pick_match
  pick_match-single typ s vars found n v e = rw e

  -- A text is parsed as a variant exactly if it is, whatever its case, the start of the name of that
  -- variant and of no other in the list.
  pub friendly_enum_parse_iff :
      (typ s : List ℕ) (vars : List (List ℕ × E)) (v : E)
      → (friendly_enum_parse typ vars s ≡ ok v) ↔ OnlyMatch (map to_ascii_lowercase s) vars v
  unfolding friendly_enum_parse
  friendly_enum_parse_iff typ s vars v = (parsed, parses)
    where
      parsed : friendly_enum_parse typ vars s ≡ ok v → OnlyMatch (map to_ascii_lowercase s) vars v
      parsed e =
          let (n, found) = pick_match-eq-ok typ (map to_ascii_lowercase s) vars _ v e in
          OnlyMatch-find_matches (map to_ascii_lowercase s) n v vars found

      parses : OnlyMatch (map to_ascii_lowercase s) vars v → friendly_enum_parse typ vars s ≡ ok v
      parses o =
          let found : find_matches (map to_ascii_lowercase s) vars
              ≡ (map to_ascii_lowercase o.name, v) ∷ [] =
            rw (o.split) (
              find_matches-only (map to_ascii_lowercase s) o.name v o.before o.behind o.none_before
                o.matched o.none_behind) in
          pick_match-single typ (map to_ascii_lowercase s) vars _ (map to_ascii_lowercase o.name) v
            found
