-- ===== src/Util.antt =====
-- `rust/src/core/common/util.rs`: texts for the user, and the parser of the names of an enumeration. A
-- text is the list of its characters, as code points.
pub mod Parse
use dqcsim_rs.Common.{
  ℕ, ◌+◌, ◌-◌, Bool, true, false, ◌&&◌, ◌||◌, not, leb, ◌==◌, if◌then◌else◌, Option, none, some,
  List, [], ◌∷◌, ◌++◌, map, is_empty, Outcome, ok, inv_arg, chars, lit, Text,
}

unfoldable pub is_ascii_uppercase : ℕ → Bool
is_ascii_uppercase c = leb b'A' c && leb c b'Z'

unfoldable pub to_ascii_lowercase : ℕ → ℕ
unfolding is_ascii_uppercase
to_ascii_lowercase c = if is_ascii_uppercase c then c + 32 else c

unfoldable pub to_ascii_uppercase : ℕ → ℕ
to_ascii_uppercase c = if leb b'a' c && leb c b'z' then c - 32 else c

-- `starts_with`.
unfoldable pub starts_with : List ℕ → List ℕ → Bool
starts_with s [] = true
starts_with [] (c ∷ prefix) = false
starts_with (d ∷ s) (c ∷ prefix) = let rest = starts_with s prefix in if d == c then rest else false

-- The last character of the output, which is kept in reverse, in upper case.
unfoldable pub raise_last : List ℕ → List ℕ
unfolding to_ascii_uppercase
raise_last [] = []
raise_last (c ∷ output) = to_ascii_uppercase c ∷ output

-- A space, unless the output is empty or ends in one.
unfoldable pub space_before : List ℕ → List ℕ
space_before [] = []
space_before (c ∷ output) = if c == b' ' then c ∷ output else b' ' ∷ c ∷ output

-- The loop of `friendly_name`; `output` is in reverse.
unfoldable pub friendly_loop : List ℕ → Bool → Bool → List ℕ → List ℕ
unfolding is_ascii_uppercase to_ascii_lowercase to_ascii_uppercase raise_last space_before
friendly_loop [] prev_upper abbreviation output = output
friendly_loop (c ∷ name) prev_upper abbreviation output =
    let upper = is_ascii_uppercase c in
    let pushed = if upper && prev_upper then raise_last output else output in
    let abbreviated = (upper && prev_upper || abbreviation) && upper in
    friendly_loop name upper abbreviated (
      if abbreviated
      then to_ascii_uppercase c ∷ pushed
      else if upper
      then to_ascii_lowercase c ∷ space_before pushed
      else if c == b'_'
      then b' ' ∷ pushed
      else c ∷ pushed)

unfoldable pub reversed : List ℕ → List ℕ → List ℕ
reversed [] acc = acc
reversed (c ∷ s) acc = reversed s (c ∷ acc)

unfoldable pub friendly_name : List ℕ → List ℕ
unfolding friendly_loop reversed
friendly_name name = reversed (friendly_loop name false false []) []

-- The loop of `friendly_enumerate` over the items behind the first; `conjunction` ends in a space if
-- there is one.
unfoldable pub enumerate_loop : List (List ℕ) → List ℕ → Bool → List ℕ → List ℕ
enumerate_loop [] conjunction first s = s
enumerate_loop (c ∷ []) conjunction first s =
    s
    ++ ((if first && not (is_empty conjunction) then b' ' ∷ [] else b',' ∷ b' ' ∷ [])
        ++ (conjunction ++ c))
enumerate_loop (c ∷ d ∷ items) conjunction first s =
    enumerate_loop (d ∷ items) conjunction false (s ++ (b',' ∷ b' ' ∷ c))

abbrev nothing : List ℕ
nothing = b'<' ∷ b'n' ∷ b'o' ∷ b't' ∷ b'h' ∷ b'i' ∷ b'n' ∷ b'g' ∷ b'>' ∷ []

abbrev with_space : Option (List ℕ) → List ℕ
with_space none = []
with_space (some c) = c ++ b' ' ∷ []

unfoldable pub friendly_enumerate : List (List ℕ) → Option (List ℕ) → List ℕ
unfolding enumerate_loop
friendly_enumerate [] conjunction = nothing
friendly_enumerate (x ∷ items) conjunction = enumerate_loop items (with_space conjunction) true x

abbrev disjunction : Option (List ℕ)
disjunction = some (b'o' ∷ b'r' ∷ [])

module _ {E : Type 0} where
  -- The variants whose name, in lower case, starts with the text.
  unfoldable pub find_matches : List ℕ → List (List ℕ × E) → List (List ℕ × E)
  unfolding to_ascii_lowercase starts_with
  find_matches s [] = []
  find_matches s ((name, var) ∷ vars) =
      let rest = find_matches s vars in
      let lower = map to_ascii_lowercase name in
      if starts_with lower s then (lower, var) ∷ rest else rest

  unfoldable pub names_of : List (List ℕ × E) → List (List ℕ)
  names_of [] = []
  names_of ((name, var) ∷ vars) = map to_ascii_lowercase name ∷ names_of vars

  -- One match is expected; `typ` is the name of the enumeration.
  unfoldable pub pick_match : List ℕ → List ℕ → List (List ℕ × E) → List (List ℕ × E) → Outcome E
  unfolding names_of to_ascii_lowercase friendly_name friendly_enumerate
  pick_match typ s vars [] = inv_arg (
      chars s
      ∷ lit " is not a valid "
      ∷ chars (friendly_name typ)
      ∷ lit ", valid values are "
      ∷ chars (friendly_enumerate (names_of vars) disjunction)
      ∷ [])
  pick_match typ s vars ((name, var) ∷ []) = ok var
  pick_match typ s vars (m ∷ n ∷ matches) = inv_arg (
      chars s
      ∷ lit " is an ambiguous "
      ∷ chars (friendly_name typ)
      ∷ lit ", it could mean either "
      ∷ chars (friendly_enumerate (names_of (m ∷ n ∷ matches)) disjunction)
      ∷ [])

  -- `friendly_enum_parse`, over the variants with their names.
  unfoldable pub friendly_enum_parse : List ℕ → List (List ℕ × E) → List ℕ → Outcome E
  unfolding find_matches pick_match to_ascii_lowercase
  friendly_enum_parse typ vars s =
      let lower = map to_ascii_lowercase s in pick_match typ lower vars (find_matches lower vars)
