-- ===== src/Host/Configuration/Timeout.antt =====
-- `rust/src/core/host/configuration/timeout.rs`: timeouts and their parser. A text is the list of its
-- characters, as code points, and a duration is a number of nanoseconds. The predicates on Unicode
-- characters and the parser of floats are arguments; the latter yields the nanoseconds of a number that
-- is not negative.
pub mod Laws
pub mod Amounts
use dqcsim_rs.Common.{
  ℕ, zero, suc, ◌+◌, ◌-◌, ◌*◌, ◌^◌, Bool, true, false, ◌&&◌, ◌||◌, not, leb, ◌==◌, if◌then◌else◌,
  Option, none, some, List, [], ◌∷◌, ◌++◌, map, is_empty, Outcome, ok, err, fault, panicked,
  inv_arg, and_then, say, lit, chars,
}
use dqcsim_rs.Util.{to_ascii_lowercase, starts_with}

pub data Timeout : Type 0 where
  duration : ℕ → Timeout
  infinite : Timeout

unfoldable pub from_seconds : ℕ → Timeout
from_seconds seconds = duration (seconds * 1_000_000_000)

unfoldable pub from_millis : ℕ → Timeout
from_millis millis = duration (millis * 1_000_000)

-- `Into<Option<Duration>>`.
unfoldable pub into_option : Timeout → Option ℕ
into_option (duration d) = some d
into_option infinite = none

-- `parse::<u64>()` of letters and digits: decimal digits only, at least one, and below 2 ^ 64.
unfoldable pub parse_digits : List ℕ → ℕ → Option ℕ
parse_digits [] value = some value
parse_digits (c ∷ num) value =
    let rest = parse_digits num (value * 10 + (c - b'0')) in
    if not (leb b'0' c && leb c b'9')
    then none
    else if leb (2 ^ 64) (value * 10 + (c - b'0'))
    then none
    else rest

unfoldable pub parse_u64 : List ℕ → Option ℕ
unfolding parse_digits
parse_u64 [] = none
parse_u64 (c ∷ num) = parse_digits (c ∷ num) 0

-- The equality of texts.
unfoldable pub same_text : List ℕ → List ℕ → Bool
same_text [] [] = true
same_text [] (d ∷ t) = false
same_text (c ∷ s) [] = false
same_text (c ∷ s) (d ∷ t) = let rest = same_text s t in if c == d then rest else false

-- The nanoseconds of a unit.
unfoldable pub unit_nanos : List ℕ → Option ℕ
unfolding same_text
unit_nanos unit =
    if same_text unit (b'h' ∷ [])
    then some 3_600_000_000_000
    else if same_text unit (b'm' ∷ [])
    then some 60_000_000_000
    else if same_text unit (b's' ∷ [])
    then some 1_000_000_000
    else if same_text unit (b'm' ∷ b's' ∷ [])
    then some 1_000_000
    else if same_text unit (b'u' ∷ b's' ∷ [])
    then some 1_000
    else if same_text unit (b'n' ∷ b's' ∷ [])
    then some 1
    else none

-- `Duration::from_nanos(t * unit)`; a product above 64 bits panics, as in a debug build.
unfoldable pub scaled : ℕ → List ℕ → Option ℕ → Outcome ℕ
scaled t unit none =
    inv_arg (lit "failed to parse timeout parameter: unknown time unit " ∷ chars unit ∷ [])
scaled t unit (some nanos) = if leb (2 ^ 64) (t * nanos) then fault panicked else ok (t * nanos)

unfoldable pub component : Option ℕ → List ℕ → Outcome ℕ
unfolding scaled
component none unit = inv_arg (say "failed to parse timeout parameter")
component (some t) unit = scaled t unit (unit_nanos unit)

unfoldable pub duration_from_component : List ℕ → List ℕ → Outcome ℕ
unfolding component
duration_from_component num unit = component (parse_u64 num) unit

-- "infinite" and "infinity".
abbrev pub infinite_text : List ℕ
infinite_text = b'i' ∷ b'n' ∷ b'f' ∷ b'i' ∷ b'n' ∷ b'i' ∷ b't' ∷ b'e' ∷ []

abbrev pub infinity_text : List ℕ
infinity_text = b'i' ∷ b'n' ∷ b'f' ∷ b'i' ∷ b'n' ∷ b'i' ∷ b't' ∷ b'y' ∷ []

abbrev unparsable {ℓ} : {A : Type ℓ} → Outcome A
unparsable = inv_arg (say "failed to parse timeout parameter")

module _ (is_numeric is_alphabetic : ℕ → Bool) where
  -- The loop of `from_str`. `num` and `unit` are the slices from `num_start` and from `unit_start` up to
  -- the current character, so that the positions are equal where a slice is empty.
  unfoldable pub components : List ℕ → Bool → List ℕ → List ℕ → ℕ → Outcome ℕ
  components [] true num unit total = unparsable
  components [] false num unit total =
      and_then (duration_from_component num unit) (λ d. ok (total + d))
  components (c ∷ s) true num unit total =
      let more = components s true (num ++ c ∷ []) unit total in
      let starts = components s false num (c ∷ []) total in
      if not (is_numeric c) && not (is_alphabetic c)
      then unparsable
      else if is_numeric c
      then more
      else starts
  components (c ∷ s) false num unit total =
      let next = λ (d : ℕ). components s true (c ∷ []) [] (total + d) in
      let more = components s false num (unit ++ c ∷ []) total in
      if not (is_numeric c) && not (is_alphabetic c)
      then unparsable
      else if is_numeric c
      then (if is_empty num || is_empty unit
          then unparsable
          else and_then (duration_from_component num unit) next)
      else more

  unfoldable pub parsed_float : Option ℕ → List ℕ → Outcome Timeout
  parsed_float (some nanos) s = ok (duration nanos)
  parsed_float none s = and_then (components s true [] [] 0) (λ d. ok (duration d))

  -- `parse_f64` yields the nanoseconds of a float that is not negative.
  unfoldable pub from_str : (List ℕ → Option ℕ) → List ℕ → Outcome Timeout
  unfolding parsed_float to_ascii_lowercase starts_with
  from_str parse_f64 [] = inv_arg (say "expected a timeout parameter")
  from_str parse_f64 (c ∷ text) =
      let s = map to_ascii_lowercase (c ∷ text) in
      if starts_with infinite_text s || starts_with infinity_text s
      then ok infinite
      else parsed_float (parse_f64 s) s
