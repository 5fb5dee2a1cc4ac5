-- ===== src/Host/Configuration/Timeout/Laws.antt =====
-- The sum that the components of a timeout stand for.
use mathlib.Core.List.{append-nil, append_assoc}
use dqcsim_rs.Common.{
  ℕ, ◌+◌, ◌*◌, ◌^◌, ◌<◌, ◌≡◌, refl, sym, ◌∙◌, ap, subst, Bool, true, false, leb, if◌then◌else◌,
  Option, some, none, List, [], ◌∷◌, ◌++◌, map, ◌||◌, All, is_empty, Outcome, ok, arith,
}
use dqcsim_rs.Util.{to_ascii_lowercase, starts_with}
use dqcsim_rs.Host.Configuration.Timeout.{
  infinite_text, infinity_text, duration, infinite, parse_u64, unit_nanos, scaled, component,
  duration_from_component, components, from_str, parsed_float,
}

append_no_empty : (num rest : List ℕ) → is_empty num ≡ false → is_empty (num ++ rest) ≡ false
append_no_empty [] rest h = absurd (cc h)
append_no_empty (c ∷ num) rest h = refl

-- A component of the text of a timeout: digits and a unit, with what they stand for.
pub record Part : Type 0 where
  pub num : List ℕ
  pub unit : List ℕ
  pub value : ℕ
  pub nanos : ℕ

module _ (is_numeric is_alphabetic : ℕ → Bool) where
  -- The number is written in digits, the unit is a known one in letters, and the product fits.
  pub record IsPart (p : Part) : Type 0 where
    pub digits : All (λ c. is_numeric c ≡ true) p.num
    pub letters : All (λ c. (is_numeric c ≡ false) × (is_alphabetic c ≡ true)) p.unit
    pub no_empty_num : is_empty p.num ≡ false
    pub no_empty_unit : is_empty p.unit ≡ false
    pub parsed : parse_u64 p.num ≡ some p.value
    pub known : unit_nanos p.unit ≡ some p.nanos
    pub fits : p.value * p.nanos < 2 ^ 64

  abbrev pub text_of : List Part → List ℕ
  text_of [] = []
  text_of (p ∷ ps) = p.num ++ (p.unit ++ text_of ps)

  abbrev pub sum_of : List Part → ℕ
  sum_of [] = 0
  sum_of (p ∷ ps) = p.value * p.nanos + sum_of ps

  abbrev scan : List ℕ → Bool → List ℕ → List ℕ → ℕ → Outcome ℕ
  scan = components is_numeric is_alphabetic

  scan_digits :
      (num rest acc unit : List ℕ) (total : ℕ)
      → All (λ c. is_numeric c ≡ true) num
      → scan (num ++ rest) true acc unit total ≡ scan rest true (acc ++ num) unit total
  unfolding components
  scan_digits [] rest acc unit total h = rw (append-nil acc)
  scan_digits (c ∷ num) rest acc unit total h =
      rw (h.0)
        (scan_digits num rest (acc ++ c ∷ []) unit total h.1 ∙ rw (append_assoc acc (c ∷ []) num))

  scan_letters :
      (unit rest num acc : List ℕ) (total : ℕ)
      → All (λ c. (is_numeric c ≡ false) × (is_alphabetic c ≡ true)) unit
      → scan (unit ++ rest) false num acc total ≡ scan rest false num (acc ++ unit) total
  unfolding components
  scan_letters [] rest num acc total h = rw (append-nil acc)
  scan_letters (c ∷ unit) rest num acc total h =
      rw (h.0.0, h.0.1)
        (scan_letters unit rest num (acc ++ c ∷ []) total h.1 ∙ rw (append_assoc acc (c ∷ []) unit))

  -- From the start of a unit.
  scan_unit :
      (unit rest num old : List ℕ) (total : ℕ)
      → is_empty unit ≡ false
      → All (λ c. (is_numeric c ≡ false) × (is_alphabetic c ≡ true)) unit
      → scan (unit ++ rest) true num old total ≡ scan rest false num unit total
  unfolding components
  scan_unit [] rest num old total n h = absurd (cc n)
  scan_unit (c ∷ unit) rest num old total n h =
      rw (h.0.0, h.0.1) (scan_letters unit rest num (c ∷ []) total h.1)

  component_value :
      (p : Part) → IsPart p → duration_from_component p.num p.unit ≡ ok (p.value * p.nanos)
  unfolding duration_from_component component scaled
  component_value p h =
      let small : leb (2 ^ 64) (p.value * p.nanos) ≡ false = ground (arith, h.fits) in
      rw (h.parsed, h.known, small)

  -- From the start of a number, behind a component.
  scan_number :
      (p : Part) (num rest : List ℕ) (total : ℕ)
      → IsPart p
      → is_empty num ≡ false
      → All (λ c. is_numeric c ≡ true) num
      → scan (num ++ rest) false p.num p.unit total
        ≡ scan rest true num [] (total + p.value * p.nanos)
  unfolding components
  scan_number p [] rest total h n d = absurd (cc n)
  scan_number p (c ∷ num) rest total h n d =
      rw (d.0, h.no_empty_num, h.no_empty_unit, component_value p h)
        (scan_digits num rest (c ∷ []) [] (total + p.value * p.nanos) d.1)

  scan_last :
      (p : Part) (total : ℕ)
      → IsPart p
      → scan [] false p.num p.unit total ≡ ok (total + (p.value * p.nanos + 0))
  unfolding components
  scan_last p total h = rw (component_value p h) (ap (λ (n : ℕ). ok n) (omega arith))

  scan_parts :
      (p : Part) (ps : List Part) (total : ℕ)
      → IsPart p
      → All IsPart ps
      → scan (text_of ps) false p.num p.unit total ≡ ok (total + sum_of (p ∷ ps))
  scan_parts p [] total h hs = scan_last p total h
  scan_parts p (q ∷ ps) total h hs =
      scan_number p q.num (q.unit ++ text_of ps) total h (hs.0).no_empty_num (hs.0).digits
      ∙ scan_unit q.unit (text_of ps) q.num [] (total + p.value * p.nanos) (hs.0).no_empty_unit
          (hs.0).letters
      ∙ scan_parts q ps (total + p.value * p.nanos) hs.0 hs.1
      ∙ ap (λ (n : ℕ). ok n) (omega arith)

  no_empty : (p : Part) (rest : List ℕ) → IsPart p → is_empty (p.num ++ rest) ≡ false
  no_empty p rest h = append_no_empty p.num rest h.no_empty_num

  choose :
      (b : Bool) (o : Option ℕ) (s : List ℕ) (n : ℕ)
      → b ≡ false
      → o ≡ none
      → scan s true [] [] 0 ≡ ok n
      → (if b then ok infinite else parsed_float is_numeric is_alphabetic o s) ≡ ok (duration n)
  unfolding parsed_float
  choose b o s n e float scanned = rw (e, float, scanned)

  from_components :
      (parse_f64 : List ℕ → Option ℕ) (s : List ℕ) (n : ℕ)
      → is_empty s ≡ false
      → map to_ascii_lowercase s ≡ s
      → (starts_with infinite_text s || starts_with infinity_text s) ≡ false
      → parse_f64 s ≡ none
      → scan s true [] [] 0 ≡ ok n
      → from_str is_numeric is_alphabetic parse_f64 s ≡ ok (duration n)
  unfolding from_str
  from_components parse_f64 [] n e lower other float scanned = absurd (cc e)
  from_components parse_f64 (c ∷ s) n e lower other float scanned =
      subst
        (λ (x : List ℕ).
          (if starts_with infinite_text x || starts_with infinity_text x
            then ok infinite
            else parsed_float is_numeric is_alphabetic (parse_f64 x) x)
          ≡ ok (duration n))
        (sym lower)
        (choose (starts_with infinite_text (c ∷ s) || starts_with infinity_text (c ∷ s))
          (parse_f64 (c ∷ s)) (c ∷ s) n other float scanned)

  -- A text of components, each a number and a unit, is parsed as their sum, where it is in lower case
  -- and is not read as the name of the infinite timeout or as a float.
  pub from_str-text_of :
      (parse_f64 : List ℕ → Option ℕ) (p : Part) (ps : List Part)
      → IsPart p
      → All IsPart ps
      → map to_ascii_lowercase (text_of (p ∷ ps)) ≡ text_of (p ∷ ps)
      → (starts_with infinite_text (text_of (p ∷ ps))
          || starts_with infinity_text (text_of (p ∷ ps)))
        ≡ false
      → parse_f64 (text_of (p ∷ ps)) ≡ none
      → from_str is_numeric is_alphabetic parse_f64 (text_of (p ∷ ps))
        ≡ ok (duration (sum_of (p ∷ ps)))
  from_str-text_of parse_f64 p ps h hs lower other float =
      from_components parse_f64 (text_of (p ∷ ps)) (sum_of (p ∷ ps))
        (no_empty p (p.unit ++ text_of ps) h) lower other float
        (scan_digits p.num (p.unit ++ text_of ps) [] [] 0 h.digits
          ∙ scan_unit p.unit (text_of ps) p.num [] 0 h.no_empty_unit h.letters
          ∙ scan_parts p ps 0 h hs
          ∙ ap (λ (n : ℕ). ok n) (omega arith))
