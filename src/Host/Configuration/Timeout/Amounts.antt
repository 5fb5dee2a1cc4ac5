-- ===== src/Host/Configuration/Timeout/Amounts.antt =====
-- The texts of durations, as decimal numbers with units, and what they stand for.
use dqcsim_rs.Common.{
  ℕ, ◌+◌, ◌-◌, ◌*◌, ◌^◌, ◌<◌, ◌≤◌, ◌≡◌, leb, ◌==◌, refl, sym, ◌∙◌, ap, Bool, true, false, ◌||◌,
  Option, none, some, List, [], ◌∷◌, ◌++◌, map, All, is_empty, ok, arith,
}
use dqcsim_rs.Util.{to_ascii_lowercase, is_ascii_uppercase, starts_with}
use dqcsim_rs.Host.Configuration.Timeout.{
  duration, parse_digits, parse_u64, unit_nanos, same_text, from_str, infinite_text, infinity_text,
}
use dqcsim_rs.Host.Configuration.Timeout.Laws.{Part, IsPart, text_of, sum_of, from_str-text_of}

pub data TimeUnit : Type 0 where
  hours minutes seconds milliseconds microseconds nanoseconds : TimeUnit

abbrev pub letters_of : TimeUnit → List ℕ
letters_of hours = b'h' ∷ []
letters_of minutes = b'm' ∷ []
letters_of seconds = b's' ∷ []
letters_of milliseconds = b'm' ∷ b's' ∷ []
letters_of microseconds = b'u' ∷ b's' ∷ []
letters_of nanoseconds = b'n' ∷ b's' ∷ []

-- In nanoseconds.
abbrev pub length_of : TimeUnit → ℕ
length_of hours = 3600 * 10 ^ 9
length_of minutes = 60 * 10 ^ 9
length_of seconds = 10 ^ 9
length_of milliseconds = 10 ^ 6
length_of microseconds = 10 ^ 3
length_of nanoseconds = 1

-- Decimal digits, the most significant one first.
pub record Amount : Type 0 where
  pub digits : List ℕ
  pub unit : TimeUnit

abbrev pub decimal_from : ℕ → List ℕ → ℕ
decimal_from value [] = value
decimal_from value (d ∷ ds) = decimal_from (10 * value + d) ds

abbrev pub nanoseconds_of : Amount → ℕ
nanoseconds_of a = decimal_from 0 a.digits * length_of a.unit

abbrev pub spelled : List ℕ → List ℕ
spelled [] = []
spelled (d ∷ ds) = (48 + d) ∷ spelled ds

abbrev pub text : List Amount → List ℕ
text [] = []
text (a ∷ more) = spelled a.digits ++ (letters_of a.unit ++ text more)

abbrev pub total : List Amount → ℕ
total [] = 0
total (a ∷ more) = nanoseconds_of a + total more

-- There are digits, and the duration fits in 64 bits.
pub record IsAmount (a : Amount) : Type 0 where
  pub decimal : All (λ d. d < 10) a.digits
  pub some_digits : is_empty a.digits ≡ false
  pub fits : nanoseconds_of a < 2 ^ 64

decimal_from-le : (value : ℕ) (ds : List ℕ) → value ≤ decimal_from value ds
decimal_from-le value [] = omega arith
decimal_from-le value (d ∷ ds) = omega (arith, decimal_from-le (10 * value + d) ds)

parse_digits-spelled :
    (value : ℕ) (ds : List ℕ)
    → All (λ d. d < 10) ds
    → decimal_from value ds < 2 ^ 64
    → parse_digits (spelled ds) value ≡ some (decimal_from value ds)
unfolding parse_digits
parse_digits-spelled value [] h l = refl
parse_digits-spelled value (d ∷ ds) h l =
    let e : value * 10 + (48 + d - 48) ≡ 10 * value + d = omega arith in
    let low : leb 48 (48 + d) ≡ true = ground arith in
    let high : leb (48 + d) 57 ≡ true = ground (arith, h.0) in
    let small : leb (2 ^ 64) (10 * value + d) ≡ false =
      ground (arith, decimal_from-le (10 * value + d) ds, l) in
    rw (e, low, high, small) (parse_digits-spelled (10 * value + d) ds h.1 l)

parse_u64-spelled :
    (ds : List ℕ)
    → is_empty ds ≡ false
    → All (λ d. d < 10) ds
    → decimal_from 0 ds < 2 ^ 64
    → parse_u64 (spelled ds) ≡ some (decimal_from 0 ds)
unfolding parse_u64
parse_u64-spelled [] e h l = absurd (cc e)
parse_u64-spelled (d ∷ ds) e h l = parse_digits-spelled 0 (d ∷ ds) h l

unit_nanos-letters_of : (u : TimeUnit) → unit_nanos (letters_of u) ≡ some (length_of u)
unfolding unit_nanos same_text
unit_nanos-letters_of hours = refl
unit_nanos-letters_of minutes = refl
unit_nanos-letters_of seconds = refl
unit_nanos-letters_of milliseconds = refl
unit_nanos-letters_of microseconds = refl
unit_nanos-letters_of nanoseconds = refl

factor-le : (u : TimeUnit) (n : ℕ) → n ≤ n * length_of u
factor-le hours n = omega arith
factor-le minutes n = omega arith
factor-le seconds n = omega arith
factor-le milliseconds n = omega arith
factor-le microseconds n = omega arith
factor-le nanoseconds n = omega arith

abbrev part_of : Amount → Part
part_of a = record {
  num = spelled a.digits;
  unit = letters_of a.unit;
  value = decimal_from 0 a.digits;
  nanos = length_of a.unit;
}

spelled-lower :
    (ds rest : List ℕ)
    → All (λ d. d < 10) ds
    → map to_ascii_lowercase (spelled ds ++ rest) ≡ spelled ds ++ map to_ascii_lowercase rest
unfolding to_ascii_lowercase is_ascii_uppercase
spelled-lower [] rest h = refl
spelled-lower (d ∷ ds) rest h =
    let e : to_ascii_lowercase (48 + d) ≡ 48 + d = ground (arith, h.0) in
    rw e (ap (λ (t : List ℕ). (48 + d) ∷ t) (spelled-lower ds rest h.1))

letters-lower :
    (u : TimeUnit) (rest : List ℕ)
    → map to_ascii_lowercase (letters_of u ++ rest) ≡ letters_of u ++ map to_ascii_lowercase rest
unfolding to_ascii_lowercase is_ascii_uppercase
letters-lower hours rest = refl
letters-lower minutes rest = refl
letters-lower seconds rest = refl
letters-lower milliseconds rest = refl
letters-lower microseconds rest = refl
letters-lower nanoseconds rest = refl

text-lower :
    (more : List Amount) → All IsAmount more → map to_ascii_lowercase (text more) ≡ text more
text-lower [] h = refl
text-lower (a ∷ more) h =
    spelled-lower a.digits (letters_of a.unit ++ text more) (h.0).decimal
    ∙ ap (λ (t : List ℕ). spelled a.digits ++ t)
        (letters-lower a.unit (text more)
          ∙ ap (λ (t : List ℕ). letters_of a.unit ++ t) (text-lower more h.1))

-- A text that starts with a digit is no part of the names of the infinite timeout.
no_name :
    (ds rest : List ℕ)
    → is_empty ds ≡ false
    → All (λ d. d < 10) ds
    → (starts_with infinite_text (spelled ds ++ rest)
        || starts_with infinity_text (spelled ds ++ rest))
      ≡ false
unfolding starts_with
no_name [] rest e h = absurd (cc e)
no_name (d ∷ ds) rest e h = let ne : (b'i' == 48 + d) ≡ false = ground (arith, h.0) in rw ne refl

module _ (is_numeric is_alphabetic : ℕ → Bool) where
  -- The predicates know the decimal digits, and the letters of the units.
  pub record AreKnown : Type 0 where
    pub digits : (d : ℕ) → d < 10 → is_numeric (48 + d) ≡ true
    pub letters :
        All
          (λ c. (is_numeric c ≡ false) × (is_alphabetic c ≡ true))
          (b'h' ∷ b'm' ∷ b's' ∷ b'u' ∷ b'n' ∷ [])

  numeric-spelled :
      AreKnown → (ds : List ℕ) → All (λ d. d < 10) ds → All (λ c. is_numeric c ≡ true) (spelled ds)
  numeric-spelled k [] h = tt
  numeric-spelled k (d ∷ ds) h = (k.digits d h.0, numeric-spelled k ds h.1)

  spelled-no_empty : (ds : List ℕ) → is_empty ds ≡ false → is_empty (spelled ds) ≡ false
  spelled-no_empty [] h = absurd (cc h)
  spelled-no_empty (d ∷ ds) h = refl

  letters-known :
      AreKnown
      → (u : TimeUnit)
      → All (λ c. (is_numeric c ≡ false) × (is_alphabetic c ≡ true)) (letters_of u)
        × (is_empty (letters_of u) ≡ false)
  letters-known k hours = let (h, (m, (s, (u, (n, t))))) = k.letters in ((h, tt), refl)
  letters-known k minutes = let (h, (m, (s, (u, (n, t))))) = k.letters in ((m, tt), refl)
  letters-known k seconds = let (h, (m, (s, (u, (n, t))))) = k.letters in ((s, tt), refl)
  letters-known k milliseconds = let (h, (m, (s, (u, (n, t))))) = k.letters in ((m, (s, tt)), refl)
  letters-known k microseconds = let (h, (m, (s, (u, (n, t))))) = k.letters in ((u, (s, tt)), refl)
  letters-known k nanoseconds = let (h, (m, (s, (u, (n, t))))) = k.letters in ((n, (s, tt)), refl)

  part_of-IsPart :
      AreKnown → (a : Amount) → IsAmount a → IsPart is_numeric is_alphabetic (part_of a)
  part_of-IsPart k a h = record {
    digits = numeric-spelled k a.digits h.decimal;
    letters = (letters-known k a.unit).0;
    no_empty_num = spelled-no_empty a.digits h.some_digits;
    no_empty_unit = (letters-known k a.unit).1;
    parsed =
        parse_u64-spelled a.digits h.some_digits h.decimal
          (omega (arith, h.fits, factor-le a.unit (decimal_from 0 a.digits)));
    known = unit_nanos-letters_of a.unit;
    fits = h.fits;
  }

  parts-IsPart :
      AreKnown
      → (more : List Amount) → All IsAmount more
      → All (IsPart is_numeric is_alphabetic) (map part_of more)
  parts-IsPart k [] h = tt
  parts-IsPart k (a ∷ more) h = (part_of-IsPart k a h.0, parts-IsPart k more h.1)

  text_of-text :
      (more : List Amount) → text_of is_numeric is_alphabetic (map part_of more) ≡ text more
  text_of-text [] = refl
  text_of-text (a ∷ more) =
      ap (λ (t : List ℕ). spelled a.digits ++ (letters_of a.unit ++ t)) (text_of-text more)

  sum_of-total :
      (more : List Amount) → sum_of is_numeric is_alphabetic (map part_of more) ≡ total more
  sum_of-total [] = refl
  sum_of-total (a ∷ more) = ap (λ (n : ℕ). nanoseconds_of a + n) (sum_of-total more)

  -- A text of decimal numbers, each with a unit behind it, is parsed as the sum of the durations that they
  -- stand for, where each of these fits in 64 bits. Of the predicates on characters it is asked that they
  -- know the decimal digits and the letters of the units, and of the parser of floats that it refuses
  -- the text.
  pub from_str-total :
      (parse_f64 : List ℕ → Option ℕ) (a : Amount) (more : List Amount)
      → AreKnown
      → IsAmount a
      → All IsAmount more
      → parse_f64 (text (a ∷ more)) ≡ none
      → from_str is_numeric is_alphabetic parse_f64 (text (a ∷ more))
        ≡ ok (duration (total (a ∷ more)))
  from_str-total parse_f64 a more k h hs float =
      let e : text_of is_numeric is_alphabetic (map part_of (a ∷ more)) ≡ text (a ∷ more) =
        text_of-text (a ∷ more) in
      ap (from_str is_numeric is_alphabetic parse_f64) (sym e)
      ∙ from_str-text_of is_numeric is_alphabetic parse_f64 (part_of a) (map part_of more)
          (part_of-IsPart k a h) (parts-IsPart k more hs)
          (ap (map to_ascii_lowercase) e ∙ text-lower (a ∷ more) (h, hs) ∙ sym e)
          (ap (λ (t : List ℕ). starts_with infinite_text t || starts_with infinity_text t) e
            ∙ no_name a.digits (letters_of a.unit ++ text more) h.some_digits h.decimal)
          (ap parse_f64 e ∙ float)
      ∙ ap (λ (n : ℕ). ok (duration n)) (sum_of-total (a ∷ more))
