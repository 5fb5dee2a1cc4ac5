-- ===== src/Tests/Values.antt =====
-- The texts of `rust/src/core/common/util.rs` and of `rust/src/core/host/configuration` at concrete
-- inputs.
use dqcsim_rs.Common.{
  ℕ, ◌≡◌, refl, Bool, leb, ◌&&◌, ◌↔◌, Option, none, some, List, [], ◌∷◌, ok, arith,
}
use dqcsim_rs.Util.{to_ascii_lowercase, friendly_name, friendly_enumerate, friendly_enum_parse}
use dqcsim_rs.Util.Parse.{OnlyMatch, friendly_enum_parse_iff}
use dqcsim_rs.Host.Configuration.EnvMod
use dqcsim_rs.Host.Configuration.Timeout
use dqcsim_rs.Host.Configuration.Timeout.Amounts.{
  Amount, TimeUnit, IsAmount, AreKnown, from_str-total,
}

abbrev bar : List ℕ
bar = b'B' ∷ b'a' ∷ b'r' ∷ []

abbrev baz : List ℕ
baz = b'B' ∷ b'a' ∷ b'z' ∷ []

abbrev variants : List (List ℕ × ℕ)
variants = (bar, 1) ∷ (baz, 2) ∷ []

-- "EnumVariants" is "enum variants", and "TestABC" is "test ABC".
friendly_name_run :
    friendly_name (b'T' ∷ b'e' ∷ b's' ∷ b't' ∷ b'A' ∷ b'B' ∷ b'C' ∷ [])
    ≡ b't' ∷ b'e' ∷ b's' ∷ b't' ∷ b' ' ∷ b'A' ∷ b'B' ∷ b'C' ∷ []
unfolding friendly_name
friendly_name_run = refl

-- "x and y".
friendly_enumerate_run :
    friendly_enumerate ((b'x' ∷ []) ∷ (b'y' ∷ []) ∷ []) (some (b'a' ∷ b'n' ∷ b'd' ∷ []))
    ≡ b'x' ∷ b' ' ∷ b'a' ∷ b'n' ∷ b'd' ∷ b' ' ∷ b'y' ∷ []
unfolding friendly_enumerate
friendly_enumerate_run = refl

friendly_enum_parse_iff_example :
    (friendly_enum_parse bar variants (b'B' ∷ b'A' ∷ b'Z' ∷ []) ≡ ok 2)
    ↔ OnlyMatch (b'b' ∷ b'a' ∷ b'z' ∷ []) variants 2
unfolding to_ascii_lowercase
friendly_enum_parse_iff_example = friendly_enum_parse_iff bar (b'B' ∷ b'A' ∷ b'Z' ∷ []) variants 2

from_str-display_iff_example :
    (EnvMod.from_str (EnvMod.display (EnvMod.set bar baz)) ≡ EnvMod.set bar baz)
    ↔ EnvMod.IsPrintable (EnvMod.set bar baz)
from_str-display_iff_example = EnvMod.from_str-display_iff (EnvMod.set bar baz)

abbrev is_digit : ℕ → Bool
is_digit c = leb b'0' c && leb c b'9'

abbrev is_letter : ℕ → Bool
is_letter c = leb b'a' c && leb c b'z'

abbrev no_float : List ℕ → Option ℕ
no_float s = none

abbrev minute : Amount
minute = record { digits = 1 ∷ []; unit = TimeUnit.minutes }

abbrev half : Amount
half = record { digits = 3 ∷ 0 ∷ []; unit = TimeUnit.seconds }

minute-IsAmount : IsAmount minute
minute-IsAmount = record { decimal = (omega arith, tt); some_digits = refl; fits = omega arith }

half-IsAmount : IsAmount half
half-IsAmount = record {
  decimal = (omega arith, (omega arith, tt));
  some_digits = refl;
  fits = omega arith;
}

ascii-AreKnown : AreKnown is_digit is_letter
ascii-AreKnown = record {
  digits = λ d h. ground (arith, h);
  letters = ((refl, refl), ((refl, refl), ((refl, refl), ((refl, refl), ((refl, refl), tt)))));
}

-- "1m30s".
from_str-total_example :
    Timeout.from_str is_digit is_letter no_float (b'1' ∷ b'm' ∷ b'3' ∷ b'0' ∷ b's' ∷ [])
    ≡ ok (Timeout.duration 90_000_000_000)
from_str-total_example =
    from_str-total is_digit is_letter no_float minute (half ∷ []) ascii-AreKnown minute-IsAmount
      (half-IsAmount, tt) refl
