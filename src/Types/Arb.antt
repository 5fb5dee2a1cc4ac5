-- ===== src/Types/Arb.antt =====
-- `rust/src/core/common/types/arb_data.rs` (the structure; `Cbor` has its canonical form) and
-- `arb_cmd.rs` (the structure and the check of the identifiers).
pub mod Scan
pub mod Display
pub mod Json
pub mod RoundTrip
pub mod Command
use Prim.Native.Char.{code}
use Prim.Native.String.{String}
use text.Mathlib.Text.{◌==◌ as str_eq}
use dqcsim_rs.Common.{
  ℕ, Bool, false, ◌&&◌, ◌||◌, not, leb, ◌==◌, if◌then◌else◌, List, [], ◌∷◌, Outcome, ok, err, fault,
  panicked, inv_arg, and_then, lit, say,
}

pub record ArbData : Type 0 where
  pub cbor : List ℕ
  pub args : List (List ℕ)

-- `ArbData::default()`: the empty CBOR object and no arguments.
abbrev pub no_data : ArbData
no_data = record { cbor = 0xA0 ∷ []; args = [] }

pub record ArbCmd : Type 0 where
  pub interface_identifier : String
  pub operation_identifier : String
  pub payload : ArbData

unfoldable pub is_ascii_alphanumeric : ℕ → Bool
is_ascii_alphanumeric x =
    leb b'a' x && leb x b'z' || leb b'A' x && leb x b'Z' || leb b'0' x && leb x b'9'

-- Whether any character lies outside [a-zA-Z0-9_].
unfoldable pub has_invalid : String → Bool
unfolding is_ascii_alphanumeric
has_invalid String.[] = false
has_invalid (String.◌∷◌ c s) =
    not (is_ascii_alphanumeric (code c) || code c == b'_') || has_invalid s

unfoldable pub verify_id : String → Outcome String
unfolding has_invalid
verify_id id =
    if has_invalid id
    then inv_arg (
        lit "\""
        ∷ lit id
        ∷ lit "\" is not a valid identifier; it contains characters outside [a-zA-Z0-9_]"
        ∷ [])
    else if str_eq id ""
    then inv_arg (say "identifiers must not be empty")
    else ok id

-- `ArbCmd::try_from`.
unfoldable pub try_from : String → String → ArbData → Outcome ArbCmd
unfolding verify_id
try_from interface operation data' = and_then (verify_id interface) (λ i.
    and_then (verify_id operation)
      (λ o. ok (record { interface_identifier = i; operation_identifier = o; payload = data' })))

-- `unwrap()`.
abbrev pub unwrap {ℓ} : {A : Type ℓ} → Outcome A → Outcome A
unwrap (ok a) = ok a
unwrap (err e) = fault panicked
unwrap (fault p) = fault p

-- `ArbCmd::new` panics where `try_from` fails.
unfoldable pub new : String → String → ArbData → Outcome ArbCmd
unfolding verify_id
new interface operation data' = and_then (unwrap (verify_id interface)) (λ i.
    and_then (unwrap (verify_id operation))
      (λ o. ok (record { interface_identifier = i; operation_identifier = o; payload = data' })))
