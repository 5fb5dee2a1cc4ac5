-- ===== src/Types/Arb/RoundTrip.antt =====
-- What `Display` prints of arb data is what `from_str` reads.
use mathlib.Core.List.{append-nil, append_assoc}
use dqcsim_rs.Common.{
  ℕ, ◌+◌, ◌*◌, ◌/◌, ◌%◌, ◌<◌, ◌≡◌, refl, ◌∙◌, true, false, ◌==◌, if◌then◌else◌, Bool-cases, List,
  [], ◌∷◌, ◌++◌, All, Outcome, ok, and_then, arith, Text, ◌⊎◌, inl, inr,
}
use dqcsim_rs.Types.Arb.{ArbData}
use dqcsim_rs.Types.Cbor.{canonizalize}
use dqcsim_rs.Types.Arb.Scan.{
  plain, scan_args, scan_unstructured_args, rest_of, from_str, hex_value, is_ascii_hexdigit,
  encode_utf8,
}
use dqcsim_rs.Types.Arb.Json.{Inside, IsInside, object_text, scan_json_arg-object_text}
use dqcsim_rs.Types.Arb.Display.{
  hex_digit, print_hex, is_binary, print_plain, print_args, to_text, display, get_json,
}

hex_digit_lem :
    (n : ℕ)
    → n < 16
    → (is_ascii_hexdigit (hex_digit n) ≡ true)
      × (hex_value (hex_digit n) ≡ n)
      × ((hex_digit n == b'_') ≡ false)
      × ((hex_digit n == b',') ≡ false)
unfolding hex_digit hex_value is_ascii_hexdigit
hex_digit_lem n h = ground arith

print_hex-scan :
    (arg rest current : List ℕ) (output : List (List ℕ))
    → All (λ b. b < 256) arg
    → scan_args plain (print_hex arg ++ rest) current output
      ≡ scan_args plain rest (current ++ arg) output
unfolding print_hex scan_args
print_hex-scan [] rest current output h = rw (append-nil current)
print_hex-scan (b ∷ arg) rest current output h =
    let hi = hex_digit_lem (b / 16) (omega (arith, h.0)) in
    let lo = hex_digit_lem (b % 16) (omega (arith, h.0)) in
    let whole : b / 16 * 16 + b % 16 ≡ b = omega arith in
    rw (hi.2, hi.3, hi.0, lo.0, hi.1, lo.1, whole)
      (print_hex-scan arg rest (current ++ b ∷ []) output h.1
        ∙ rw (append_assoc current (b ∷ []) arg))

print_plain-scan :
    (arg rest current : List ℕ) (output : List (List ℕ))
    → is_binary arg ≡ false
    → scan_args plain (print_plain arg ++ rest) current output
      ≡ scan_args plain rest (current ++ arg) output
unfolding print_plain is_binary scan_args encode_utf8
print_plain-scan [] rest current output h = rw (append-nil current)
print_plain-scan (b ∷ arg) rest current output h =
    ground (
      arith,
      print_plain-scan arg rest (current ++ b ∷ []) output,
      append_assoc current (b ∷ []) arg,
    )

scan_args-end :
    (current : List ℕ) (output : List (List ℕ))
    → scan_args plain [] current output ≡ ok (output ++ current ∷ [])
unfolding scan_args
scan_args-end current output = refl

scan_args-comma :
    (rest current : List ℕ) (output : List (List ℕ))
    → scan_args plain (b',' ∷ rest) current output
      ≡ scan_args plain rest [] (output ++ current ∷ [])
unfolding scan_args
scan_args-comma rest current output = refl

print_arg-scan :
    (arg rest : List ℕ) (output : List (List ℕ))
    → All (λ b. b < 256) arg
    → scan_args plain ((if is_binary arg then print_hex arg else print_plain arg) ++ rest) [] output
      ≡ scan_args plain rest arg output
print_arg-scan arg rest output h = elim (Bool-cases (is_binary arg)) [
  | inl e ↦ rw e (print_hex-scan arg rest [] output h)
  | inr e ↦ rw e (print_plain-scan arg rest [] output e)
]

print_args-scan :
    (args : List (List ℕ)) (current : List ℕ) (output : List (List ℕ))
    → All (All (λ b. b < 256)) args
    → scan_args plain (print_args args) current output ≡ ok (output ++ current ∷ args)
unfolding print_args
print_args-scan [] current output h = scan_args-end current output
print_args-scan (arg ∷ args) current output h =
    scan_args-comma _ current output
    ∙ print_arg-scan arg (print_args args) (output ++ current ∷ []) h.0
    ∙ print_args-scan args arg (output ++ current ∷ []) h.1
    ∙ rw (append_assoc output (current ∷ []) (arg ∷ args))

module _ (json_to_cbor : List ℕ → List ℕ ⊎ Text) where
  rest_of-print_args :
      (cbor : List ℕ) (args : List (List ℕ))
      → All (All (λ b. b < 256)) args
      → rest_of json_to_cbor cbor (print_args args) ≡ ok (record { cbor = cbor; args = args })
  unfolding rest_of print_args scan_unstructured_args
  rest_of-print_args cbor [] h = refl
  rest_of-print_args cbor (arg ∷ args) h =
      rw (print_arg-scan arg (print_args args) [] h.0, print_args-scan args arg [] h.1)

-- Arb data whose JSON text the crates print and read back survives the way through its text, with
-- any bytes in its arguments. Of the crates it is asked that the text of the CBOR object is that of one
-- JSON object, with objects and strings (and escapes in those) nested in it as they may be, and that
-- reading it gives the CBOR object up to its form. That the scanner takes exactly this object off the
-- text, whatever braces and quotes its strings hold, is shown.
pub from_str-display :
    (json_to_cbor : List ℕ → List ℕ ⊎ Text) (cbor_to_json : List ℕ → Outcome (List ℕ)) (d : ArbData)
    (o : Inside) (cbor : List ℕ)
    → All (All (λ b. b < 256)) d.args
    → IsInside o
    → cbor_to_json d.cbor ≡ ok (object_text o)
    → json_to_cbor (object_text o) ≡ inl cbor
    → canonizalize cbor ≡ ok d.cbor
    → and_then (display cbor_to_json d) (from_str json_to_cbor) ≡ ok d
unfolding display get_json to_text from_str
from_str-display json_to_cbor cbor_to_json d o cbor h i printed read canonical =
    rw
      (printed, scan_json_arg-object_text json_to_cbor o (print_args d.args) cbor i read, canonical)
      (rest_of-print_args json_to_cbor d.cbor d.args h)
