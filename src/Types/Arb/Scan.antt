-- ===== src/Types/Arb/Scan.antt =====
-- Parsing of `ArbData` in `rust/src/core/common/types/arb_data.rs`: `scan_json_arg`,
-- `scan_unstructured_args` and `from_str`. A text is the list of its characters, as code points. A
-- scanner reads one character at a time; its mode is the place in the nested matches of the code.
-- The serde crates, which turn a JSON text into CBOR, are an argument.
use dqcsim_rs.Common.{
  ℕ, zero, suc, ◌+◌, ◌-◌, ◌*◌, ◌/◌, ◌%◌, Bool, ◌&&◌, ◌||◌, not, ltb, leb, ◌==◌, if◌then◌else◌, List,
  [], ◌∷◌, ◌++◌, Outcome, ok, inv_arg, and_then, say, lit, chars, Text, ◌⊎◌, inl, inr,
}
use dqcsim_rs.Types.Arb.{ArbData, no_data}
use dqcsim_rs.Types.Cbor.{canonizalize}

-- `char::encode_utf8`.
unfoldable pub encode_utf8 : ℕ → List ℕ
encode_utf8 c =
    if ltb c 0x80
    then c ∷ []
    else if ltb c 0x800
    then (0xC0 + c / 64) ∷ (0x80 + c % 64) ∷ []
    else if ltb c 0x1_0000
    then (0xE0 + c / 4096) ∷ (0x80 + c / 64 % 64) ∷ (0x80 + c % 64) ∷ []
    else (0xF0 + c / 26_2144) ∷ (0x80 + c / 4096 % 64) ∷ (0x80 + c / 64 % 64) ∷ (0x80 + c % 64) ∷ []

unfoldable pub is_ascii_hexdigit : ℕ → Bool
is_ascii_hexdigit c =
    leb b'0' c && leb c b'9' || leb b'A' c && leb c b'F' || leb b'a' c && leb c b'f'

-- `u8::from_str_radix(.., 16)` of one digit.
unfoldable pub hex_value : ℕ → ℕ
hex_value c = if leb c b'9' then c - b'0' else if leb c b'F' then c - b'A' + 10 else c - b'a' + 10

-- In an argument, behind an underscore, or behind an underscore and a hexadecimal digit.
pub data ArgMode : Type 0 where
  plain escape : ArgMode
  hex : ℕ → ArgMode

-- The loops of `scan_unstructured_args`, with `current` and `output`.
unfoldable pub scan_args : ArgMode → List ℕ → List ℕ → List (List ℕ) → Outcome (List (List ℕ))
unfolding encode_utf8 is_ascii_hexdigit hex_value
scan_args plain [] current output = ok (output ++ current ∷ [])
scan_args escape [] current output =
    inv_arg (say "unterminated binary string escape sequence while parsing ArbData")
scan_args (hex c1) [] current output =
    inv_arg (say "unterminated binary string escape sequence while parsing ArbData")
scan_args plain (c ∷ it) current output =
    let escaped = scan_args escape it current output in
    let next = scan_args plain it [] (output ++ current ∷ []) in
    let more = scan_args plain it (current ++ encode_utf8 c) output in
    if c == b'_' then escaped else if c == b',' then next else more
scan_args escape (c ∷ it) current output =
    let pushed = scan_args plain it (current ++ c ∷ []) output in
    let digit = scan_args (hex c) it current output in
    if c == b'_' || c == b','
    then pushed
    else if not (is_ascii_hexdigit c)
    then inv_arg (say "invalid binary string escape sequence while parsing ArbData")
    else digit
scan_args (hex c1) (c2 ∷ it) current output =
    let pushed = scan_args plain it (current ++ (hex_value c1 * 16 + hex_value c2) ∷ []) output in
    if not (is_ascii_hexdigit c2)
    then inv_arg (say "invalid binary string escape sequence while parsing ArbData")
    else pushed

unfoldable pub scan_unstructured_args : List ℕ → Outcome (List (List ℕ))
scan_unstructured_args it = scan_args plain it [] []

-- Between the strings of a JSON object, in a string, behind a backslash, or before a number of
-- characters of a `\u` sequence.
pub data JsonMode : Type 0 where
  object string backslash : JsonMode
  unicode : ℕ → JsonMode

abbrev unterminated_string : Outcome (List ℕ × List ℕ)
unterminated_string = inv_arg (say "unterminated JSON string while parsing ArbData")

-- The mode behind a character of a `\u` sequence.
unfoldable pub after_unicode : ℕ → JsonMode
after_unicode zero = string
after_unicode (suc n) = unicode n

-- The loop of `scan_json_arg`, with `obj_depth` and `json`: the JSON object and what follows it.
unfoldable pub scan_json : JsonMode → ℕ → List ℕ → List ℕ → Outcome (List ℕ × List ℕ)
unfolding after_unicode
scan_json object depth [] json = inv_arg (say "unterminated JSON object while parsing ArbData")
scan_json string depth [] json = unterminated_string
scan_json backslash depth [] json = unterminated_string
scan_json (unicode n) depth [] json = unterminated_string
scan_json object depth (c ∷ it) json =
    let opened = scan_json object (depth + 1) it (json ++ c ∷ []) in
    let closed = scan_json object (depth - 1) it (json ++ c ∷ []) in
    let quoted = scan_json string depth it (json ++ c ∷ []) in
    let more = scan_json object depth it (json ++ c ∷ []) in
    if c == b'{'
    then opened
    else if c == b'}'
    then (if depth - 1 == 0 then ok (json ++ c ∷ [], it) else closed)
    else if c == b'"'
    then quoted
    else more
scan_json string depth (c ∷ it) json =
    let ended = scan_json object depth it (json ++ c ∷ []) in
    let escaped = scan_json backslash depth it (json ++ c ∷ []) in
    let more = scan_json string depth it (json ++ c ∷ []) in
    if c == b'"' then ended else if c == 0x5C then escaped else more
scan_json backslash depth (c ∷ it) json =
    scan_json (if c == b'u' then unicode 3 else string) depth it (json ++ c ∷ [])
scan_json (unicode n) depth (c ∷ it) json = scan_json (after_unicode n) depth it (json ++ c ∷ [])

module _ (json_to_cbor : List ℕ → List ℕ ⊎ Text) where
  unfoldable pub transcode : List ℕ → Outcome (List ℕ)
  transcode json = elim (json_to_cbor json) as (λ _. Outcome (List ℕ)) [
    | inl cbor ↦ ok cbor
    | inr e ↦ inv_arg (lit "error parsing JSON component of ArbData, " ∷ chars json ∷ lit ": " ∷ e)
  ]

  -- The CBOR and the characters that are left.
  unfoldable pub scan_json_arg : List ℕ → Outcome (List ℕ × List ℕ)
  unfolding transcode scan_json
  scan_json_arg [] = inv_arg (say "expected JSON argument while parsing ArbData")
  scan_json_arg (c ∷ it) =
      if not (c == b'{')
      then inv_arg (say "expected JSON argument while parsing ArbData")
      else and_then (scan_json object 1 it (c ∷ []))
          (λ (json, rest). and_then (transcode json) (λ cbor. ok (cbor, rest)))

  -- What stands behind the JSON object.
  unfoldable pub rest_of : List ℕ → List ℕ → Outcome ArbData
  rest_of cbor [] = ok (record { cbor = cbor; args = [] })
  rest_of cbor (c ∷ it) =
      if c == b','
      then and_then (scan_unstructured_args it) (λ args. ok (record { cbor = cbor; args = args }))
      else inv_arg
          (lit "expected comma after JSON object in ArbData, received " ∷ chars (c ∷ []) ∷ [])

  unfoldable pub from_str : List ℕ → Outcome ArbData
  unfolding rest_of scan_json_arg
  from_str s =
      and_then (scan_json_arg s)
        (λ (json, it). and_then (canonizalize json) (λ cbor. rest_of cbor it))

unfoldable pub from_str_args_only : List ℕ → Outcome ArbData
from_str_args_only s =
    and_then (scan_unstructured_args s) (λ args. ok (record { cbor = no_data.cbor; args = args }))
