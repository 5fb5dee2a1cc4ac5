-- ===== src/Tests/Arb.antt =====
-- The properties of `rust/src/core/common/types/arb_data.rs` at concrete inputs: a CBOR object whose
-- name has a quote and a brace, with an argument of bytes that are no text and an argument with a comma and an underscore.
use dqcsim_rs.Common.{ℕ, ◌≡◌, refl, arith, List, [], ◌∷◌, ok, Outcome, and_then, Text, ◌⊎◌, inl}
use dqcsim_rs.Types.Arb.{ArbData}
use dqcsim_rs.Types.Arb.Scan.{from_str}
use dqcsim_rs.Types.Arb.Json.{
  Inside, nothing, other, quoted, braces, itself, escaped, IsInside, object_text,
}
use dqcsim_rs.Types.Arb.Display.{display}
use dqcsim_rs.Types.Arb.RoundTrip.{from_str-display}
use dqcsim_rs.Types.Cbor.{
  canonizalize, canonicalize_int, read_tag, slice_from, write_value, write_tag, tag_bytes, shortest,
  sort, flatten, entry_pair, entry_value, get_range, insert_sorted,
}

abbrev mixed : ArbData
mixed = record {
  cbor = 0xA1 ∷ 0x63 ∷ b'a' ∷ b'"' ∷ b'}' ∷ 0xA0 ∷ [];
  args = (0 ∷ 0xFF ∷ []) ∷ (b'a' ∷ b',' ∷ b'_' ∷ []) ∷ [];
}

-- Crates that know one object, whose name holds an escaped quote and a brace, and which is read with
-- an indefinite length.
abbrev tricky : Inside
tricky =
    quoted (itself b'a' ∷ escaped b'"' ∷ itself b'}' ∷ []) (other b':' (braces nothing nothing))

abbrev tricky_to_cbor : List ℕ → List ℕ ⊎ Text
tricky_to_cbor json = inl (0xBF ∷ 0x63 ∷ b'a' ∷ b'"' ∷ b'}' ∷ 0xA0 ∷ 0xFF ∷ [])

abbrev tricky_to_json : List ℕ → Outcome (List ℕ)
tricky_to_json cbor = ok (object_text tricky)

tricky_canonical :
    canonizalize (0xBF ∷ 0x63 ∷ b'a' ∷ b'"' ∷ b'}' ∷ 0xA0 ∷ 0xFF ∷ []) ≡ ok mixed.cbor
unfolding canonizalize canonicalize_int read_tag slice_from write_value write_tag tag_bytes shortest
    sort flatten entry_pair entry_value get_range insert_sorted
tricky_canonical = refl

tricky-IsInside : IsInside tricky
tricky-IsInside = omega arith

from_str-display_example :
    and_then (display tricky_to_json mixed) (from_str tricky_to_cbor) ≡ ok mixed
from_str-display_example =
    from_str-display tricky_to_cbor tricky_to_json mixed tricky
      (0xBF ∷ 0x63 ∷ b'a' ∷ b'"' ∷ b'}' ∷ 0xA0 ∷ 0xFF ∷ []) (omega arith) tricky-IsInside refl refl
      tricky_canonical
