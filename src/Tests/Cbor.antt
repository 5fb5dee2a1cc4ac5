-- ===== src/Tests/Cbor.antt =====
-- The properties of `cbor_canon` in `rust/src/core/common/types/arb_data.rs` at concrete inputs: a
-- dictionary of indefinite length with its keys out of order, one number in too long a form, and a
-- string in chunks.
use dqcsim_rs.Common.{ℕ, ◌≡◌, ◌≢◌, refl, arith, List, [], ◌∷◌, ok, fault, out_of_fuel, inv_arg, say}
use dqcsim_rs.Types.Cbor.{
  canonizalize, canonicalize_int, read_tag, slice_from, get_range, entry_pair, entry_value,
  bytes_as_u64, write_value, write_tag, tag_bytes, u64_as_bytes, shortest, sort, insert_sorted,
  le_bytes, flatten,
}
use dqcsim_rs.Types.Cbor.Canonical.{IsCanonical}
use dqcsim_rs.Types.Cbor.Fuel.{canonizalize-Finishes}
use dqcsim_rs.Types.Cbor.Laws.{canonizalize-IsCanonical, canonizalize-canonical, canonizalize-chunk}

abbrev loose : List ℕ
loose = 0xBF ∷ 0x02 ∷ 0x18 ∷ 0x03 ∷ 0x01 ∷ 0x5F ∷ 0x41 ∷ 0x07 ∷ 0x41 ∷ 0x08 ∷ 0xFF ∷ 0xFF ∷ []

abbrev tight : List ℕ
tight = 0xA2 ∷ 0x01 ∷ 0x42 ∷ 0x07 ∷ 0x08 ∷ 0x02 ∷ 0x03 ∷ []

loose_runs : canonizalize loose ≡ ok tight
unfolding canonizalize canonicalize_int read_tag slice_from get_range entry_pair entry_value
    bytes_as_u64 write_value write_tag tag_bytes u64_as_bytes shortest sort insert_sorted le_bytes
    flatten
loose_runs = refl

canonizalize-IsCanonical_example : IsCanonical 13 tight
canonizalize-IsCanonical_example = canonizalize-IsCanonical loose tight (omega arith) loose_runs

canonizalize-canonical_example : canonizalize tight ≡ ok tight
canonizalize-canonical_example = canonizalize-canonical 13 tight canonizalize-IsCanonical_example

canonizalize-Finishes_example : canonizalize loose ≢ fault out_of_fuel
canonizalize-Finishes_example = canonizalize-Finishes loose

canonizalize-chunk_example :
    canonizalize (0x5F ∷ 0x41 ∷ 1 ∷ 0x42 ∷ 2 ∷ 3 ∷ 0xFF ∷ [])
    ≡ inv_arg (say "invalid CBOR: incomplete chunked bytes/utf8")
canonizalize-chunk_example = canonizalize-chunk 1 2 3 (omega arith)
