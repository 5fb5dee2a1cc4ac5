-- ===== src/Types/Cbor/Laws.antt =====
-- What `canonizalize` promises to its callers.
use mathlib.Core.List.{append-nil}
use dqcsim_rs.Common.{
  ℕ, ◌+◌, ◌^◌, ◌<◌, ◌≡◌, ◌≢◌, subst, List, [], ◌∷◌, ok, inv_arg, say, and_then-eq-ok, guard-eq-ok,
  arith, length, not, ◌==◌,
}
use dqcsim_rs.Types.Cbor.{
  canonicalize_int, canonizalize, read_tag, slice_from, get_range, bytes_as_u64,
}
use dqcsim_rs.Types.Cbor.Canonical.{IsCanonical}
use dqcsim_rs.Types.Cbor.Agrees.{IsCanonical-IsWritten, IsWritten-IsCanonical}
use dqcsim_rs.Types.Cbor.Sound.{canonicalize_int-IsWritten}
use dqcsim_rs.Types.Cbor.Complete.{canonicalize_int-canonical}

-- Whatever `canonizalize` returns is a value in canonical form: shortest tags, definite lengths,
-- and the pairs of every dictionary sorted by their bytes.
pub canonizalize-IsCanonical :
    (input out : List ℕ)
    → length input < 2 ^ 64
    → canonizalize input ≡ ok out
    → IsCanonical (length input + 1) out
unfolding canonizalize
canonizalize-IsCanonical input out l e =
    let (r, q, k) = and_then-eq-ok (canonicalize_int (length input + 1) input) _ e in
    let (same, k') = guard-eq-ok (not (r.1 == length input)) _ _ k in
    let p =
      IsCanonical-IsWritten (length input + 1) r.0
        (canonicalize_int-IsWritten (length input + 1) input r.0 r.1 l q) in
    subst (IsCanonical (length input + 1)) (cc k') p

-- A value in canonical form is left as it is.
pub canonizalize-canonical :
    (depth : ℕ) (out : List ℕ) → IsCanonical depth out → canonizalize out ≡ ok out
unfolding canonizalize
canonizalize-canonical depth out c =
    let e : canonicalize_int (length out + 1) out ≡ ok (out, length out) = rw append-nil at (
      canonicalize_int-canonical depth (length out + 1) out [] (IsWritten-IsCanonical depth out c)
        (omega arith)) in
    rw e (ground arith)

-- To canonicalize twice is to canonicalize once.
pub canonizalize_idempotent :
    (input out : List ℕ)
    → length input < 2 ^ 64
    → canonizalize input ≡ ok out
    → canonizalize out ≡ ok out
canonizalize_idempotent input out l e =
    canonizalize-canonical (length input + 1) out (canonizalize-IsCanonical input out l e)

-- The tag of every chunk is read from the start of the string: a valid string of a chunk of one
-- byte and a chunk of two bytes, of which the second is not 0xFF, is refused as incomplete.
pub canonizalize-chunk :
    (a b c : ℕ)
    → c ≢ 0xFF
    → canonizalize (0x5F ∷ 0x41 ∷ a ∷ 0x42 ∷ b ∷ c ∷ 0xFF ∷ [])
      ≡ inv_arg (say "invalid CBOR: incomplete chunked bytes/utf8")
unfolding canonizalize canonicalize_int read_tag slice_from get_range bytes_as_u64
canonizalize-chunk a b c h = ground arith
