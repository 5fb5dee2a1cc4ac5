-- ===== src/Types/Cbor.antt =====
-- `cbor_canon` in `rust/src/core/common/types/arb_data.rs`: the canonical form of a CBOR value.
-- Bytes are numbers. The calls return the bytes that the code pushes to `output`, which it does
-- only where a call succeeds. The nesting and the `while` loops take fuel; `canonizalize` gives
-- more than the length of the input, and every call of a value consumes at least its tag.
pub mod Bytes
pub mod Header
pub mod Consumed
pub mod Advances
pub mod Reads
pub mod Fuel
pub mod Written
pub mod Canonical
pub mod Agrees
pub mod Sorting
pub mod Sound
pub mod Complete
pub mod Laws
use dqcsim_rs.Common.{
  ℕ, zero, suc, ◌+◌, ◌-◌, ◌*◌, ◌/◌, ◌%◌, ◌^◌, Bool, true, false, ◌&&◌, ◌||◌, not, Option, none,
  some, List, [], ◌∷◌, ◌++◌, Outcome, ok, err, fault, panicked, out_of_fuel, inv_arg, say, Text,
  and_then, ok_or, ltb, leb, ◌==◌, if◌then◌else◌, length, take, drop, get_elem?,
}

-- The loop of `bytes_as_u64`, on the bytes from `i` on: `value <<= 8; value |= byte`.
unfoldable pub read_bytes : ℕ → List ℕ → ℕ → Outcome ℕ
read_bytes zero input value = ok value
read_bytes (suc n) [] value = inv_arg (say "invalid CBOR: expected additional tag byte")
read_bytes (suc n) (byte ∷ input) value = read_bytes n input ((value * 256 + byte) % 2 ^ 64)

unfoldable pub bytes_as_u64 : List ℕ → ℕ → Outcome ℕ
unfolding read_bytes
bytes_as_u64 input num = read_bytes num input 0

-- `num - i - 1` is the number of bytes after this one.
unfoldable pub u64_as_bytes : ℕ → ℕ → List ℕ
u64_as_bytes input zero = []
u64_as_bytes input (suc n) = (input / 2 ^ (n * 8) % 256) ∷ u64_as_bytes input n

-- The tuple that `read_tag` returns.
pub record Tag : Type 0 where
  pub major : ℕ
  pub minor : ℕ
  pub additional : Option ℕ
  pub tag_len : ℕ

abbrev pub with_bytes : List ℕ → ℕ → Outcome (Option ℕ × ℕ)
with_bytes rest num = and_then (bytes_as_u64 rest num) (λ value. ok (some value, num + 1))

-- The additional information and the length of the tag.
unfoldable pub read_additional : ℕ → List ℕ → Outcome (Option ℕ × ℕ)
read_additional minor rest =
    if leb minor 23
    then ok (some minor, 1)
    else if minor == 24
    then with_bytes rest 1
    else if minor == 25
    then with_bytes rest 2
    else if minor == 26
    then with_bytes rest 4
    else if minor == 27
    then with_bytes rest 8
    else if leb minor 30
    then inv_arg (say "invalid CBOR: reserved minor tag value")
    else ok (none, 1)

unfoldable pub read_tag : List ℕ → Outcome Tag
unfolding read_additional
read_tag [] = inv_arg (say "invalid CBOR: expected tag")
read_tag (initial ∷ rest) =
    if initial == 0xFF
    then inv_arg (say "invalid CBOR: unexpected break")
    else and_then (read_additional (initial % 32) rest) λ (additional, index). ok (record {
      major = initial / 32;
      minor = initial % 32;
      additional = additional;
      tag_len = index;
    })

-- `&input[index..]`, which panics out of range.
unfoldable pub slice_from : List ℕ → ℕ → Outcome (List ℕ)
slice_from input index = if leb index (length input) then ok (drop index input) else fault panicked

-- `input.get(from..to)`.
unfoldable pub get_range : List ℕ → ℕ → ℕ → Option (List ℕ)
get_range input from to =
    if leb from to && leb to (length input) then some (take (to - from) (drop from input)) else none

-- The order of `Vec<u8>`, for the sort of the pairs of a dictionary.
unfoldable pub le_bytes : List ℕ → List ℕ → Bool
le_bytes [] ys = true
le_bytes (x ∷ xs) [] = false
le_bytes (x ∷ xs) (y ∷ ys) = let rest = le_bytes xs ys in if x == y then rest else ltb x y

unfoldable pub insert_sorted : List ℕ → List (List ℕ) → List (List ℕ)
insert_sorted x [] = x ∷ []
insert_sorted x (y ∷ ys) =
    let rest = insert_sorted x ys in if le_bytes x y then x ∷ y ∷ ys else y ∷ rest

-- `content.sort()`, by insertion.
unfoldable pub sort : List (List ℕ) → List (List ℕ)
sort [] = []
sort (x ∷ xs) = insert_sorted x (sort xs)

unfoldable pub flatten : List (List ℕ) → List ℕ
flatten [] = []
flatten (x ∷ xs) = x ++ flatten xs

-- What `match major` yields: `(content, input_len, additional)`.
pub record Contents : Type 0 where
  pub content : List ℕ
  pub input_len : ℕ
  pub additional : ℕ

abbrev pub contents : List ℕ → ℕ → ℕ → Outcome Contents
contents c n a = ok (record { content = c; input_len = n; additional = a })

-- Majors 0, 1 and 7.
abbrev pub scalar : Option ℕ → Outcome Contents
scalar additional =
    and_then (ok_or additional (say "invalid CBOR: indefinite length tag for non-sequence"))
      (λ a. contents [] 0 a)

-- One round of the loop over the chunks of a string, at `index`: the new index and content. The
-- tag is read from the start of `input`. The sum of `index` and the length overflows as in a debug
-- build; a release build wraps, and `get` fails on the range.
unfoldable pub chunk : ℕ → List ℕ → ℕ → List ℕ → Outcome (ℕ × List ℕ)
chunk major input index content = and_then (read_tag input) λ t.
    if not (t.major == major)
    then inv_arg (say "invalid CBOR: illegal non-bytes/utf8 chunk")
    else and_then (ok_or t.additional (say "invalid CBOR: indefinite chunk size")) λ chunk_len.
      let start = index + t.tag_len in
      if leb (2 ^ 64) (start + chunk_len)
      then fault panicked
      else and_then
          (ok_or (get_range input start (start + chunk_len))
            (say "invalid CBOR: incomplete bytes/utf8 chunk"))
          (λ bytes. ok (start + chunk_len, content ++ bytes))

-- `*input.get(index)? != 0xFF`.
abbrev pub at_break : List ℕ → ℕ → Text → Outcome Bool
at_break input index e = and_then (ok_or (get_elem? input index) e) (λ byte. ok (byte == 0xFF))

unfoldable pub chunks : ℕ → ℕ → List ℕ → ℕ → List ℕ → Outcome Contents
chunks zero major input index content = fault out_of_fuel
chunks (suc fuel) major input index content =
    and_then (at_break input index (say "invalid CBOR: incomplete chunked bytes/utf8")) λ stop.
      elim stop [
        | true ↦ contents content (index + 1) (length content)
        | false ↦
            and_then (chunk major input index content)
              (λ (index', content'). chunks fuel major input index' content')
      ]

-- Majors 2 and 3.
unfoldable pub string : ℕ → ℕ → List ℕ → Option ℕ → Outcome Contents
string fuel major input none = chunks fuel major input 0 []
string fuel major input (some content_len) =
    and_then (ok_or (get_range input 0 content_len) (say "invalid CBOR: incomplete bytes/utf8"))
      (λ content. contents content content_len content_len)

-- One call of `canonicalize_int` on `&input[index..]`: the new index and the bytes pushed.
unfoldable pub entry_value : (List ℕ → Outcome (List ℕ × ℕ)) → List ℕ → ℕ → Outcome (ℕ × List ℕ)
entry_value value input index =
    and_then (slice_from input index)
      λ rest. and_then (value rest) λ (bytes, n). ok (index + n, bytes)

-- The two calls for a key and its value, which push to one `pair`.
unfoldable pub entry_pair : (List ℕ → Outcome (List ℕ × ℕ)) → List ℕ → ℕ → Outcome (ℕ × List ℕ)
entry_pair value input index =
    and_then (entry_value value input index)
      λ (index', k). and_then (entry_value value input index') λ (index'', v). ok (index'', k ++ v)

-- What the loops of an array and of a dictionary leave: the entries in order (of which an array
-- keeps the concatenation), and the index behind them.
pub record Entries : Type 0 where
  pub entries : List (List ℕ)
  pub index : ℕ

-- `for _ in 0..count`.
unfoldable pub counted :
    (List ℕ → ℕ → Outcome (ℕ × List ℕ)) → ℕ → List ℕ → ℕ → List (List ℕ) → Outcome Entries
counted entry zero input index content = ok (record { entries = content; index = index })
counted entry (suc count) input index content =
    and_then (entry input index)
      (λ (index', e). counted entry count input index' (content ++ e ∷ []))

-- `while input[index] != 0xFF`, with the step over the break behind it.
unfoldable pub until_break :
    ℕ → (List ℕ → ℕ → Outcome (ℕ × List ℕ)) → Text → List ℕ → ℕ → List (List ℕ) → Outcome Entries
until_break zero entry e input index content = fault out_of_fuel
until_break (suc fuel) entry e input index content = and_then (at_break input index e) λ stop.
    elim stop [
      | true ↦ ok (record { entries = content; index = index + 1 })
      | false ↦
          and_then (entry input index)
            (λ (index', b). until_break fuel entry e input index' (content ++ b ∷ []))
    ]

unfoldable pub sequence :
    ℕ → (List ℕ → ℕ → Outcome (ℕ × List ℕ)) → Text → List ℕ → Option ℕ → Outcome Entries
sequence fuel entry e input none = until_break fuel entry e input 0 []
sequence fuel entry e input (some count) = counted entry count input 0 []

-- Major 4: the number of entries is the count, or what the loop counted.
abbrev pub array : Entries → Outcome Contents
array s = contents (flatten s.entries) s.index (length s.entries)

-- Major 5.
abbrev pub dict : Entries → Outcome Contents
dict s = contents (flatten (sort s.entries)) s.index (length s.entries)

-- `match major`, with `value` for the recursive call.
unfoldable pub contents_of :
    ℕ → (List ℕ → Outcome (List ℕ × ℕ)) → ℕ → Option ℕ → List ℕ → Outcome Contents
contents_of fuel value major additional input =
    if leb major 1 || major == 7
    then scalar additional
    else if leb major 3
    then string fuel major input additional
    else if major == 4
    then and_then
        (sequence fuel (entry_value value) (say "invalid CBOR: incomplete indefinite-length array")
          input additional)
        array
    else if major == 5
    then and_then
        (sequence fuel (entry_pair value) (say "invalid CBOR: incomplete indefinite-length dict")
          input additional)
        dict
    else if major == 6
    then and_then (ok_or additional (say "invalid CBOR: indefinite length tag for semantic tag"))
        (λ a. and_then (value input) (λ (content, len). contents content len a))
    else fault panicked

unfoldable pub shortest : ℕ → ℕ
shortest additional =
    if leb additional 23
    then additional
    else if leb additional 0xFF
    then 24
    else if leb additional 0xFFFF
    then 25
    else if leb additional 0xFFFF_FFFF
    then 26
    else 27

-- The bytes behind the initial byte of a tag.
unfoldable pub tag_bytes : ℕ → ℕ → List ℕ
tag_bytes minor additional =
    if minor == 24
    then u64_as_bytes additional 1
    else if minor == 25
    then u64_as_bytes additional 2
    else if minor == 26
    then u64_as_bytes additional 4
    else if minor == 27
    then u64_as_bytes additional 8
    else []

unfoldable pub write_tag : ℕ → ℕ → ℕ → List ℕ
write_tag major minor additional = (major * 32 + minor) ∷ tag_bytes minor additional

-- The canonicalized value.
unfoldable pub write_value : ℕ → ℕ → Contents → List ℕ
write_value major minor c =
    write_tag major (if major == 7 then minor else shortest c.additional) c.additional ++ c.content

-- The bytes pushed, and the number of bytes read.
unfoldable pub canonicalize_int : ℕ → List ℕ → Outcome (List ℕ × ℕ)
unfolding contents_of string sequence counted until_break chunks chunk
canonicalize_int zero input = fault out_of_fuel
canonicalize_int (suc fuel) input = and_then (read_tag input) λ t.
    and_then (slice_from input t.tag_len) λ rest.
      and_then (contents_of (suc fuel) (canonicalize_int fuel) t.major t.additional rest)
        λ c. ok (write_value t.major t.minor c, t.tag_len + c.input_len)

unfoldable pub canonizalize : List ℕ → Outcome (List ℕ)
canonizalize input = and_then (canonicalize_int (length input + 1) input) λ (output, len).
    if not (len == length input) then inv_arg (say "invalid CBOR: garbage after end") else ok output
