-- ===== src/Types/Cbor/Header.antt =====
-- What `read_tag` reads back of a tag that `canonicalize_int` writes.
use dqcsim_rs.Common.{
  ℕ, ◌+◌, ◌-◌, ◌*◌, ◌%◌, ◌^◌, ◌≤◌, ◌<◌, ◌≡◌, refl, List, ◌++◌, some, ok, arith, length, inl, inr,
  if◌then◌else◌, leb,
}
use dqcsim_rs.Types.Cbor.{
  u64_as_bytes, Tag, read_tag, read_additional, write_tag, tag_bytes, shortest,
}
use dqcsim_rs.Types.Cbor.Bytes.{bytes_as_u64-u64_as_bytes, length-u64_as_bytes}

-- The tag that `read_tag` returns for a value with this major type, minor type and length.
abbrev pub tag : ℕ → ℕ → ℕ → ℕ → Tag
tag major minor a len = record { major = major; minor = minor; additional = some a; tag_len = len }

read_additional-shortest :
    (a : ℕ) (rest : List ℕ)
    → a < 2 ^ 64
    → read_additional (shortest a) (tag_bytes (shortest a) a ++ rest)
      ≡ ok (some a, length (tag_bytes (shortest a) a) + 1)
unfolding shortest tag_bytes read_additional
read_additional-shortest a rest h = ground (
  arith,
  bytes_as_u64-u64_as_bytes a 1 rest (inl refl),
  bytes_as_u64-u64_as_bytes a 2 rest (inr (inl refl)),
  bytes_as_u64-u64_as_bytes a 4 rest (inr (inr (inl refl))),
  bytes_as_u64-u64_as_bytes a 8 rest (inr (inr (inr refl))),
  length-u64_as_bytes a 1,
  length-u64_as_bytes a 2,
  length-u64_as_bytes a 4,
  length-u64_as_bytes a 8,
)

shortest-lt : (a : ℕ) → shortest a < 28
unfolding shortest
shortest-lt a = ground arith

-- A tag in its shortest form is read as it was written.
pub read_tag-write_tag :
    (major a : ℕ) (rest : List ℕ)
    → major ≤ 6
    → a < 2 ^ 64
    → read_tag (write_tag major (shortest a) a ++ rest)
      ≡ ok (tag major (shortest a) a (length (write_tag major (shortest a) a)))
unfolding read_tag write_tag
read_tag-write_tag major a rest m h =
    ground (arith, read_additional-shortest a rest h, shortest-lt a)

-- The number in a tag of major type 7, cut to the bytes that its minor type gives it.
abbrev pub cut : ℕ → ℕ → ℕ
cut minor a = if leb minor 23 then a else a % 2 ^ (2 ^ (minor - 24) * 8)

-- Major type 7 keeps its minor type, so the number is cut to the bytes of the tag.
pub read_tag-write_tag_simple :
    (minor a : ℕ) (rest : List ℕ)
    → minor ≤ 27
    → (minor ≤ 23 → a ≡ minor)
    → read_tag (write_tag 7 minor a ++ rest)
      ≡ ok (tag 7 minor (cut minor a) (length (write_tag 7 minor a)))
unfolding read_tag write_tag tag_bytes read_additional
read_tag-write_tag_simple minor a rest m h = ground (
  arith,
  bytes_as_u64-u64_as_bytes a 1 rest (inl refl),
  bytes_as_u64-u64_as_bytes a 2 rest (inr (inl refl)),
  bytes_as_u64-u64_as_bytes a 4 rest (inr (inr (inl refl))),
  bytes_as_u64-u64_as_bytes a 8 rest (inr (inr (inr refl))),
  length-u64_as_bytes a 1,
  length-u64_as_bytes a 2,
  length-u64_as_bytes a 4,
  length-u64_as_bytes a 8,
)

pub write_tag-cut : (minor a : ℕ) → write_tag 7 minor (cut minor a) ≡ write_tag 7 minor a
unfolding write_tag tag_bytes u64_as_bytes
write_tag-cut minor a = ground arith
