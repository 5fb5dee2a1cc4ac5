-- ===== src/Types/Sequence.antt =====
-- `rust/src/core/common/types/sequence_number.rs`. A sequence number is a `u64`; `RangeFrom<u64>`
-- counts up and wraps at 2 ^ 64.
pub mod Laws
use dqcsim_rs.Common.{ℕ, ◌+◌, ◌-◌, ◌%◌, ◌^◌, Bool, ltb, leb, ◌==◌, if◌then◌else◌}

abbrev pub SequenceNumber : Type 0
SequenceNumber = ℕ

unfoldable pub acknowledges : SequenceNumber → SequenceNumber → Bool
acknowledges self other = leb other self

unfoldable pub after : SequenceNumber → SequenceNumber → Bool
after self other = ltb other self

unfoldable pub preceding : SequenceNumber → SequenceNumber
preceding self = if self == 0 then 0 else self - 1

abbrev pub no_sequence : SequenceNumber
no_sequence = 0

pub record SequenceNumberGenerator : Type 0 where
  pub counter : ℕ
  pub previous : SequenceNumber

unfoldable pub new : SequenceNumberGenerator
new = record { counter = 1; previous = no_sequence }

unfoldable pub get_next : SequenceNumberGenerator → SequenceNumber × SequenceNumberGenerator
get_next g =
    let next = g.counter in (next, record g { counter = (g.counter + 1) % 2 ^ 64; previous = next })

abbrev pub get_previous : SequenceNumberGenerator → SequenceNumber
get_previous g = g.previous
