-- ===== src/Types/Cycle.antt =====
-- `rust/src/core/common/types/cycle.rs`. A cycle is an `i64`; an operation that would leave the
-- range of `i64` panics, and so does one that would make a cycle negative.
pub mod Laws
use dqcsim_rs.Common.{
  ℕ, ◌-◌, ◌^◌, Bool, ◌&&◌, leb, if◌then◌else◌, Outcome, ok, fault, panicked, and_then,
}
use dqcsim_rs.Common.Int.{ℤ, pos, pos_part, negsuc, leb_ℤ, ◌+ℤ◌, ◌-ℤ◌}

abbrev pub Cycle : Type 0
Cycle = ℤ

abbrev pub CycleDelta : Type 0
CycleDelta = ℤ

abbrev pub Cycles : Type 0
Cycles = ℕ

abbrev pub i64_max : ℕ
i64_max = 2 ^ 63 - 1

-- Whether an integer is an `i64`.
abbrev pub fits : ℤ → Bool
fits a = leb_ℤ (negsuc i64_max) a && leb_ℤ a (pos i64_max)

-- `checked_add(..).expect(..)` and `checked_sub(..).expect(..)`.
unfoldable pub checked : ℤ → Outcome ℤ
checked a = if fits a then ok a else fault panicked

-- `assert!(c >= 0)`.
unfoldable pub nonnegative : ℤ → Outcome Cycle
nonnegative c = if leb_ℤ (pos 0) c then ok c else fault panicked

unfoldable pub add : Cycle → CycleDelta → Outcome Cycle
unfolding checked nonnegative
add self other = and_then (checked (self +ℤ other)) nonnegative

unfoldable pub sub : Cycle → CycleDelta → Outcome Cycle
unfolding checked nonnegative
sub self other = and_then (checked (self -ℤ other)) nonnegative

unfoldable pub diff : Cycle → Cycle → Outcome CycleDelta
unfolding checked
diff self other = checked (self -ℤ other)

abbrev pub t_zero : Cycle
t_zero = pos 0

unfoldable pub advance : Cycle → Cycles → Outcome Cycle
unfolding checked
advance self cycles = if leb cycles i64_max then checked (self +ℤ pos cycles) else fault panicked

unfoldable pub into_u64 : Cycle → Outcome ℕ
unfolding nonnegative
into_u64 self = and_then (nonnegative self) (λ c. ok (pos_part c))
