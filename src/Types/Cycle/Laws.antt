-- ===== src/Types/Cycle/Laws.antt =====
-- How the operations on cycles undo and bound one another.
use dqcsim_rs.Common.{ℕ, ◌+◌, ◌≤◌, ◌≡◌, true, ok, fault, panicked, arith, ◌⊎◌}
use dqcsim_rs.Common.Int.{pos, ◌≤ℤ◌, ◌+ℤ◌, ◌-ℤ◌}
use dqcsim_rs.Types.Cycle.{
  Cycle, CycleDelta, Cycles, i64_max, fits, add, sub, diff, advance, into_u64,
}

-- Whenever adding an `i64` to a cycle that is not negative succeeds, the difference of the two
-- cycles is that number, taking it away again gives the first cycle back, and the result is not
-- negative.
pub diff-add :
    (c c' : Cycle) (d : CycleDelta)
    → fits c ≡ true
    → fits d ≡ true
    → pos 0 ≤ℤ c
    → add c d ≡ ok c'
    → (diff c' c ≡ ok d) × (sub c' d ≡ ok c) × (pos 0 ≤ℤ c')
unfolding add sub diff ◌+ℤ◌ ◌-ℤ◌
diff-add c c' d hc hd p h = ground arith

-- From a cycle that is not negative `advance` either panics or moves forward by exactly the given
-- number of cycles, and it panics exactly when the sum does not fit.
pub advance_cases :
    (c : ℕ) (n : Cycles)
    → ((c + n ≤ i64_max)
        × (advance (pos c) n ≡ ok (pos (c + n)))
        × (into_u64 (pos (c + n)) ≡ ok (c + n)))
      ⊎ ((i64_max + 1 ≤ c + n) × (advance (pos c) n ≡ fault panicked))
unfolding advance into_u64 ◌+ℤ◌
advance_cases c n = ground arith
