-- ===== src/Types/Qubit/Laws.antt =====
-- Round trips over the foreign representation, and the freshness of allocated references.
use dqcsim_rs.Common.{
  ℕ, zero, suc, ◌+◌, ◌%◌, ◌^◌, ◌≤◌, ◌<◌, ◌≡◌, ◌≢◌, refl, ap, List, ◌++◌, range, All, some, ok,
  arith, All-imp,
}
use dqcsim_rs.Types.Qubit.{
  QubitRef, QubitRefGenerator, from_foreign, to_foreign, option_to_foreign, take_counter, allocate,
  free,
}

-- A foreign number that is turned into an optional reference is turned back into itself, the
-- null value 0 included.
pub option_to_foreign-from_foreign : (n : ℕ) → option_to_foreign (from_foreign n) ≡ ok n
unfolding option_to_foreign from_foreign
option_to_foreign-from_foreign n = ground arith

pub from_foreign-to_foreign : (q : QubitRef) (n : ℕ) → to_foreign q ≡ ok n → from_foreign n ≡ some q
unfolding to_foreign from_foreign
from_foreign-to_foreign q n h = ground arith

take_counter-range :
    (n c : ℕ) → c + n < 2 ^ 64 → ((take_counter n c).0 ≡ range c n) × ((take_counter n c).1 ≡ c + n)
unfolding take_counter
take_counter-range zero c b = (refl, omega arith)
take_counter-range (suc n) c b =
    let e : (c + 1) % 2 ^ 64 ≡ c + 1 = omega arith in
    let ih = take_counter-range n (c + 1) (omega arith) in
    (ground (arith, e, ih), ground (arith, e, ih))

pub allocate-range :
    (g : QubitRefGenerator) (n : ℕ)
    → g.counter + n < 2 ^ 64
    → ((allocate g n).0 ≡ range g.counter n) × ((allocate g n).1.counter ≡ g.counter + n)
unfolding allocate
allocate-range g n b = take_counter-range n g.counter b

pub range_bounds : (c n : ℕ) → All (λ q. (c ≤ q) × (q < c + n)) (range c n)
range_bounds c zero = tt
range_bounds c (suc n) = (
  (omega arith, omega arith),
  All-imp _ (λ q. (c ≤ q) × (q < c + suc n)) (λ q h. (omega arith, omega arith)) _
      (range_bounds (c + 1) n),
)

range-append : (c m n : ℕ) → range c (m + n) ≡ range c m ++ range (c + m) n
range-append c zero n = ground (arith, ap (λ (k : ℕ). range k n) (add_zero' c))
  where
    add_zero' : (c : ℕ) → c ≡ c + 0
    add_zero' c = omega arith
range-append c (suc m) n =
    let e : suc m + n ≡ suc (m + n) = omega arith in
    let e' : c + 1 + m ≡ c + suc m = omega arith in rw (e, range-append (c + 1) m n, e')

-- As long as the counter stays below 2 ^ 64, two allocations, with any references freed between
-- them, hand out the same references as one allocation of both sizes: consecutive ones, starting
-- at the counter, none of them null or below the counter, and so none of them handed out before.
pub allocate-free-allocate :
    (g : QubitRefGenerator) (m n : ℕ) (freed : List QubitRef)
    → 0 < g.counter
    → g.counter + m + n < 2 ^ 64
    → let (first, g') = allocate g m in
      let (second, g'') = allocate (free g' freed) n in
      (first ++ second ≡ (allocate g (m + n)).0)
      × (g'' ≡ (allocate g (m + n)).1)
      × All (λ q. (g.counter ≤ q) × (q < g''.counter) × (q ≢ 0)) (first ++ second)
unfolding free
allocate-free-allocate g m n freed pos b =
    let p = allocate-range g m (omega arith) in
    let q = allocate-range (allocate g m).1 n (omega (arith, p.1)) in
    let r = allocate-range g (m + n) (omega arith) in
    let split : (allocate g m).0 ++ (allocate (allocate g m).1 n).0 ≡ range g.counter (m + n) =
      rw (p.0, q.0, p.1, range-append g.counter m n) in
    let last : (allocate (allocate g m).1 n).1.counter ≡ g.counter + (m + n) =
      omega (arith, p.1, q.1) in
    (
      rw (split, r.0),
      ground (arith, last, r.1),
      rw (split, last)
          (All-imp _ _ (λ x h. (h.0, h.1, (λ e. absurd (omega arith)))) _
            (range_bounds g.counter (m + n))),
    )
