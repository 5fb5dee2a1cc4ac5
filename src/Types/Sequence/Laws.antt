-- ===== src/Types/Sequence/Laws.antt =====
-- The order on sequence numbers, and what a generator hands out over a run of calls.
use dqcsim_rs.Common.{
  ℕ, zero, suc, ◌+◌, ◌%◌, ◌^◌, ◌≤◌, ◌<◌, ◌≡◌, ◌↔◌, refl, true, not, arith, List, [], ◌∷◌, range,
  ◌==◌, ◌&&◌,
}
use dqcsim_rs.Types.Sequence.{
  SequenceNumber, SequenceNumberGenerator, acknowledges, after, preceding, new, get_next,
  get_previous,
}

-- For every pair of sequence numbers exactly one of "`a` acknowledges `b`" and "`b` comes after
-- `a`" holds; and `a` comes after `b` exactly when `a` is not the none value and the number that
-- precedes `a` acknowledges `b`.
pub acknowledges-after :
    (a b : SequenceNumber)
    → (acknowledges a b ≡ not (after b a))
      × (after a b ≡ (not (a == 0) && acknowledges (preceding a) b))
unfolding acknowledges after preceding
acknowledges-after a b = (ground arith, ground arith)

pub after_iff : (a b : SequenceNumber) → (after a b ≡ true) ↔ (b < a)
unfolding after
after_iff a b = ground arith

pub acknowledges_iff : (a b : SequenceNumber) → (acknowledges a b ≡ true) ↔ (b ≤ a)
unfolding acknowledges
acknowledges_iff a b = ground arith

pub preceding-lt : (a b : SequenceNumber) → 0 < a → b ≤ preceding a → b < a
unfolding preceding
preceding-lt a b h k = ground arith

pub preceding-suc : (a : SequenceNumber) → preceding (suc a) ≡ a
unfolding preceding
preceding-suc a = ground arith

-- The counter is one ahead of the number that was handed out last.
abbrev pub IsAhead : SequenceNumberGenerator → Type 0
IsAhead g = g.counter ≡ (g.previous + 1) % 2 ^ 64

pub get_next-IsAhead : (g : SequenceNumberGenerator) → IsAhead g → IsAhead (get_next g).1
unfolding get_next
get_next-IsAhead g h = refl

-- The numbers that `n` calls of `get_next` return, and the generator after them.
abbrev pub get_many : ℕ → SequenceNumberGenerator → List SequenceNumber × SequenceNumberGenerator
get_many zero g = ([], g)
get_many (suc n) g = let (s, g') = get_next g in let (rest, g'') = get_many n g' in (s ∷ rest, g'')

get_many-range :
    (n : ℕ) (g : SequenceNumberGenerator)
    → IsAhead g
    → g.previous + n < 2 ^ 64
    → ((get_many n g).0 ≡ range (g.previous + 1) n)
      × (get_previous (get_many n g).1 ≡ g.previous + n)
unfolding get_next
get_many-range zero g h b = (refl, omega arith)
get_many-range (suc n) g h b =
    let e : g.counter ≡ g.previous + 1 = omega arith in
    let ih = get_many-range n (get_next g).1 refl (omega arith) in
    (ground (arith, e, ih), ground (arith, e, ih))

-- The first `n` calls of `get_next` on a new generator return 1, 2, ..., `n` in this order, and
-- `get_previous` then returns `n`; this needs `n` below 2 ^ 64, where the counter would wrap.
pub get_next-new :
    (n : ℕ) → n < 2 ^ 64 → ((get_many n new).0 ≡ range 1 n) × (get_previous (get_many n new).1 ≡ n)
unfolding new
get_next-new n b = let (l, p) = get_many-range n new refl (omega arith) in (l, omega (arith, p))
