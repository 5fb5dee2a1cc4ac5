-- ===== src/Types/Gate/Controls.antt =====
-- Moving the controls of a matrix to the gate: the indices are those of the original targets, and
-- `Vec::remove` shifts the later ones.
use dqcsim_rs.Common.{
  ℕ, Bool, zero, suc, ◌<◌, ◌≤◌, ◌≡◌, refl, List, [], ◌∷◌, get_elem?, Option, some, none, ok, arith,
  Outcome, ◌∙◌,
}
use dqcsim_rs.Types.Qubit.{QubitRef}
use dqcsim_rs.Types.Matrix.{Matrix, Complex64}
use dqcsim_rs.Types.Matrix.Strip.{strip_control}
use dqcsim_rs.Types.Gate.{Gate, unitary, vec_remove, with_gate_controls}

-- What is left after the item at `i` was removed: the items before it, then those after it.
vec_remove_found :
    (xs : List QubitRef) (i : ℕ) (a : QubitRef)
    → get_elem? xs i ≡ some a
    → (rest : List QubitRef) × (vec_remove xs i ≡ ok (a, rest))
      × ((k : ℕ) → k < i → get_elem? rest k ≡ get_elem? xs k)
      × ((k : ℕ) → i ≤ k → get_elem? rest k ≡ get_elem? xs (suc k))
unfolding vec_remove
vec_remove_found [] i a h = cc
vec_remove_found (x ∷ xs) zero a h =
    (xs, ground arith, (λ k b. absurd (omega arith)), (λ k b. refl))
vec_remove_found (x ∷ xs) (suc i) a h =
    let (rest, e, low, high) = vec_remove_found xs i a h in
    (x ∷ rest, ground arith, below rest low, above rest high)
  where
    below :
        (rest : List QubitRef)
        → ((k : ℕ) → k < i → get_elem? rest k ≡ get_elem? xs k)
        → (k : ℕ) → k < suc i
        → get_elem? (x ∷ rest) k ≡ get_elem? (x ∷ xs) k
    below rest low zero b = refl
    below rest low (suc k) b = low k (omega arith)

    above :
        (rest : List QubitRef)
        → ((k : ℕ) → i ≤ k → get_elem? rest k ≡ get_elem? xs (suc k))
        → (k : ℕ) → suc i ≤ k
        → get_elem? (x ∷ rest) k ≡ get_elem? (x ∷ xs) (suc k)
    above rest high zero b = absurd (omega arith)
    above rest high (suc k) b = high k (omega arith)

-- The controls of the gate that `with_gate_controls` returns.
abbrev pub controls_of : Outcome Gate → Option (List QubitRef)
controls_of (ok g) = some g.controls
controls_of _ = none

-- For a unitary gate with the targets `a`, `b` and `c` at the indices `i` < `j` and `j` + 1, of whose
-- matrix `strip_control` finds the controls `i` and `j`: an iteration of the set that meets `j` first
-- makes `b` and `a` the controls, and one that meets `i` first makes `a` and `c` the controls, since the
-- removal of `a` moves `c` to the index `j`.
pub with_gate_controls_order :
    (far : Matrix → ℕ → Bool) (rephase : Matrix → Complex64 → Complex64)
    (one other : List ℕ → List ℕ) (g : Gate) (m sub : Matrix) (i j : ℕ) (a b c : QubitRef)
    → g.typ ≡ unitary
    → g.matrix ≡ some m
    → strip_control far rephase m ≡ ok (j ∷ i ∷ [], sub)
    → one (j ∷ i ∷ []) ≡ j ∷ i ∷ []
    → other (j ∷ i ∷ []) ≡ i ∷ j ∷ []
    → i < j
    → get_elem? g.targets i ≡ some a
    → get_elem? g.targets j ≡ some b
    → get_elem? g.targets (suc j) ≡ some c
    → (controls_of (with_gate_controls far rephase one g) ≡ some (b ∷ a ∷ []))
      × (controls_of (with_gate_controls far rephase other g) ≡ some (a ∷ c ∷ []))
unfolding with_gate_controls
with_gate_controls_order far rephase one other g m sub i j a b c u v stripped p q h ea eb ec =
    let (r, er, low, _) = vec_remove_found g.targets j b eb in
    let (_, er', _, _) = vec_remove_found r i a (low i h ∙ ea) in
    let (s, es, _, high) = vec_remove_found g.targets i a ea in
    let (_, es', _, _) = vec_remove_found s j c (high j (omega arith) ∙ ec) in
    (rw (u, v, stripped, p, er, er'), rw (u, v, stripped, q, es, es'))
