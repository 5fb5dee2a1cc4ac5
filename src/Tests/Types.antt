-- ===== src/Tests/Types.antt =====
-- The properties of `rust/src/core/common/types` at concrete inputs.
use dqcsim_rs.Common.{
  ℕ, Bool, range, reverse, map, ◌==◌, if◌then◌else◌, ◌<◌, ◌≤◌, ◌≡◌, ◌≢◌, refl, arith, List, [], ◌∷◌,
  ◌++◌, All, ok, true, some, insert, contains,
}
use dqcsim_rs.Common.Int.{pos, ◌+ℤ◌}
use dqcsim_rs.Types.Qubit.{allocate, free}
use dqcsim_rs.Types.Qubit.Laws.{allocate-free-allocate}
use dqcsim_rs.Types.Cycle.{add}
use dqcsim_rs.Types.Arb.{no_data}
use dqcsim_rs.Types.Matrix
use dqcsim_rs.Types.Matrix.{Matrix, Complex64}
use dqcsim_rs.Types.Matrix.Strip.{strip_control}
use dqcsim_rs.Types.Gate.{Gate, unitary, check_unique, new_unitary, with_gate_controls, sized_for}
use dqcsim_rs.Types.Gate.Controls.{controls_of, with_gate_controls_order}

allocate-free-allocate_example :
    let (first, g') = allocate (record { counter = 1 }) 2 in
    let (second, g'') = allocate (free g' (1 ∷ [])) 3 in
    (first ++ second ≡ (allocate (record { counter = 1 }) 5).0)
    × (g'' ≡ (allocate (record { counter = 1 }) 5).1)
    × All (λ q. (1 ≤ q) × (q < g''.counter) × (q ≢ 0)) (first ++ second)
allocate-free-allocate_example =
    allocate-free-allocate (record { counter = 1 }) 2 3 (1 ∷ []) (omega arith) (omega arith)

add_example : add (pos 3) (pos 4) ≡ ok (pos 7)
unfolding add ◌+ℤ◌
add_example = refl

-- The Toffoli gate: the columns 6 and 7 of the identity are swapped. 4607182418800017408 is the bit
-- pattern of 1.0.
abbrev toffoli : Matrix
toffoli = record {
  elements =
      map (λ k. record { re = if contains diagonal k then 4607182418800017408 else 0; im = 0 })
        (range 0 64);
  dimension = 8;
}
  where
    diagonal : List ℕ
    diagonal = 0 ∷ 9 ∷ 18 ∷ 27 ∷ 36 ∷ 45 ∷ 55 ∷ 62 ∷ []

abbrev three : Gate
three = record {
  typ = unitary;
  targets = 4 ∷ 5 ∷ 6 ∷ [];
  controls = [];
  measures = [];
  matrix = some toffoli;
  payload = no_data;
}

-- The Pauli X gate, which is what is left of it.
abbrev swapping : Matrix
swapping = record {
  elements =
      record { re = 0; im = 0 }
      ∷ record { re = 4607182418800017408; im = 0 }
      ∷ record { re = 4607182418800017408; im = 0 }
      ∷ record { re = 0; im = 0 }
      ∷ [];
  dimension = 2;
}

abbrev far_six : Matrix → ℕ → Bool
far_six m i = i == 6

toffoli_stripped : strip_control far_six (λ m z. z) toffoli ≡ ok (1 ∷ 0 ∷ [], swapping)
unfolding strip_control contains Matrix.num_qubits Matrix.new
toffoli_stripped = refl

with_gate_controls_order_example :
    (controls_of (with_gate_controls far_six (λ m z. z) (λ set. set) three) ≡ some (5 ∷ 4 ∷ []))
    × (controls_of (with_gate_controls far_six (λ m z. z) reverse three) ≡ some (4 ∷ 6 ∷ []))
with_gate_controls_order_example =
    with_gate_controls_order far_six (λ m z. z) (λ set. set) reverse three toffoli swapping 0 1 4 5
      6 refl refl toffoli_stripped refl refl (omega arith) refl refl refl

-- The identity on one qubit; 4607182418800017408 is the bit pattern of 1.0.
abbrev identity : List Complex64
identity =
    record { re = 4607182418800017408; im = 0 }
    ∷ record { re = 0; im = 0 }
    ∷ record { re = 0; im = 0 }
    ∷ record { re = 4607182418800017408; im = 0 }
    ∷ []

abbrev controlled : Gate
controlled = record {
  typ = unitary;
  targets = 1 ∷ [];
  controls = 2 ∷ [];
  measures = [];
  matrix = some (record { elements = identity; dimension = 2 });
  payload = no_data;
}

controlled_lem : new_unitary (λ _. true) (1 ∷ []) (2 ∷ []) identity ≡ ok controlled
unfolding new_unitary Matrix.new Matrix.num_qubits sized_for check_unique insert contains
controlled_lem = refl
