-- ===== src/Plugin/State.antt =====
-- The data of `rust/src/core/plugin/state.rs`: the random number streams, the measurement cache and
-- `PluginState`. `R` is the type of one ChaCha generator. What the user code of the plugin does is in
-- `Context` and `Definition.PluginDefinition`.
use dqcsim_rs.Common.{
  modify, ◌>>◌, ℕ, zero, suc, ◌-◌, Bool, true, false, ltb, if◌then◌else◌, List, [], ◌∷◌, length,
  Option, none, some, Outcome, ok, fault, panicked, M,
}
use dqcsim_rs.Types.{PluginType}
use dqcsim_rs.Types.Sequence
use dqcsim_rs.Types.Sequence.{SequenceNumber, SequenceNumberGenerator, no_sequence}
use dqcsim_rs.Types.Cycle.{Cycle, Cycles, t_zero}
use dqcsim_rs.Types.Qubit
use dqcsim_rs.Types.Qubit.{QubitRef, QubitRefGenerator}
use dqcsim_rs.Types.Measurement.{QubitMeasurementValue, QubitMeasurementResult}
use dqcsim_rs.Types.Arb.{ArbData}
use dqcsim_rs.Plugin.Connection.{Connection}

pub record RandomNumberGenerator (R : Type 0) : Type 0 where
  pub rngs : List R
  pub selected : ℕ

-- The operations of `ChaChaRng` that are used.
pub record ChaCha (R : Type 0) : Type 0 where
  pub seed_from_u64 : ℕ → R
  pub next_u64 : R → ℕ × R

module _ {R : Type 0} (chacha : ChaCha R) where
  -- `for _ in 1..num_streams`, then the seeding generator itself.
  unfoldable pub seed_streams : ℕ → R → List R
  seed_streams zero rng = rng ∷ []
  seed_streams (suc n) rng =
      let (seed, rng') = chacha.next_u64 rng in chacha.seed_from_u64 seed ∷ seed_streams n rng'

  unfoldable pub new_rng : ℕ → ℕ → RandomNumberGenerator R
  unfolding seed_streams
  new_rng num_streams seed = record {
    rngs = seed_streams (num_streams - 1) (chacha.seed_from_u64 seed);
    selected = 0;
  }

  -- Draws from one of the generators of a list.
  unfoldable pub draw : ℕ → List R → Outcome ℕ × List R
  draw i [] = (fault panicked, [])
  draw zero (r ∷ rs) = let (x, r') = chacha.next_u64 r in (ok x, r' ∷ rs)
  draw (suc i) (r ∷ rs) = let (x, rs') = draw i rs in (x, r ∷ rs')

pub record QubitMeasurementData : Type 0 where
  pub value : QubitMeasurementValue
  pub payload : ArbData
  pub timestamp : Cycle
  pub timer : Option Cycles

pub record QubitData : Type 0 where
  pub measurement : Option QubitMeasurementData
  pub last_mutation : SequenceNumber

pub record PluginState (R : Type 0) : Type 0 where
  pub connection : Connection
  pub inside_run : Bool
  pub synchronized_to_rpcs : Bool
  pub frontend_to_host_data : List ArbData
  pub host_to_frontend_data : List ArbData
  pub rng : Option (RandomNumberGenerator R)
  pub upstream_qubit_ref_generator : QubitRefGenerator
  pub upstream_issued_up_to : SequenceNumber
  pub upstream_postponed : List (SequenceNumber × SequenceNumber × List QubitMeasurementResult)
  pub upstream_completed_up_to : SequenceNumber
  pub downstream_sequence_tx : SequenceNumberGenerator
  pub downstream_sequence_rx : SequenceNumber
  pub downstream_cycle_tx : Cycle
  pub downstream_cycle_rx : Cycle
  pub downstream_qubit_ref_generator : QubitRefGenerator
  pub downstream_qubit_data : List (QubitRef × QubitData)
  pub downstream_measurement_queue : List QubitMeasurementResult
  pub downstream_expected_measurements : List (SequenceNumber × List QubitRef)
  pub aborted : Bool

-- The part of the plugin definition that handling the gatestream uses: the type of the plugin and
-- the `modify_measurement` callback; and `drain`, the order in which a hash set of qubits is drained.
pub record Context (R : Type 0) : Type 0 where
  pub typ : PluginType
  pub modify_measurement : QubitMeasurementResult → M (PluginState R) (List QubitMeasurementResult)
  pub drain : List QubitRef → List QubitRef

-- The state that `PluginState::run` starts with.
unfoldable pub initial : {R : Type 0} → Connection → PluginState R
unfolding Qubit.new Sequence.new
initial connection = record {
  connection = connection;
  inside_run = false;
  synchronized_to_rpcs = true;
  frontend_to_host_data = [];
  host_to_frontend_data = [];
  rng = none;
  upstream_qubit_ref_generator = Qubit.new;
  upstream_issued_up_to = no_sequence;
  upstream_postponed = [];
  upstream_completed_up_to = no_sequence;
  downstream_sequence_tx = Sequence.new;
  downstream_sequence_rx = no_sequence;
  downstream_cycle_tx = t_zero;
  downstream_cycle_rx = t_zero;
  downstream_qubit_ref_generator = Qubit.new;
  downstream_qubit_data = [];
  downstream_measurement_queue = [];
  downstream_expected_measurements = [];
  aborted = false;
}

-- A method of the connection, called by the plugin.
abbrev pub on_connection : {R A : Type 0} → M Connection A → M (PluginState R) A
on_connection m s = let (r, c) = m s.connection in (r, record s { connection = c })

-- `if let Some(ref mut rng) = self.rng { rng.select(index) }`.
unfoldable pub select_rng : {R : Type 0} → ℕ → M (PluginState R) (Unit {0})
select_rng index s = elim s.rng [
  | none ↦ (ok tt, s)
  | some g ↦
      if ltb index (length g.rngs)
      then (ok tt, record s { rng = some (record g { selected = index }) })
      else (fault panicked, s)
]

-- `self.rng.as_ref().map(get_selected).unwrap_or(0)`.
unfoldable pub selected_rng : {R : Type 0} → PluginState R → ℕ
selected_rng s = elim s.rng [ none ↦ 0 | some g ↦ g.selected ]

-- `random_u64`: `expect` panics where the generator is not initialized.
unfoldable pub random_u64 : {R : Type 0} → ChaCha R → M (PluginState R) ℕ
unfolding draw
random_u64 chacha s = elim s.rng [
  | none ↦ (fault panicked, s)
  | some g ↦
      let (x, rs) = draw chacha g.selected g.rngs in
      (x, record s { rng = some (record g { rngs = rs }) })
]

-- `select(0)` or `select(1)`, and back in step with the requests.
unfoldable pub enter : {R : Type 0} → ℕ → M (PluginState R) (Unit {0})
unfolding select_rng
enter stream = select_rng stream >> modify (λ s. record s { synchronized_to_rpcs = true })
