-- ===== src/Plugin/Api/Measurements.antt =====
-- The measurement that user code gets of a qubit, after the wait for the last change of the qubit.
use dqcsim_rs.Common.{
  true, false, ◌≡◌, ◌≢◌, refl, sym, subst, ap, [], ◌∷◌, Option, none, some, Outcome, ok, err, fault,
  out_of_fuel, panicked, inv_arg, lit, num, arith, lookup, pass, ◌⊎◌, inl, inr, Option-cases,
}
use dqcsim_rs.Types.Sequence.{SequenceNumber, acknowledges}
use dqcsim_rs.Types.Qubit.{QubitRef}
use dqcsim_rs.Types.Measurement.{QubitMeasurementResult}
use dqcsim_rs.Plugin.State.{PluginState, QubitData, QubitMeasurementData, Context}
use dqcsim_rs.Plugin.Downstream.{synchronize_downstream_up_to}
use dqcsim_rs.Plugin.Downstream.Fuel.{IsModest}
use dqcsim_rs.Plugin.Downstream.Sync.{Synchronized, synchronize_downstream_up_to-Synchronized}
use dqcsim_rs.Plugin.Api.{is_backend, get_measurement, synced_measurement}
use dqcsim_rs.Plugin.Api.Guards.{blocked, check_call_lem}

-- The latest measurement that a state holds of a qubit.
abbrev pub latest : {R : Type 0} → QubitRef → PluginState R → Option QubitMeasurementData
latest q s = elim (lookup q s.downstream_qubit_data) [ none ↦ none | some d ↦ d.measurement ]

-- What a call that asks for the measurement of a qubit gives, where the qubit was last changed by the
-- request `n`: a result only once that request is acknowledged, and then what is latest at that
-- time; an error if the wait for it fails, with that error, or if nothing was measured by then. Calls
-- are allowed again afterwards, and the wait comes to an end.
abbrev pub IsLatest :
    {R : Type 0}
    → Context R
    → QubitRef
    → SequenceNumber
    → PluginState R
    → Outcome QubitMeasurementResult × PluginState R
    → Type 0
IsLatest cx q n s (ok m, s') =
    (acknowledges s'.downstream_sequence_rx n ≡ true)
    × (s'.synchronized_to_rpcs ≡ true)
    × (m.qubit ≡ q)
    × (stored : QubitMeasurementData) × (latest q s' ≡ some stored)
    × (m.value ≡ stored.value)
    × (m.payload ≡ stored.payload)
IsLatest cx q n s (err e, s') =
    (s'.synchronized_to_rpcs ≡ true)
    × (((synchronize_downstream_up_to cx n s).0 ≡ err e)
        ⊎ (acknowledges s'.downstream_sequence_rx n ≡ true) × (latest q s' ≡ none))
IsLatest cx q n s (fault p, s') =
    (p ≢ out_of_fuel)
    × (((synchronize_downstream_up_to cx n s).0 ≡ fault p)
        ⊎ (lookup q s'.downstream_qubit_data ≡ none))

-- What is read off the state after the wait.
abbrev read_latest :
    {R : Type 0}
    → QubitRef
    → PluginState R
    → Option QubitMeasurementData
    → Outcome QubitMeasurementResult × PluginState R
read_latest q s none = (inv_arg (lit "qubit " ∷ num q ∷ lit " has not been measured yet" ∷ []), s)
read_latest q s (some m) = (ok (record { qubit = q; value = m.value; payload = m.payload }), s)

abbrev read_data :
    {R : Type 0}
    → QubitRef
    → PluginState R
    → Option QubitData
    → Outcome QubitMeasurementResult × PluginState R
read_data q s none = (fault panicked, s)
read_data q s (some d) = read_latest q s d.measurement

abbrev read :
    {R : Type 0}
    → QubitRef
    → Outcome (Unit {0}) × PluginState R
    → Outcome QubitMeasurementResult × PluginState R
read q (ok u, s) = read_data q s (lookup q s.downstream_qubit_data)
read q (err e, s) = (err e, s)
read q (fault p, s) = (fault p, s)

get_measurement_eq :
    {R : Type 0} (cx : Context R) (s : PluginState R) (q : QubitRef) (d : QubitData)
    → blocked cx s ≡ false
    → lookup q s.downstream_qubit_data ≡ some d
    → get_measurement cx q s ≡ read q (synchronize_downstream_up_to cx d.last_mutation s)
unfolding get_measurement synced_measurement
get_measurement_eq {R = R} cx s q d free found = ground (
  arith,
  check_call_lem cx s "get_measurement" free,
  found,
  go (synchronize_downstream_up_to cx d.last_mutation s),
)
  where
    go :
        (x : Outcome (Unit {0}) × PluginState R)
        → pass
            (λ (m : QubitMeasurementData) s'.
              (ok (record { qubit = q; value = m.value; payload = m.payload }), s'))
            (pass
              (λ _ s'. elim (lookup q s'.downstream_qubit_data) [
                | none ↦ (fault panicked, s')
                | some data'' ↦ elim data''.measurement [
                  | some measurement ↦ (ok measurement, s')
                  | none ↦
                      (inv_arg (lit "qubit " ∷ num q ∷ lit " has not been measured yet" ∷ []), s')
                ]
              ])
              x)
          ≡ read q x
    go (err e, t) = refl
    go (fault p, t) = refl
    go (ok u, t) = elim (Option-cases (lookup q t.downstream_qubit_data)) [
      | inl e ↦ ground (arith, e)
      | inr (d', e) ↦ elim (Option-cases d'.measurement) [
        | inl f ↦ ground (arith, e, f)
        | inr (m, f) ↦ ground (arith, e, f)
      ]
    ]

read-IsLatest :
    {R : Type 0} (cx : Context R) (s : PluginState R) (q : QubitRef) (n : SequenceNumber)
    (x : Outcome (Unit {0}) × PluginState R)
    → synchronize_downstream_up_to cx n s ≡ x
    → Synchronized n x
    → IsLatest cx q n s (read q x)
read-IsLatest cx s q n (err e, t) w h = (h, inl (ap (λ y. y.0) w))
read-IsLatest cx s q n (fault p, t) w h = (h, inl (ap (λ y. y.0) w))
read-IsLatest cx s q n (ok u, t) w h = entry (lookup q t.downstream_qubit_data) refl
  where
    found :
        (o : Option QubitMeasurementData) → latest q t ≡ o → IsLatest cx q n s (read_latest q t o)
    found none e = (h.1, inr (h.0, e))
    found (some m) e = (h.0, h.1, refl, m, e, refl, refl)

    entry :
        (o : Option QubitData)
        → lookup q t.downstream_qubit_data ≡ o
        → IsLatest cx q n s (read_data q t o)
    entry none e = ((λ f. cc f), inr e)
    entry (some d) e = found d.measurement (ground (arith, e))

-- In a plugin that may make the call, and whose measurement callback keeps to measurements,
-- `get_measurement` of an allocated qubit waits until the last change of the qubit is acknowledged, and
-- returns the latest measurement that has arrived by then; it never returns an older state of the qubit.
-- It fails only as the wait for the acknowledgement fails, or because there is no measurement by then.
pub get_measurement-IsLatest :
    {R : Type 0} (cx : Context R)
    → IsModest cx
    → (s : PluginState R) (q : QubitRef) (d : QubitData) → is_backend cx.typ ≡ false
    → s.synchronized_to_rpcs ≡ true
    → lookup q s.downstream_qubit_data ≡ some d
    → IsLatest cx q d.last_mutation s (get_measurement cx q s)
get_measurement-IsLatest cx law s q d b sync found =
    let free : blocked cx s ≡ false = ground (arith, b, sync) in
    let waited = synchronize_downstream_up_to-Synchronized cx law d.last_mutation s in
    subst (IsLatest cx q d.last_mutation s) (sym (get_measurement_eq cx s q d free found))
      (read-IsLatest cx s q d.last_mutation _ refl waited)
