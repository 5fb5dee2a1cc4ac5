-- ===== src/Plugin/Downstream/Expected.antt =====
-- The queue of gates that wait for measurements: after a completion number, no gate that it covers
-- waits at the front, and the loops end.
use dqcsim_rs.Common.{
  ℕ, zero, suc, ◌+◌, ◌<◌, ◌≡◌, ◌≢◌, refl, ap, List, [], ◌∷◌, length, Option, none, some, Outcome,
  ok, err, fault, out_of_fuel, arith, pass, lookup, if◌then◌else◌, Bool-cases, inl, inr,
}
use dqcsim_rs.Common.Ends.{Ended, Ends, pass-Ended}
use dqcsim_rs.Types.Sequence.{SequenceNumber, acknowledges}
use dqcsim_rs.Types.Qubit.{QubitRef}
use dqcsim_rs.Types.Measurement.{QubitMeasurementResult, undefined}
use dqcsim_rs.Types.Arb.{no_data}
use dqcsim_rs.Plugin.Connection.Order.{pending}
use dqcsim_rs.Plugin.State.{PluginState, QubitData, Context}
use dqcsim_rs.Plugin.Downstream.{handle_measurement, fabricate, fabricate_missing, check_missing}
use dqcsim_rs.Plugin.Downstream.Fuel.{Waits, IsModest, handle_measurement-Ends}

abbrev pub Expectations : Type 0
Expectations = List (SequenceNumber × List QubitRef)

-- The gates that still wait, once the downstream plugin has completed up to a number.
abbrev pub waiting : SequenceNumber → Expectations → Expectations
waiting sequence [] = []
waiting sequence ((number, qubits) ∷ rest) =
    if acknowledges sequence number then waiting sequence rest else (number, qubits) ∷ rest

-- How `check_missing` ends: `n` messages are still to be taken, and if it succeeds the expected
-- measurements are `expected`.
abbrev pub Settles : {R : Type 0} → ℕ → Expectations → Outcome (Unit {0}) × PluginState R → Type 0
Settles n expected (ok _, s) = Waits n expected s
Settles n expected (err e, s) = pending s.connection ≡ n
Settles n expected (fault p, s) = (pending s.connection ≡ n) × (p ≢ out_of_fuel)

module _ {R : Type 0} (cx : Context R) (law : IsModest cx) where
  fabricate-Ends :
      (n : ℕ) (expected : Expectations) (qubits : List QubitRef)
      → Ends (Waits {R = R} n expected) (fabricate cx qubits)
  unfolding fabricate
  fabricate-Ends n expected [] = record { apply = λ s h. (h, λ e. cc e) }
  fabricate-Ends n expected (q ∷ qs) = record {
    apply = λ s h. go s h (lookup q s.downstream_qubit_data) refl (fabricate-Ends n expected qs);
  }
    where
      go :
          (s : PluginState R)
          → Waits n expected s
          → (o : Option QubitData) → lookup q s.downstream_qubit_data ≡ o
          → Ends (Waits {R = R} n expected) (fabricate cx qs)
          → Ended (Waits n expected) (fabricate cx (q ∷ qs) s)
      go s h none e ih = rw (e, fabricate) (ih.apply s h)
      go s h (some d) e ih =
          let m : QubitMeasurementResult = record {
            qubit = q;
            value = undefined;
            payload = no_data;
          } in
          rw (e, fabricate)
            (pass-Ended (λ _. fabricate cx qs) (handle_measurement cx m s)
              ((handle_measurement-Ends cx law n expected m).apply s h) (λ _. ih))

  -- The step of the loop, for the way that the measurements of one gate were made up.
  settle_on :
      (n fuel : ℕ) (sequence : SequenceNumber) (rest : Expectations)
      (x : Outcome (Unit {0}) × PluginState R)
      → Ended (Waits n rest) x
      → ((s : PluginState R)
          → Waits n rest s
          → Settles n (waiting sequence rest) (fabricate_missing cx fuel sequence s))
      → Settles n (waiting sequence rest) (pass (λ _. fabricate_missing cx fuel sequence) x)
  settle_on n fuel sequence rest (ok u, s) h ih = ih s (h.0)
  settle_on n fuel sequence rest (err e, s) h ih = h.0.0
  settle_on n fuel sequence rest (fault p, s) h ih = (h.0.0, λ e. h.1 (ap fault e))

  fabricate_missing-Settles :
      (n fuel : ℕ) (sequence : SequenceNumber) (expected : Expectations) (s : PluginState R)
      → length expected < fuel
      → Waits n expected s
      → Settles n (waiting sequence expected) (fabricate_missing cx fuel sequence s)
  unfolding fabricate_missing
  fabricate_missing-Settles n zero sequence expected s l h = absurd (omega arith)
  fabricate_missing-Settles n (suc fuel) sequence [] s l h = rw (h.1, fabricate_missing) h
  fabricate_missing-Settles n (suc fuel) sequence ((number, qubits) ∷ rest) s l h =
      elim (Bool-cases (acknowledges sequence number)) [
        | inr a ↦ rw (h.1, a, fabricate_missing) h
        | inl a ↦
            rw (h.1, a, fabricate_missing)
              (settle_on n fuel sequence rest _
                ((fabricate-Ends n rest (cx.drain qubits)).apply
                  (record s { downstream_expected_measurements = rest }) (h.0, refl))
                (λ s' h'. fabricate_missing-Settles n fuel sequence rest s' (omega arith) h'))
      ]

  -- If the `modify_measurement` callback keeps to measurements and never runs for ever, then the loop that
  -- makes up missing measurements ends; where it succeeds, exactly the gates from the front of the
  -- queue are gone that the completion number covers, and in no case a message is taken from the
  -- connection.
  pub check_missing-Settles :
      (sequence : SequenceNumber) (s : PluginState R)
      → Settles
          (pending s.connection)
          (waiting sequence s.downstream_expected_measurements)
          (check_missing cx sequence s)
  unfolding check_missing
  check_missing-Settles sequence s =
      fabricate_missing-Settles (pending s.connection)
        (length s.downstream_expected_measurements + 1) sequence s.downstream_expected_measurements
        s (omega arith) (refl, refl)
