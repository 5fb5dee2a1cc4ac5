-- ===== src/Plugin/Downstream/Handling.antt =====
-- Handling any message of the downstream plugin ends and leaves the incoming messages alone.
use dqcsim_rs.Common.{
  ℕ, leb, subst, Bool, true, false, ◌≡◌, ◌≢◌, refl, ap, List, [], ◌∷◌, Option, none, some, Outcome,
  ok, err, fault, panicked, out_of_fuel, if◌then◌else◌, M,
}
use dqcsim_rs.Common.Ends.{Ended, Ends, pass-Ended, >>-Ends, if-Ended}
use dqcsim_rs.Common.Int.{pos, ◌+ℤ◌}
use dqcsim_rs.Types.Sequence.{SequenceNumber, acknowledges, after}
use dqcsim_rs.Types.Cycle.{Cycle, Cycles, checked, i64_max, advance}
use dqcsim_rs.Types.Measurement.{QubitMeasurementResult}
use dqcsim_rs.Protocol.{
  GatestreamUp, completed_up_to, failure, measured, advanced, arb_success, arb_failure,
}
use dqcsim_rs.Plugin.Connection.Order.{pending}
use dqcsim_rs.Plugin.Connection.Rounds.{fault-injective}
use dqcsim_rs.Plugin.State.{PluginState, Context}
use dqcsim_rs.Plugin.Downstream.{
  check_missing, check_measurements, pop_expected, expects, front_done, flush_postponed, completion,
  acknowledge, check_completed_up_to, received_downstream_sequence, dispatch_downstream,
  handle_downstream_message,
}
use dqcsim_rs.Plugin.Downstream.Fuel.{
  Waits, IsModest, handle_measurement-Ends, send_up-Ends, send_measured-Ends, select_rng-Ends,
  checked_lem,
}
use dqcsim_rs.Plugin.Downstream.Expected.{Expectations, waiting, Settles, check_missing-Settles}

-- So many messages are still to be taken.
abbrev pub Rests : {R : Type 0} → ℕ → PluginState R → Type 0
Rests n s = pending s.connection ≡ n

-- What keeps the expected measurements too.
Rests-Ends :
    {R A : Type 0} {n : ℕ} {m : M (PluginState R) A}
    → ((expected : Expectations) → Ends (Waits n expected) m)
    → Ends (Rests n) m
Rests-Ends h = record {
  apply = λ s e. let t = (h s.downstream_expected_measurements).apply s (e, refl) in (t.0.0, t.1);
}

module _ {R : Type 0} {n : ℕ} where
  flush_postponed-Ends :
      (q : List (SequenceNumber × SequenceNumber × List QubitMeasurementResult))
      → Ends (Rests {R = R} n) (flush_postponed q)
  unfolding flush_postponed
  flush_postponed-Ends [] = record { apply = λ s h. (h, λ e. cc e) }
  flush_postponed-Ends ((d, u, ms) ∷ rest) = record {
    apply = λ s h.
        if-Ended (Rests n) (acknowledges s.downstream_sequence_rx d) _ _
          (pass-Ended (λ _. flush_postponed rest) _
            ((Rests-Ends (λ expected. send_measured-Ends ms)).apply
              (record s { upstream_postponed = rest }) h)
            (λ _. flush_postponed-Ends rest))
          (h, λ e. cc e);
  }

  acknowledge-Ends : (completed : SequenceNumber) → Ends (Rests {R = R} n) (acknowledge completed)
  unfolding acknowledge
  acknowledge-Ends completed = record {
    apply = λ s h.
        if-Ended (Rests n) (after completed s.upstream_completed_up_to) _ _
          (pass-Ended {R = Rests {R = R} n}
            (λ _ s'. (ok tt, record s' { upstream_completed_up_to = completed })) _
            ((Rests-Ends (λ expected. send_up-Ends (completed_up_to completed))).apply s h)
            (λ _. record { apply = λ s h. (h, λ e. cc e) }))
          (h, λ e. cc e);
  }

  pub check_completed_up_to-Ends : Ends (Rests {R = R} n) check_completed_up_to
  unfolding check_completed_up_to
  check_completed_up_to-Ends = record {
    apply = λ s h.
        pass-Ended
          (λ _ s'. acknowledge (completion s.upstream_issued_up_to s'.upstream_postponed) s') _
          ((flush_postponed-Ends s.upstream_postponed).apply s h)
          (λ _. record { apply = λ s' h'. (acknowledge-Ends _).apply s' h' });
  }

-- The cycle counter panics at the end of its range.
advance_lem : (now : Cycle) (cycles : Cycles) → advance now cycles ≢ fault out_of_fuel
unfolding advance
advance_lem now cycles = go (leb cycles i64_max)
  where
    go :
        (b : Bool) → (if b then checked (now +ℤ pos cycles) else fault panicked) ≢ fault out_of_fuel
    go true = checked_lem (now +ℤ pos cycles)
    go false = λ e. cc e

module _ {R : Type 0} (cx : Context R) (law : IsModest cx) {n : ℕ} where
  pop_expected-Ends : (b : Bool) → Ends (Rests {R = R} n) (pop_expected cx b)
  unfolding pop_expected
  pop_expected-Ends false = record { apply = λ s h. (h, λ e. cc e) }
  pop_expected-Ends true = record { apply = λ s h. go s h s.downstream_expected_measurements refl }
    where
      go :
          (s : PluginState R)
          → Rests n s
          → (q : Expectations) → s.downstream_expected_measurements ≡ q
          → Ended (Rests n) (pop_expected cx true s)
      go s h [] e = rw (e, pop_expected) (h, λ e. cc e)
      go s h (x ∷ q) e = rw (e, pop_expected) (h, λ e. cc e)

  check_measurements-Ends :
      (sequence : SequenceNumber) (ms : List QubitMeasurementResult)
      → Ends (Rests {R = R} n) (check_measurements cx sequence ms)
  unfolding check_measurements
  check_measurements-Ends sequence [] = record { apply = λ s h. (h, λ e. cc e) }
  check_measurements-Ends sequence (m ∷ ms) = record {
    apply = λ s h.
        go s h (expects cx sequence m.qubit s.downstream_expected_measurements) refl
          (check_measurements-Ends sequence ms);
  }
    where
      go :
          (s : PluginState R)
          → Rests n s
          → (o : Option Expectations)
          → expects cx sequence m.qubit s.downstream_expected_measurements ≡ o
          → Ends (Rests n) (check_measurements cx sequence ms)
          → Ended (Rests n) (check_measurements cx sequence (m ∷ ms) s)
      go s h none e ih = rw (e, check_measurements) (ih.apply s h)
      go s h (some q) e ih =
          rw (e, check_measurements)
            (pass-Ended (λ _. check_measurements cx sequence ms) _
              (pass-Ended (λ _. pop_expected cx (front_done cx q)) _
                ((Rests-Ends (λ expected. handle_measurement-Ends cx law n expected m)).apply
                  (record s { downstream_expected_measurements = q }) h)
                (λ _. pop_expected-Ends (front_done cx q)))
              (λ _. ih))

  Settles-Ended :
      (expected : Expectations) (x : Outcome (Unit {0}) × PluginState R)
      → Settles n expected x
      → Ended (Rests n) x
  Settles-Ended expected (ok u, s) h = (h.0, λ e. cc e)
  Settles-Ended expected (err e, s) h = (h, λ e. cc e)
  Settles-Ended expected (fault p, s) h = (h.0, λ e. h.1 (fault-injective e))

  check_missing-Ends :
      (sequence : SequenceNumber) → Ends (Rests {R = R} n) (check_missing cx sequence)
  check_missing-Ends sequence = record {
    apply = λ s h. Settles-Ended (waiting sequence s.downstream_expected_measurements) _ (
        subst
          (λ k.
            Settles k (waiting sequence s.downstream_expected_measurements)
              (check_missing cx sequence s))
          h (check_missing-Settles cx law sequence s));
  }

  dispatch_downstream-Ends : (m : GatestreamUp) → Ends (Rests {R = R} n) (dispatch_downstream cx m)
  unfolding dispatch_downstream received_downstream_sequence
  dispatch_downstream-Ends (completed_up_to sequence) = record {
    apply = λ s h.
        (>>-Ends
            (>>-Ends (check_measurements-Ends sequence s.downstream_measurement_queue)
              (check_missing-Ends sequence))
            check_completed_up_to-Ends).apply
          (record s { downstream_sequence_rx = sequence; downstream_measurement_queue = [] }) h;
  }
  dispatch_downstream-Ends (failure sequence message) = record { apply = λ s h. (h, λ e. cc e) }
  dispatch_downstream-Ends (measured m) = record { apply = λ s h. (h, λ e. cc e) }
  dispatch_downstream-Ends (advanced cycles) = record {
    apply = λ s h.
        go s h (advance s.downstream_cycle_rx cycles) refl
          (advance_lem s.downstream_cycle_rx cycles);
  }
    where
      go :
          (s : PluginState R)
          → Rests n s
          → (r : Outcome Cycle) → advance s.downstream_cycle_rx cycles ≡ r
          → r ≢ fault out_of_fuel
          → Ended (Rests n) (dispatch_downstream cx (advanced cycles) s)
      go s h (ok c) e f = rw (e, dispatch_downstream) (h, λ e. cc e)
      go s h (err x) e f = rw (e, dispatch_downstream) (h, λ e. cc e)
      go s h (fault p) e f = rw (e, dispatch_downstream) (h, λ k. f (ap fault (fault-injective k)))
  dispatch_downstream-Ends (arb_success x) = record { apply = λ s h. (h, λ e. cc e) }
  dispatch_downstream-Ends (arb_failure e) = record { apply = λ s h. (h, λ e. cc e) }

  pub handle_downstream_message-Ends :
      (m : GatestreamUp) → Ends (Rests {R = R} n) (handle_downstream_message cx m)
  unfolding handle_downstream_message
  handle_downstream_message-Ends m =
      >>-Ends
        (>>-Ends (Rests-Ends (λ expected. select_rng-Ends 2))
          (record { apply = λ s h. (h, λ e. cc e) }))
        (dispatch_downstream-Ends m)
