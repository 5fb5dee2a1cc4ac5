-- ===== src/Plugin/Downstream/Fuel.antt =====
-- Handling a message of the downstream plugin ends, and takes nothing from the connection.
use dqcsim_rs.Common.{
  ℕ, ltb, Bool, true, false, ◌≡◌, ◌≢◌, refl, ◌∙◌, ap, List, [], ◌∷◌, length, Option, none, some,
  Outcome, ok, err, fault, panicked, out_of_fuel, ErrorKind, lookup, if◌then◌else◌,
}
use dqcsim_rs.Common.Ends.{Ended, Ends, pass-Ended, >>-Ends, if-Ended}
use dqcsim_rs.Common.Int.{ℤ, pos, pos_part, ltb_ℤ, ◌-ℤ◌}
use dqcsim_rs.Types.Sequence.{SequenceNumber}
use dqcsim_rs.Types.Cycle.{Cycle, Cycles, checked, fits, diff}
use dqcsim_rs.Types.Qubit.{QubitRef}
use dqcsim_rs.Types.Measurement.{QubitMeasurementResult}
use dqcsim_rs.Protocol.{GatestreamUp, measured}
use dqcsim_rs.Plugin.Connection.{Connection, OutgoingMessage, send, transmit}
use dqcsim_rs.Plugin.Connection.Order.{pending}
use dqcsim_rs.Plugin.Connection.Rounds.{fault-injective}
use dqcsim_rs.Plugin.State.{
  PluginState, QubitData, QubitMeasurementData, RandomNumberGenerator, Context, select_rng,
}
use dqcsim_rs.Plugin.Downstream.{
  send_up, send_measured, measure_timer, cache_measurement, propagate, is_operator,
  handle_measurement,
}

-- What is still to be taken from the connection, and the expected measurements.
abbrev pub Waits : {R : Type 0} → ℕ → List (SequenceNumber × List QubitRef) → PluginState R → Type 0
Waits n expected s = (pending s.connection ≡ n) × (s.downstream_expected_measurements ≡ expected)

-- The `modify_measurement` callback keeps to measurements: it takes no message from the connection and
-- leaves the expected measurements alone, as the calls that could change them are refused meanwhile.
abbrev pub IsModest : {R : Type 0} → Context R → Type 0
IsModest {R = R} cx =
    (m : QubitMeasurementResult) (n : ℕ) (expected : List (SequenceNumber × List QubitRef))
    → Ends (Waits {R = R} n expected) (cx.modify_measurement m)

-- Sending leaves alone what comes in.
abbrev Pends : ℕ → Connection → Type 0
Pends n c = pending c ≡ n

transmit-Ended : (m : OutgoingMessage) (c : Connection) → Ended (Pends (pending c)) (transmit m c)
unfolding transmit
transmit-Ended m c = go c.send_results refl
  where
    go :
        (r : List (Option ErrorKind))
        → c.send_results ≡ r
        → Ended (Pends (pending c)) (transmit m c)
    go [] e = rw (e, transmit) (refl, λ e. cc e)
    go (none ∷ rest) e = rw (e, transmit) (refl, λ e. cc e)
    go (some x ∷ rest) e = rw (e, transmit) (refl, λ e. cc e)

send-Ended : (m : OutgoingMessage) (c : Connection) → Ended (Pends (pending c)) (send m c)
unfolding send
send-Ended (OutgoingMessage.simulator m) c = transmit-Ended (OutgoingMessage.simulator m) c
send-Ended (OutgoingMessage.upstream m) c =
    if-Ended (Pends (pending c)) c.has_upstream (transmit (OutgoingMessage.upstream m) c) _
      (transmit-Ended (OutgoingMessage.upstream m) c) (refl, λ e. cc e)
send-Ended (OutgoingMessage.downstream m) c =
    if-Ended (Pends (pending c)) c.has_downstream (transmit (OutgoingMessage.downstream m) c) _
      (transmit-Ended (OutgoingMessage.downstream m) c) (refl, λ e. cc e)

pub checked_lem : (a : ℤ) → checked a ≢ fault out_of_fuel
unfolding checked
checked_lem a = go (fits a)
  where
    go : (b : Bool) → (if b then ok a else fault panicked) ≢ fault out_of_fuel
    go true = λ e. cc e
    go false = λ e. cc e

measure_timer_lem :
    (now : Cycle) (x : Option QubitMeasurementData) → measure_timer now x ≢ fault out_of_fuel
unfolding measure_timer diff
measure_timer_lem now none = λ e. cc e
measure_timer_lem now (some x) =
    go (checked (now -ℤ x.timestamp)) (checked_lem (now -ℤ x.timestamp))
  where
    nonnegative :
        (b : Bool) (delta : ℤ)
        → (if b then fault panicked else ok (some (pos_part delta))) ≢ fault out_of_fuel
    nonnegative true delta = λ e. cc e
    nonnegative false delta = λ e. cc e

    go :
        (r : Outcome ℤ)
        → r ≢ fault out_of_fuel
        → ◌≡◌ {A = Outcome (Option Cycles)}
            (elim r [
              | ok delta ↦
                  if ltb_ℤ delta (pos 0) then fault panicked else ok (some (pos_part delta))
              | err e ↦ err e
              | fault p ↦ fault p
            ])
            (fault out_of_fuel)
        → ⊥
    go (ok delta) h = nonnegative (ltb_ℤ delta (pos 0)) delta
    go (err e) h = λ k. cc k
    go (fault p) h = λ k. h (ap fault (fault-injective k))

module _ {R : Type 0} {n : ℕ} {expected : List (SequenceNumber × List QubitRef)} where
  pub send_up-Ends : (m : GatestreamUp) → Ends (Waits {R = R} n expected) (send_up m)
  unfolding send_up
  send_up-Ends m = record {
    apply = λ s h.
        let t = send-Ended (OutgoingMessage.upstream m) s.connection in ((t.0 ∙ h.0, h.1), t.1);
  }

  pub send_measured-Ends :
      (ms : List QubitMeasurementResult) → Ends (Waits {R = R} n expected) (send_measured ms)
  unfolding send_measured
  send_measured-Ends [] = record { apply = λ s h. (h, λ e. cc e) }
  send_measured-Ends (m ∷ ms) = >>-Ends (send_up-Ends (measured m)) (send_measured-Ends ms)

  pub select_rng-Ends : (index : ℕ) → Ends (Waits {R = R} n expected) (select_rng index)
  unfolding select_rng
  select_rng-Ends index = record { apply = λ s h. go s h s.rng refl }
    where
      go :
          (s : PluginState R)
          → Waits n expected s
          → (g : Option (RandomNumberGenerator R)) → s.rng ≡ g
          → Ended (Waits n expected) (select_rng index s)
      go s h none e = rw (e, select_rng) (h, λ e. cc e)
      go s h (some g) e =
          rw (e, select_rng)
            (if-Ended (Waits n expected) (ltb index (length g.rngs)) _ _ (h, λ e. cc e)
              (h, λ e. cc e))

  cache_measurement-Ends :
      (m : QubitMeasurementResult) (d : QubitData)
      → Ends (Waits {R = R} n expected) (cache_measurement m d)
  unfolding cache_measurement
  cache_measurement-Ends m d = record {
    apply = λ s h.
        go s h (measure_timer s.downstream_cycle_rx d.measurement) refl
          (measure_timer_lem _ d.measurement);
  }
    where
      go :
          (s : PluginState R)
          → Waits n expected s
          → (t : Outcome (Option Cycles)) → measure_timer s.downstream_cycle_rx d.measurement ≡ t
          → t ≢ fault out_of_fuel
          → Ended (Waits n expected) (cache_measurement m d s)
      go s h (ok t) e f = rw (e, cache_measurement) (h, λ e. cc e)
      go s h (err x) e f = rw (e, cache_measurement) (h, λ e. cc e)
      go s h (fault p) e f = rw (e, cache_measurement) (h, λ k. f (ap fault (fault-injective k)))

module _ {R : Type 0} (cx : Context R) (law : IsModest cx) where
  propagate-Ends :
      (n : ℕ) (expected : List (SequenceNumber × List QubitRef)) (m : QubitMeasurementResult)
      → Ends (Waits {R = R} n expected) (propagate cx m)
  unfolding propagate
  propagate-Ends n expected m = record {
    apply = λ s h.
        if-Ended (Waits n expected) (is_operator cx.typ) _ _
          (pass-Ended send_measured (cx.modify_measurement m s) ((law m n expected).apply s h)
            send_measured-Ends)
          (h, λ e. cc e);
  }

  pub handle_measurement-Ends :
      (n : ℕ) (expected : List (SequenceNumber × List QubitRef)) (m : QubitMeasurementResult)
      → Ends (Waits {R = R} n expected) (handle_measurement cx m)
  unfolding handle_measurement
  handle_measurement-Ends n expected m = record {
    apply = λ s h. go s h (lookup m.qubit s.downstream_qubit_data) refl;
  }
    where
      go :
          (s : PluginState R)
          → Waits n expected s
          → (o : Option QubitData) → lookup m.qubit s.downstream_qubit_data ≡ o
          → Ended (Waits n expected) (handle_measurement cx m s)
      go s h none e = rw (e, handle_measurement) (h, λ e. cc e)
      go s h (some d) e =
          rw (e, handle_measurement)
            (pass-Ended (λ _. propagate cx m) (cache_measurement m d s)
              ((cache_measurement-Ends m d).apply s h) (λ _. propagate-Ends n expected m))
