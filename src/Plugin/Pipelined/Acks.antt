-- ===== src/Plugin/Pipelined/Acks.antt =====
-- Handling a pipelined request keeps the order of the acknowledgements.
use dqcsim_rs.Common.{
  subst, ◌<◌, ◌≡◌, refl, List, [], ◌∷◌, ◌++◌, Outcome, ok, err, fault, arith, pass, to_string,
  Bool-cases, inl, inr,
}
use mathlib.Core.List.{append-nil}
use dqcsim_rs.Types.Sequence.{SequenceNumber, get_previous}
use dqcsim_rs.Types.Measurement.{QubitMeasurementResult}
use dqcsim_rs.Protocol.{PipelinedGatestreamDown, GatestreamUp}
use dqcsim_rs.Plugin.State.{enter, PluginState}
use dqcsim_rs.Plugin.Downstream.{is_operator, check_completed_up_to}
use dqcsim_rs.Plugin.Downstream.Completion.{
  CanSend, Rising, send_up_lem, send_measured_lem, sent_up, Postponed,
}
use dqcsim_rs.Plugin.Downstream.Acknowledged.{IsRising, check_completed_up_to-IsRising}
use dqcsim_rs.Plugin.Definition.{PluginDefinition}
use dqcsim_rs.Plugin.Pipelined.{
  pipelined_response, report_failure, postpone_or_send, handle_pipelined,
}

-- The acknowledgements are in order and reach up to `issued`, and the upstream plugin can be reached.
abbrev pub IsReady : {R : Type 0} → SequenceNumber → PluginState R → Type 0
IsReady issued s = IsRising s × (s.upstream_issued_up_to ≡ issued) × CanSend s.connection

-- The response of a callback that came to an end.
abbrev pub IsAnswer : Outcome (Unit {0}) → Type 0
IsAnswer (fault p) = ⊥
IsAnswer _ = Unit

Rising-append :
    (issued issued' low d : SequenceNumber) (ms : List QubitMeasurementResult) (q : Postponed)
    → issued < issued'
    → Rising issued low q
    → Rising issued' low (q ++ (d, issued', ms) ∷ [])
Rising-append issued issued' low d ms [] l r = (omega (arith, r, l), omega arith)
Rising-append issued issued' low d ms ((d', u, ms') ∷ q) l r =
    (r.0, Rising-append issued issued' u d ms q l (r.1))

Rising-issued :
    (issued issued' low : SequenceNumber) (q : Postponed)
    → issued < issued'
    → Rising issued low q
    → Rising issued' low q
Rising-issued issued issued' low [] l r = omega (arith, l, r)
Rising-issued issued issued' low ((d, u, ms) ∷ q) l r =
    (r.0, Rising-issued issued issued' u q l (r.1))

module _ {R : Type 0} (definition : PluginDefinition R) where
  report_failure_lem :
      (sequence : SequenceNumber) (r : Outcome (Unit {0})) (s : PluginState R)
      → IsAnswer r
      → CanSend s.connection
      → (ms : List GatestreamUp) × (report_failure definition sequence r s ≡ (ok tt, sent_up ms s))
  unfolding report_failure
  report_failure_lem sequence (ok u) s a c = ([], ground (arith, append-nil s.connection.outbox))
  report_failure_lem sequence (err e) s a c = (
    GatestreamUp.failure sequence (to_string e) ∷ [],
    send_up_lem (GatestreamUp.failure sequence (to_string e)) s c,
  )
  report_failure_lem sequence (fault p) s a c = absurd a

  -- The new request is recorded, as a postponed one or by its measurements.
  postpone_or_send-IsReady :
      (issued sequence : SequenceNumber) (queued : List QubitMeasurementResult) (s : PluginState R)
      → issued < sequence
      → IsReady issued s
      → let (r, s') =
          postpone_or_send definition sequence queued
            (record s { upstream_issued_up_to = sequence }) in
        (r ≡ ok tt) × IsReady sequence s'
  unfolding postpone_or_send
  postpone_or_send-IsReady issued sequence queued s l h =
      elim (Bool-cases (is_operator definition.typ)) [
        | inl o ↦
            rw (o, postpone_or_send)
              (
                refl,
                (
                  Rising-append issued sequence s.upstream_completed_up_to
                      (get_previous s.downstream_sequence_tx) queued s.upstream_postponed l
                      (subst (λ i. Rising i s.upstream_completed_up_to s.upstream_postponed) (h.1)
                        (h.0)),
                  refl,
                  h.2,
                ),
              )
        | inr o ↦
            rw
              (
                o,
                postpone_or_send,
                send_measured_lem queued (record s { upstream_issued_up_to = sequence }) (h.2),
              )
              (
                refl,
                (
                  Rising-issued issued sequence s.upstream_completed_up_to s.upstream_postponed l (
                      subst (λ i. Rising i s.upstream_completed_up_to s.upstream_postponed) (h.1)
                        (h.0)),
                  refl,
                  record { connected = h.2.connected; open_end = h.2.open_end },
                ),
              )
      ]

  -- The end of `handle_pipelined`.
  finish :
      (sequence : SequenceNumber) (x : Outcome (Unit {0}) × PluginState R)
      → (x.0 ≡ ok tt) × IsReady sequence (x.1)
      → let (r, s') = pass (λ _. check_completed_up_to) x in (r ≡ ok tt) × IsRising s'
  finish sequence x h =
      let c = check_completed_up_to-IsRising (x.1) (h.1.2) (h.1.0) in rw (h.0) (c.0, c.1)

  -- A pipelined request whose number comes after the one issued last is handled to the end, also if its
  -- callback returned an error, and the order of the acknowledgements is kept: all numbers that
  -- still wait are above the one announced, up to the new request's number. The random number
  -- stream can be selected, the callback ended, and left the acknowledgements in order and the
  -- upstream plugin connected.
  pub handle_pipelined-IsRising :
      (issued sequence : SequenceNumber) (message : PipelinedGatestreamDown)
      (s entered t : PluginState R) (response : Outcome (Unit {0}))
      (queued : List QubitMeasurementResult)
      → issued < sequence
      → enter 1 s ≡ (ok tt, entered)
      → pipelined_response definition message entered ≡ ((response, queued), t)
      → IsAnswer response
      → IsReady issued t
      → let (r, s') = handle_pipelined definition sequence message s in (r ≡ ok tt) × IsRising s'
  unfolding handle_pipelined
  handle_pipelined-IsRising issued sequence message s entered t response queued l e p a h =
      let (ms, f) = report_failure_lem sequence response t a (h.2) in
      let ready : IsReady issued (sent_up ms t) =
        (h.0, h.1, record { connected = h.2.connected; open_end = h.2.open_end }) in
      rw (e, p, f)
        (finish sequence _ (postpone_or_send-IsReady issued sequence queued (sent_up ms t) l ready))
