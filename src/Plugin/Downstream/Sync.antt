-- ===== src/Plugin/Downstream/Sync.antt =====
-- Waiting for the downstream plugin ends, and has what it waited for.
use dqcsim_rs.Common.{
  ℕ, ltb, zero, suc, ◌+◌, ◌≤◌, ◌<◌, Bool, true, false, ◌≡◌, ◌≢◌, refl, ap, List, [], ◌∷◌, ◌++◌,
  length, length-append, Option, none, some, Outcome, ok, err, fault, panicked, out_of_fuel, arith,
  pass, if◌then◌else◌, Bool-cases, inl, inr, other_err, say,
}
use dqcsim_rs.Common.Ends.{Ended}
use dqcsim_rs.Types.Sequence.{SequenceNumber, acknowledges, after}
use dqcsim_rs.Types.Sequence.Laws.{acknowledges-after}
use dqcsim_rs.Plugin.Connection.{
  Connection, IncomingMessage, Selection, selected, failed, next_downstream_request,
}
use dqcsim_rs.Plugin.Connection.Buffer.{coming_events}
use dqcsim_rs.Plugin.Connection.Order.{
  pending, Searched, TakenFrom, next_downstream_request-Searched,
}
use dqcsim_rs.Plugin.State.{PluginState, RandomNumberGenerator, Context, select_rng, selected_rng}
use dqcsim_rs.Plugin.Downstream.{
  handle_downstream_message, receive_up_to, restore, synchronize_downstream_up_to, events_left,
  pending_messages,
}
use dqcsim_rs.Plugin.Downstream.Fuel.{IsModest}
use dqcsim_rs.Plugin.Downstream.Handling.{Rests, handle_downstream_message-Ends}

-- A call that succeeds has seen a completion number that reaches `num`; none runs out of fuel.
abbrev pub Reaches : {R : Type 0} → SequenceNumber → Outcome (Unit {0}) × PluginState R → Type 0
Reaches num (ok _, s) = after num s.downstream_sequence_rx ≡ false
Reaches num (err e, s) = Unit
Reaches num (fault p, s) = p ≢ out_of_fuel

-- A message that was taken makes one less to come.
taken-lt :
    (c c' : Connection) (arrived : List IncomingMessage) (m : IncomingMessage)
    → TakenFrom (c.incoming_buffer ++ arrived) m c'.incoming_buffer
    → length arrived + coming_events c'.incoming ≤ coming_events c.incoming
    → pending c' < pending c
taken-lt c c' arrived m t b = omega (
  arith,
  b,
  length-append c.incoming_buffer arrived,
  length-append t.before (m ∷ t.behind),
  length-append t.before t.behind,
  ap length t.queue_eq,
  ap length t.rest_eq,
)

module _ {R : Type 0} (cx : Context R) (law : IsModest cx) where
  -- The rest of a round, after its message was handled.
  go_on :
      (n fuel : ℕ) (num : SequenceNumber) (x : Outcome (Unit {0}) × PluginState R)
      → Ended (Rests n) x
      → n < fuel
      → ((s : PluginState R)
          → pending s.connection < fuel
          → Reaches num (receive_up_to cx fuel num s))
      → Reaches num (pass (λ _. receive_up_to cx fuel num) x)
  go_on n fuel num (ok u, s) h l ih = ih s (omega (arith, h.0, l))
  go_on n fuel num (err e, s) h l ih = tt
  go_on n fuel num (fault p, s) h l ih = λ e. h.1 (ap fault e)

  -- A round, for what the search for a message gave.
  round-Reaches :
      (fuel : ℕ) (num : SequenceNumber) (s : PluginState R)
      (x : Outcome (Option IncomingMessage) × Connection)
      → pending s.connection < suc fuel
      → Searched s.connection x
      → ((s' : PluginState R)
          → pending s'.connection < fuel
          → Reaches num (receive_up_to cx fuel num s'))
      → Reaches num (
          pass
            (λ request. elim request [
              | some (IncomingMessage.downstream message) ↦ λ s'.
                  pass (λ _. receive_up_to cx fuel num) (handle_downstream_message cx message s')
              | some _ ↦ λ s'. (fault panicked, s')
              | none ↦ λ s'. (other_err (say "Simulation aborted"), s')
            ])
            (x.0, record s { connection = x.1 }))
  round-Reaches fuel num s (ok (some (IncomingMessage.downstream m)), c) l w ih =
      let smaller = taken-lt s.connection c w.arrived _ w.outcome w.bound in
      go_on (pending c) fuel num _
        ((handle_downstream_message-Ends cx law m).apply (record s { connection = c }) refl)
        (omega (arith, smaller, l)) ih
  round-Reaches fuel num s (ok (some (IncomingMessage.simulator m)), c) l w ih = λ e. cc e
  round-Reaches fuel num s (ok (some (IncomingMessage.upstream m)), c) l w ih = λ e. cc e
  round-Reaches fuel num s (ok none, c) l w ih = tt
  round-Reaches fuel num s (err e, c) l w ih = tt
  round-Reaches fuel num s (fault p, c) l w ih = w.outcome.1

  receive_up_to-Reaches :
      (fuel : ℕ) (num : SequenceNumber) (s : PluginState R)
      → pending s.connection < fuel
      → Reaches num (receive_up_to cx fuel num s)
  unfolding receive_up_to
  receive_up_to-Reaches zero num s l = absurd (omega arith)
  receive_up_to-Reaches (suc fuel) num s l =
      elim (Bool-cases (after num s.downstream_sequence_rx)) [
        | inr a ↦ rw (a, receive_up_to) a
        | inl a ↦
            rw (a, receive_up_to)
              (round-Reaches fuel num s (next_downstream_request s.connection) l
                (next_downstream_request-Searched s.connection) (receive_up_to-Reaches fuel num))
      ]

events_left_eq : (selections : List Selection) → events_left selections ≡ coming_events selections
unfolding events_left
events_left_eq [] = refl
events_left_eq (selected events ∷ rest) = ap (λ k. length events + k) (events_left_eq rest)
events_left_eq (failed e ∷ rest) = events_left_eq rest

-- How waiting ends: the plugin is back in step with the requests, unless it panicked or waits for ever,
-- and if the call succeeded the completion number has reached `num`.
abbrev pub Synchronized :
    {R : Type 0} → SequenceNumber → Outcome (Unit {0}) × PluginState R → Type 0
Synchronized num (ok _, s) =
    (acknowledges s.downstream_sequence_rx num ≡ true) × (s.synchronized_to_rpcs ≡ true)
Synchronized num (err e, s) = s.synchronized_to_rpcs ≡ true
Synchronized num (fault p, s) = p ≢ out_of_fuel

-- The last step, once the random number stream is selected again.
resume-Synchronized :
    {R : Type 0} (num : SequenceNumber) (result : Outcome (Unit {0})) (s t : PluginState R)
    → Reaches num (result, s)
    → t.downstream_sequence_rx ≡ s.downstream_sequence_rx
    → Synchronized num (result, record t { synchronized_to_rpcs = true })
resume-Synchronized num (ok u) s t r e =
    let both = acknowledges-after s.downstream_sequence_rx num in (rw (e, both.0, r) refl, refl)
resume-Synchronized num (err x) s t r e = refl
resume-Synchronized num (fault p) s t r e = r

module _ {R : Type 0} (cx : Context R) (law : IsModest cx) where
  restore-Synchronized :
      (index : ℕ) (num : SequenceNumber) (result : Outcome (Unit {0})) (s : PluginState R)
      → Reaches num (result, s)
      → Synchronized num (restore cx index (result, s))
  unfolding restore
  restore-Synchronized index num result s r = go s.rng refl
    where
      pick :
          (g : RandomNumberGenerator R) (b : Bool)
          → Synchronized num (
              pass
                (λ _ s'. (result, record s' { synchronized_to_rpcs = true }))
                (if b
                  then (ok tt, record s { rng = some (record g { selected = index }) })
                  else (fault panicked, s)))
      pick g true =
          resume-Synchronized num result s (record s { rng = some (record g { selected = index }) })
            r refl
      pick g false = λ e. cc e

      go :
          (o : Option (RandomNumberGenerator R))
          → s.rng ≡ o
          → Synchronized num (restore cx index (result, s))
      go none e = rw (e, restore, select_rng) (resume-Synchronized num result s s r refl)
      go (some g) e = rw (e, restore, select_rng) (pick g (ltb index (length g.rngs)))

  -- If the `modify_measurement` callback keeps to measurements, then waiting for the downstream plugin
  -- never takes more rounds than there are messages to come. If it succeeds, the plugin has seen a
  -- completion number that acknowledges `num`; and also if it fails with an error, the plugin is
  -- afterwards back in step with the requests, so that calls are allowed again.
  pub synchronize_downstream_up_to-Synchronized :
      (num : SequenceNumber) (s : PluginState R)
      → Synchronized num (synchronize_downstream_up_to cx num s)
  unfolding synchronize_downstream_up_to
  synchronize_downstream_up_to-Synchronized num s =
      let x = receive_up_to cx (pending_messages s.connection + 1) num s in
      restore-Synchronized (selected_rng s) num (x.0) (x.1) (
        receive_up_to-Reaches cx law (pending_messages s.connection + 1) num s
          (omega (arith, events_left_eq s.connection.incoming)))
