-- ===== src/Host/Simulation/States.antt =====
-- How the host calls move the state of the accelerator, and when they refuse.
use dqcsim_rs.Common.{
  ℕ, Bool, true, false, ◌≡◌, refl, String, List, [], ◌∷◌, Option, some, none, arith, Option-cases,
  inl, inr,
}
use dqcsim_rs.Common.Int.{ℤ, pos}
use dqcsim_rs.Common.Keeps.{Keeps, >>=-Keeps, >>-Keeps, return-Keeps, lift-Keeps, if-keeps}
use dqcsim_rs.Types.Arb.{ArbData, ArbCmd}
use dqcsim_rs.Protocol.{FrontendRunRequest, FrontendRunResponse}
use dqcsim_rs.Host.Accelerator.{
  AcceleratorState, idle, start_pending, blocked, wait_pending, Moves, here, next, launches,
  returns, collects,
}
use dqcsim_rs.Host.Plugin.{PluginTrait}
use dqcsim_rs.Host.Simulation.{
  Simulation, HostCall, internal_yield, take_start, drain_messages, run_rpc, receive_response,
  start_call, wait_call, wait_yield, wait_running, recv_call, recv_yield, recv_nonempty, pop_data,
  send_call, yield_to_accelerator, arb_idx, arb_name, take_state, plugin_arb, record_host_call,
  find_plugin, convert_plugin_index, name_at,
}

module _ {P : Type 0} (waits : Bool) (from : AcceleratorState) where
  -- The state was reached from `from`.
  abbrev Reached : Simulation P → Type 0
  Reached s = Moves waits from s.state

  take_start-Reached : (s : Simulation P) → Reached s → Reached (take_start s).1
  unfolding take_start
  take_start-Reached s h = go s.state refl
    where
      go : (t : AcceleratorState) → s.state ≡ t → Moves waits from (take_start s).1.state
      go idle e = rw (e, take_start) (rw e at h)
      go (start_pending x) e = rw (e, take_start) (next (rw e at h) (launches x))
      go blocked e = rw (e, take_start) (rw e at h)
      go (wait_pending x) e = rw (e, take_start) (rw e at h)

  take_state-Reached : waits ≡ true → (s : Simulation P) → Reached s → Reached (take_state s).1
  unfolding take_state
  take_state-Reached w s h = go s.state refl
    where
      go : (t : AcceleratorState) → s.state ≡ t → Moves waits from (take_state s).1.state
      go idle e = rw (e, take_state) (rw e at h)
      go (start_pending x) e = rw (e, take_state) (next (rw e at h) (launches x))
      go blocked e = rw (e, take_state) (rw e at h)
      go (wait_pending x) e = rw (e, take_state) (next (rw e at h) (collects x w))

  receive_response-Reached :
      (r : FrontendRunResponse) (s : Simulation P) → Reached s → Reached (receive_response r s).1
  unfolding receive_response
  receive_response-Reached r s h = go r.return_value s.state refl refl
    where
      go :
          (o : Option ArbData) (t : AcceleratorState)
          → r.return_value ≡ o
          → s.state ≡ t
          → Moves waits from (receive_response r s).1.state
      go none t eo e = rw (eo, receive_response) h
      go (some v) idle eo e = rw (eo, e, receive_response) (rw e at h)
      go (some v) (start_pending x) eo e = rw (eo, e, receive_response) (rw e at h)
      go (some v) blocked eo e = rw (eo, e, receive_response) (next (rw e at h) (returns v))
      go (some v) (wait_pending x) eo e = rw (eo, e, receive_response) (rw e at h)

  pop_data-Reached : (s : Simulation P) → Reached s → Reached (pop_data s).1
  unfolding pop_data
  pop_data-Reached s h = go s.accelerator_to_host_data refl
    where
      go :
          (l : List ArbData)
          → s.accelerator_to_host_data ≡ l
          → Moves waits from (pop_data s).1.state
      go [] e = rw (e, pop_data) h
      go (x ∷ xs) e = rw (e, pop_data) h

  take_start-Keeps : Keeps Reached take_start
  take_start-Keeps = record { apply = take_start-Reached }

  receive_response-Keeps : (r : FrontendRunResponse) → Keeps Reached (receive_response r)
  receive_response-Keeps r = record { apply = receive_response-Reached r }

  drain_messages-Keeps : Keeps Reached drain_messages
  unfolding drain_messages
  drain_messages-Keeps = record { apply = λ s h. h }

  module _ (trait : PluginTrait P) where
    run_rpc-Keeps : (r : FrontendRunRequest) → Keeps Reached (run_rpc trait r)
    unfolding run_rpc
    run_rpc-Keeps r = record { apply = λ s h. h }

    internal_yield-Keeps : Keeps Reached (internal_yield trait)
    unfolding internal_yield
    internal_yield-Keeps = >>=-Keeps take_start-Keeps λ start'.
        >>=-Keeps drain_messages-Keeps
          λ messages. >>=-Keeps (run_rpc-Keeps _) receive_response-Keeps

    record-Keeps : (c : HostCall) → Keeps Reached (record_host_call c)
    unfolding record_host_call
    record-Keeps c = record { apply = λ s h. h }

    pop_data-Keeps : Keeps Reached pop_data
    pop_data-Keeps = record { apply = pop_data-Reached }

    plugin_arb-Keeps : (i : ℕ) (cmd : ArbCmd) → Keeps Reached (plugin_arb trait i cmd)
    unfolding plugin_arb
    plugin_arb-Keeps i cmd = record { apply = λ s h. h }

    recv_yield-Keeps : Keeps Reached (recv_yield trait)
    unfolding recv_yield
    recv_yield-Keeps = >>-Keeps internal_yield-Keeps (>>=-Keeps pop_data-Keeps λ x. lift-Keeps _)

    recv_nonempty-Keeps : (o : Option ArbData) → Keeps Reached (recv_nonempty trait o)
    unfolding recv_nonempty
    recv_nonempty-Keeps (some x) = return-Keeps x
    recv_nonempty-Keeps none = recv_yield-Keeps

    recv_call-Keeps : Keeps Reached (recv_call trait)
    unfolding recv_call
    recv_call-Keeps = record {
      apply = λ s h. if-keeps Reached _ _ _ h (
          (>>-Keeps (record-Keeps HostCall.recv)
              (>>=-Keeps pop_data-Keeps recv_nonempty-Keeps)).apply
            s h);
    }

    wait_yield-Keeps : waits ≡ true → Keeps Reached (wait_yield trait)
    unfolding wait_yield
    wait_yield-Keeps w =
        >>-Keeps internal_yield-Keeps
          (record { apply = λ s h. if-keeps Reached _ _ _ (take_state-Reached w s h) h })

    wait_running-Keeps : waits ≡ true → Keeps Reached (wait_running trait)
    unfolding wait_running
    wait_running-Keeps w = record {
      apply =
          λ s h. if-keeps Reached _ _ _ (take_state-Reached w s h) ((wait_yield-Keeps w).apply s h);
    }

    wait_call-Keeps : waits ≡ true → Keeps Reached (wait_call trait)
    unfolding wait_call
    wait_call-Keeps w = record {
      apply = λ s h.
          if-keeps Reached _ _ _ h
            ((>>-Keeps (record-Keeps HostCall.wait) (wait_running-Keeps w)).apply s h);
    }

    arb_idx-Keeps : (i : ℤ) (cmd : ArbCmd) → Keeps Reached (arb_idx trait i cmd)
    unfolding arb_idx
    arb_idx-Keeps i cmd = record {
      apply = λ s h.
          (>>=-Keeps (lift-Keeps (convert_plugin_index s i)) λ j.
              >>=-Keeps (lift-Keeps (name_at trait j s.pipeline)) λ name.
                >>-Keeps (record-Keeps (HostCall.arb name cmd))
                  (>>-Keeps internal_yield-Keeps (plugin_arb-Keeps j cmd))).apply
            s h;
    }

    arb_name-keeps :
        (name : String) (cmd : ArbCmd) (s : Simulation P)
        → Reached s
        → Reached (arb_name trait name cmd s).1
    unfolding arb_name
    arb_name-keeps name cmd s h = elim (Option-cases (find_plugin trait name 0 s.pipeline)) [
      | inl e ↦ rw (e, arb_name) h
      | inr (i, e) ↦ rw (e, arb_name) ((arb_idx-Keeps (pos i) cmd).apply s h)
    ]

    yield_call-Keeps : Keeps Reached (yield_to_accelerator trait)
    unfolding yield_to_accelerator
    yield_call-Keeps = >>-Keeps (record-Keeps HostCall.yield) internal_yield-Keeps

-- The state that a host call leaves behind, its result aside.
abbrev pub after_call : {P : Type 0} → PluginTrait P → HostCall → Simulation P → Simulation P
after_call trait (HostCall.start x) s = (start_call trait x s).1
after_call trait HostCall.wait s = (wait_call trait s).1
after_call trait (HostCall.send x) s = (send_call trait x s).1
after_call trait HostCall.recv s = (recv_call trait s).1
after_call trait HostCall.yield s = (yield_to_accelerator trait s).1
after_call trait (HostCall.arb name cmd) s = (arb_name trait name cmd s).1

-- The state after `start`.
abbrev pub after_start : ArbData → AcceleratorState → AcceleratorState
after_start x idle = start_pending x
after_start x s = s

-- How a call may move the state of the accelerator.
abbrev pub Allows : HostCall → AcceleratorState → AcceleratorState → Type 0
Allows (HostCall.start x) s t = t ≡ after_start x s
Allows HostCall.wait s t = Moves true s t
Allows (HostCall.send x) s t = t ≡ s
Allows _ s t = Moves false s t

start_call_lem :
    {P : Type 0} (trait : PluginTrait P) (x : ArbData) (s : Simulation P)
    → (start_call trait x s).1.state ≡ after_start x s.state
unfolding start_call
start_call_lem trait x s = go s.state refl
  where
    go :
        (t : AcceleratorState)
        → s.state ≡ t
        → (start_call trait x s).1.state ≡ after_start x s.state
    go idle e = ground arith
    go (start_pending y) e = ground arith
    go blocked e = ground arith
    go (wait_pending y) e = ground arith

-- Whatever the plugins answer, and whether the call succeeds or not: `start` starts a program on an
-- idle accelerator and otherwise changes nothing about its state, `send` never does, and any other
-- call only takes a started program further, from pending over blocked to its result. Only `wait`
-- collects a result and makes the accelerator idle.
pub after_call-Allows :
    {P : Type 0} (trait : PluginTrait P) (c : HostCall) (s : Simulation P)
    → Allows c s.state (after_call trait c s).state
unfolding send_call
after_call-Allows trait (HostCall.start x) s = start_call_lem trait x s
after_call-Allows trait HostCall.wait s = (wait_call-Keeps true s.state trait refl).apply s here
after_call-Allows trait (HostCall.send x) s = refl
after_call-Allows trait HostCall.recv s = (recv_call-Keeps false s.state trait).apply s here
after_call-Allows trait HostCall.yield s = (yield_call-Keeps false s.state trait).apply s here
after_call-Allows trait (HostCall.arb name cmd) s =
    arb_name-keeps false s.state trait name cmd s here
