-- ===== src/Host/Simulation/Calls.antt =====
-- The results of `recv()` and `wait()`: which message comes next, when a program's return value
-- is handed over, and when a deadlock is reported.
use dqcsim_rs.Common.{
  ◌≡◌, refl, List, [], ◌∷◌, Option, some, none, Outcome, ok, arith, other_err, inv_op, say,
}
use dqcsim_rs.Types.Arb.{ArbData}
use dqcsim_rs.Protocol.{FrontendRunResponse}
use dqcsim_rs.Host.Accelerator.{AcceleratorState, idle, start_pending, blocked, wait_pending}
use dqcsim_rs.Host.Plugin.{PluginTrait}
use dqcsim_rs.Host.Plugin
use dqcsim_rs.Host.Simulation.{Simulation, InitializedPlugin, recv_call, wait_call}
use dqcsim_rs.Host.Simulation.Queues.{yield_request}

-- The answer of the frontend to a yield.
abbrev pub Answers : {P : Type 0} → PluginTrait P → Simulation P → FrontendRunResponse → Type 0
Answers {P} trait s response =
    (p : InitializedPlugin P) × (ps : List (InitializedPlugin P)) × (s.pipeline ≡ p ∷ ps)
    × ((Plugin.run trait (yield_request s) p.plugin).0 ≡ ok response)

-- The first message of an answer, and the others.
abbrev pub take_first : List ArbData → Outcome ArbData × List ArbData
take_first [] = (other_err (say "Deadlock: accelerator exited before sending data"), [])
take_first (x ∷ xs) = (ok x, xs)

-- The state after a program that was running, or that had to be started, has answered.
abbrev pub returned : Option ArbData → AcceleratorState
returned none = blocked
returned (some v) = wait_pending v

-- `recv`, by the queue, the state of the accelerator and the answer that a yield would get: its
-- result, the queue and the state that it leaves.
abbrev pub recv_spec :
    List ArbData
    → AcceleratorState
    → FrontendRunResponse
    → Outcome ArbData × List ArbData × AcceleratorState
recv_spec (x ∷ xs) state response = (ok x, xs, state)
recv_spec [] idle response = (
  other_err (say "Deadlock: recv() called while queue is empty and accelerator is idle"),
  [],
  idle,
)
recv_spec [] (wait_pending y) response = elim response.return_value [
  | none ↦ ((take_first response.messages).0, (take_first response.messages).1, wait_pending y)
  | some v ↦ (
    other_err (say "Protocol error: unexpected run() return value"),
    response.messages,
    wait_pending y,
  )
]
recv_spec [] _ response = (
  (take_first response.messages).0,
  (take_first response.messages).1,
  returned response.return_value,
)

-- `wait`, likewise.
abbrev pub collect_value : Option ArbData → Outcome ArbData × AcceleratorState
collect_value none = (
  other_err (say "Deadlock: accelerator is blocked on recv() while we are expecting it to return"),
  blocked,
)
collect_value (some x) = (ok x, idle)

abbrev pub wait_spec : AcceleratorState → Option ArbData → Outcome ArbData × AcceleratorState
wait_spec idle v = (inv_op (say "accelerator is not running; call start() first"), idle)
wait_spec (wait_pending x) v = (ok x, idle)
wait_spec _ v = collect_value v

module _ {P : Type 0} (trait : PluginTrait P) where
  recv_spec_by :
      (s : Simulation P) (response : FrontendRunResponse)
      → Answers trait s response
      → (q ms : List ArbData) (t : AcceleratorState) (v : Option ArbData)
      → s.accelerator_to_host_data ≡ q
      → response.messages ≡ ms
      → s.state ≡ t
      → response.return_value ≡ v
      → let (r, s') = recv_call trait s in
        (r, s'.accelerator_to_host_data, s'.state) ≡ recv_spec q t response
  unfolding recv_call
  recv_spec_by s response (p, ps, ep, ea) (x ∷ xs) ms idle v eq em et ev = ground arith
  recv_spec_by s response (p, ps, ep, ea) (x ∷ xs) ms (start_pending y) v eq em et ev = ground arith
  recv_spec_by s response (p, ps, ep, ea) (x ∷ xs) ms blocked v eq em et ev = ground arith
  recv_spec_by s response (p, ps, ep, ea) (x ∷ xs) ms (wait_pending y) v eq em et ev = ground arith
  recv_spec_by s response (p, ps, ep, ea) [] ms idle v eq em et ev = ground arith
  recv_spec_by s response (p, ps, ep, ea) [] [] (start_pending y) none eq em et ev = ground arith
  recv_spec_by s response (p, ps, ep, ea) [] (m ∷ ms) (start_pending y) none eq em et ev =
      ground arith
  recv_spec_by s response (p, ps, ep, ea) [] [] (start_pending y) (some v) eq em et ev =
      ground arith
  recv_spec_by s response (p, ps, ep, ea) [] (m ∷ ms) (start_pending y) (some v) eq em et ev =
      ground arith
  recv_spec_by s response (p, ps, ep, ea) [] [] blocked none eq em et ev = ground arith
  recv_spec_by s response (p, ps, ep, ea) [] (m ∷ ms) blocked none eq em et ev = ground arith
  recv_spec_by s response (p, ps, ep, ea) [] [] blocked (some v) eq em et ev = ground arith
  recv_spec_by s response (p, ps, ep, ea) [] (m ∷ ms) blocked (some v) eq em et ev = ground arith
  recv_spec_by s response (p, ps, ep, ea) [] [] (wait_pending y) none eq em et ev = ground arith
  recv_spec_by s response (p, ps, ep, ea) [] (m ∷ ms) (wait_pending y) none eq em et ev =
      ground arith
  recv_spec_by s response (p, ps, ep, ea) [] ms (wait_pending y) (some v) eq em et ev = ground arith

  -- Where the frontend answers the request that a yield would send, `recv` does as specified: a queued
  -- message is returned without a yield and the others stay in their order; with an empty queue
  -- an idle accelerator is a deadlock, and otherwise the first message of the answer is returned and
  -- the others are kept, or a deadlock is reported if there is none.
  pub recv_call-recv_spec :
      (s : Simulation P) (response : FrontendRunResponse)
      → Answers trait s response
      → let (r, s') = recv_call trait s in
        (r, s'.accelerator_to_host_data, s'.state)
        ≡ recv_spec s.accelerator_to_host_data s.state response
  recv_call-recv_spec s response a = recv_spec_by s response a _ _ _ _ refl refl refl refl

  wait_spec_by :
      (s : Simulation P) (response : FrontendRunResponse)
      → Answers trait s response
      → (t : AcceleratorState) (v : Option ArbData) → s.state ≡ t
      → response.return_value ≡ v
      → let (r, s') = wait_call trait s in (r, s'.state) ≡ wait_spec t v
  unfolding wait_call
  wait_spec_by s response (p, ps, ep, ea) idle v et ev = ground arith
  wait_spec_by s response (p, ps, ep, ea) (start_pending y) none et ev = ground arith
  wait_spec_by s response (p, ps, ep, ea) (start_pending y) (some v) et ev = ground arith
  wait_spec_by s response (p, ps, ep, ea) blocked none et ev = ground arith
  wait_spec_by s response (p, ps, ep, ea) blocked (some v) et ev = ground arith
  wait_spec_by s response (p, ps, ep, ea) (wait_pending y) v et ev = ground arith

  -- Where the frontend answers the request that a yield would send, `wait` does as specified: it
  -- refuses while the accelerator is idle; it hands over a return value that is there already, or
  -- that the answer brings, and leaves the accelerator idle; and if the answer brings none it reports a
  -- deadlock and the program stays blocked.
  pub wait_call-wait_spec :
      (s : Simulation P) (response : FrontendRunResponse)
      → Answers trait s response
      → let (r, s') = wait_call trait s in (r, s'.state) ≡ wait_spec s.state response.return_value
  wait_call-wait_spec s response a = wait_spec_by s response a _ _ refl refl
