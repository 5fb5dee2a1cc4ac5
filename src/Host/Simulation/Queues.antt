-- ===== src/Host/Simulation/Queues.antt =====
-- What the calls do with the two message queues and with the plugins.
use dqcsim_rs.Common.{
  ℕ, suc, ◌+◌, ◌<◌, ◌≡◌, ◌↔◌, refl, List, [], ◌∷◌, length, Option, some, none, ok, arith,
}
use dqcsim_rs.Common.Int.{pos, negsuc, ◌+ℤ◌}
use dqcsim_rs.Types.Arb.{ArbData}
use dqcsim_rs.Protocol.{FrontendRunRequest, run_request}
use dqcsim_rs.Host.Accelerator.{AcceleratorState, idle, start_pending, blocked, wait_pending}
use dqcsim_rs.Host.Plugin.{PluginTrait}
use dqcsim_rs.Host.Plugin
use dqcsim_rs.Host.Simulation.{Simulation, InitializedPlugin, internal_yield, convert_plugin_index}

-- The argument of a program that waits to be started.
abbrev pub pending_start : AcceleratorState → Option ArbData
pending_start (start_pending x) = some x
pending_start _ = none

-- The request that a yield sends: the pending start and all the queued messages.
abbrev pub yield_request : {P : Type 0} → Simulation P → FrontendRunRequest
yield_request s = record { start = pending_start s.state; messages = s.host_to_accelerator_data }

module _ {P : Type 0} (trait : PluginTrait P) where
  -- Whatever the frontend answers, a yield makes exactly one RPC, on the plugin at the front, with
  -- the argument of a pending start and all the messages that were queued, in their order; the
  -- other plugins are left alone, and no queued message is sent a second time.
  pub internal_yield_sends :
      (s : Simulation P) (p : InitializedPlugin P) (ps : List (InitializedPlugin P))
      → s.pipeline ≡ p ∷ ps
      → let s' = (internal_yield trait s).1 in
        (s'.pipeline
          ≡ record p { plugin = (trait.rpc (run_request (yield_request s)) p.plugin).1 } ∷ ps)
        × (s'.host_to_accelerator_data ≡ [])
        × (s'.reproduction_log ≡ s.reproduction_log)
  unfolding internal_yield Plugin.run
  internal_yield_sends s p ps e = go s.state refl
    where
      go :
          (t : AcceleratorState)
          → s.state ≡ t
          → let s' = (internal_yield trait s).1 in
            (s'.pipeline
              ≡ record p { plugin = (trait.rpc (run_request (yield_request s)) p.plugin).1 } ∷ ps)
            × (s'.host_to_accelerator_data ≡ [])
            × (s'.reproduction_log ≡ s.reproduction_log)
      go idle h = ground arith
      go (start_pending x) h = ground arith
      go blocked h = ground arith
      go (wait_pending x) h = ground arith

-- An index is accepted exactly when it lies in -n .. n - 1 for the `n` plugins of the pipeline, and
-- then a negative index counts from the back.
pub convert_plugin_index_cases :
    {P : Type 0} (s : Simulation P) (k i : ℕ)
    → ((convert_plugin_index s (pos k) ≡ ok i) ↔ ((i ≡ k) × (k < length s.pipeline)))
      × ((convert_plugin_index s (negsuc k) ≡ ok i) ↔ (i + suc k ≡ length s.pipeline))
unfolding convert_plugin_index ◌+ℤ◌
convert_plugin_index_cases s k i =
    (((λ h. ground arith), (λ h. ground arith)), ((λ h. ground arith), (λ h. ground arith)))
