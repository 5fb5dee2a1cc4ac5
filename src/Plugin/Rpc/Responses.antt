-- ===== src/Plugin/Rpc/Responses.antt =====
-- The answers to the requests of the simulator.
use dqcsim_rs.Common.{Bool, true, false, Outcome, ok, err, fault, to_string, ◌≡◌, refl}
use dqcsim_rs.Protocol.{SimulatorToPlugin, PluginToSimulator}
use dqcsim_rs.Plugin.State.{PluginState, ChaCha}
use dqcsim_rs.Plugin.Definition.{PluginDefinition}
use dqcsim_rs.Plugin.Rpc.{
  External, respond, simulator_response, handle_init, handle_accept_upstream, handle_abort,
  handle_run,
}

abbrev pub is_failure : PluginToSimulator → Bool
is_failure (PluginToSimulator.failure e) = true
is_failure _ = false

-- The answer that a handler's result asks for: an error is answered by a failure with its message, a
-- success by something else, and neither is an error of the plugin itself.
abbrev pub Answers : {A S : Type 0} → Outcome A × S → Outcome PluginToSimulator × S → Type 0
Answers (ok a, s) (r, s') =
    ((response : PluginToSimulator) × (r ≡ ok response) × (is_failure response ≡ false)) × (s' ≡ s)
Answers (err e, s) (r, s') = (r ≡ ok (PluginToSimulator.failure (to_string e))) × (s' ≡ s)
Answers (fault p, s) (r, s') = (r ≡ fault p) × (s' ≡ s)

respond-Answers :
    {A S : Type 0} (f : A → PluginToSimulator) (x : Outcome A × S)
    → ((a : A) → is_failure (f a) ≡ false)
    → Answers x (respond f x)
respond-Answers f (ok a, s) h = ((f a, refl, h a), refl)
respond-Answers f (err e, s) h = (refl, refl)
respond-Answers f (fault p, s) h = (refl, refl)

module _ {R : Type 0} (chacha : ChaCha R) (external : External)
    (definition : PluginDefinition R) where
  -- What handles a request.
  abbrev pub Handled :
      SimulatorToPlugin → PluginState R → Outcome PluginToSimulator × PluginState R → Type 0
  Handled (SimulatorToPlugin.initialize req) s =
      Answers (handle_init chacha external definition req s)
  Handled SimulatorToPlugin.accept_upstream s =
      Answers (handle_accept_upstream chacha external definition s)
  Handled (SimulatorToPlugin.user_initialize cmds) s = Answers (definition.initialize cmds s)
  Handled SimulatorToPlugin.abort s =
      Answers (handle_abort chacha external definition (record s { aborted = true }))
  Handled (SimulatorToPlugin.run_request req) s =
      Answers (handle_run chacha external definition req s)
  Handled (SimulatorToPlugin.arb_request cmd) s = Answers (definition.host_arb cmd s)

  -- Whatever the simulator requests, an error of the handler of that request does not end the plugin: it
  -- is answered by a failure with the error's message, while a success is answered by a response that
  -- is not a failure; the state is the one that the handler left.
  pub simulator_response-Handled :
      (message : SimulatorToPlugin) (s : PluginState R)
      → Handled message s (simulator_response chacha external definition message s)
  unfolding simulator_response
  simulator_response-Handled (SimulatorToPlugin.initialize req) s =
      respond-Answers _ (handle_init chacha external definition req s) (λ a. refl)
  simulator_response-Handled SimulatorToPlugin.accept_upstream s =
      respond-Answers _ (handle_accept_upstream chacha external definition s) (λ a. refl)
  simulator_response-Handled (SimulatorToPlugin.user_initialize cmds) s =
      respond-Answers _ (definition.initialize cmds s) (λ a. refl)
  simulator_response-Handled SimulatorToPlugin.abort s =
      respond-Answers _ (handle_abort chacha external definition (record s { aborted = true }))
        (λ a. refl)
  simulator_response-Handled (SimulatorToPlugin.run_request req) s =
      respond-Answers _ (handle_run chacha external definition req s) (λ a. refl)
  simulator_response-Handled (SimulatorToPlugin.arb_request cmd) s =
      respond-Answers _ (definition.host_arb cmd s) (λ a. refl)
