-- ===== src/Tests/Plugin.antt =====
-- The properties of `rust/src/core/plugin` at concrete inputs.
use dqcsim_rs.Common.{
  ℕ, ◌≤◌, ◌≡◌, refl, All, arith, [], ◌∷◌, ◌++◌, map, ok, return, contains, insert, remove,
}
use dqcsim_rs.Protocol.{measured, PipelinedGatestreamDown, SimulatorToPlugin, completed_up_to}
use dqcsim_rs.Types.Arb.{no_data}
use dqcsim_rs.Types.Gate.{Gate}
use dqcsim_rs.Plugin.Connection.{IncomingMessage}
use dqcsim_rs.Plugin.State.{PluginState, enter}
use dqcsim_rs.Plugin.Downstream.{check_completed_up_to, check_missing, synchronize_downstream_up_to}
use dqcsim_rs.Plugin.Downstream.Completion.{
  CanSend, sent_up, released, unfinished, finished, announcement, completed_to,
  check_completed_up_to_lem,
}
use dqcsim_rs.Plugin.Downstream.Acknowledged.{IsRising, check_completed_up_to-IsRising}
use dqcsim_rs.Plugin.Downstream.Fuel.{IsModest}
use dqcsim_rs.Plugin.Downstream.Expected.{Settles, waiting, check_missing-Settles}
use dqcsim_rs.Plugin.Downstream.Sync.{Synchronized, synchronize_downstream_up_to-Synchronized}
use dqcsim_rs.Plugin.Definition.{PluginDefinition}
use dqcsim_rs.Plugin.Pipelined.{handle_pipelined, pipelined_response}
use dqcsim_rs.Plugin.Pipelined.Acks.{handle_pipelined-IsRising}
use dqcsim_rs.Tests.{connected, operating, one, busy, holding, about, measuring}

can_send : CanSend connected
can_send = record { connected = refl; open_end = refl }

busy-IsRising : IsRising busy
busy-IsRising = (omega arith, (omega arith, omega arith))

check_completed_up_to-IsRising_example :
    let (r, s') = check_completed_up_to busy in
    (r ≡ ok tt)
    × IsRising s'
    × (1 ≤ s'.upstream_completed_up_to)
    × All (λ e. e.1 ≤ s'.upstream_completed_up_to) (finished 1 busy.upstream_postponed)
check_completed_up_to-IsRising_example = check_completed_up_to-IsRising busy can_send busy-IsRising

check_completed_up_to_lem_example :
    let q = unfinished 1 busy.upstream_postponed in
    let completed = completed_to 3 q in
    check_completed_up_to busy ≡ (
      ok tt,
      record (sent_up
          (map measured (released 1 busy.upstream_postponed) ++ announcement 1 completed)
          busy) { upstream_postponed = q; upstream_completed_up_to = completed },
    )
check_completed_up_to_lem_example = check_completed_up_to_lem busy can_send busy-IsRising

operating-IsModest : IsModest operating
operating-IsModest m n expected = record { apply = λ s h. (h, λ e. cc e) }

-- The downstream plugin has completed the first request, and its message is buffered.
abbrev answered : PluginState ℕ
answered = record busy {
  connection = record connected {
    incoming_buffer =
        IncomingMessage.simulator SimulatorToPlugin.accept_upstream
        ∷ IncomingMessage.downstream (completed_up_to 2)
        ∷ [];
  };
}

synchronize_downstream_up_to-Synchronized_example :
    Synchronized 2 (synchronize_downstream_up_to operating 2 answered)
synchronize_downstream_up_to-Synchronized_example =
    synchronize_downstream_up_to-Synchronized operating operating-IsModest 2 answered

-- Two gates wait for measurements, and the first is completed.
abbrev expecting : PluginState ℕ
expecting = record holding { downstream_expected_measurements = (1, 1 ∷ []) ∷ (2, 2 ∷ []) ∷ [] }

check_missing-Settles_example :
    Settles 0 (waiting 1 ((1, 1 ∷ []) ∷ (2, 2 ∷ []) ∷ [])) (check_missing operating 1 expecting)
check_missing-Settles_example = check_missing-Settles operating operating-IsModest 1 expecting

-- An operator that does nothing of its own.
abbrev quiet : PluginDefinition ℕ
quiet = record {
  context = operating;
  metadata = about;
  initialize = λ _. return tt;
  finalize = return tt;
  run = λ args. return args;
  allocate = λ _ _. return tt;
  free = λ _. return tt;
  gate = λ _. return (one ∷ []);
  advance = λ _. return tt;
  upstream_arb = λ _. return no_data;
  host_arb = λ _. return no_data;
}

abbrev measuring_one : Gate
measuring_one = record measuring { measures = 1 ∷ [] }

enter-busy : enter 1 busy ≡ (ok tt, busy)
unfolding enter
enter-busy = refl

pipelined_response-busy :
    pipelined_response quiet (PipelinedGatestreamDown.gate measuring_one) busy
    ≡ ((ok tt, one ∷ []), busy)
unfolding pipelined_response contains insert remove
pipelined_response-busy = refl

handle_pipelined-IsRising_example :
    let (r, s') = handle_pipelined quiet 4 (PipelinedGatestreamDown.gate measuring_one) busy in
    (r ≡ ok tt) × IsRising s'
handle_pipelined-IsRising_example =
    handle_pipelined-IsRising quiet 3 4 (PipelinedGatestreamDown.gate measuring_one) busy busy busy
      (ok tt) (one ∷ []) (omega arith) enter-busy pipelined_response-busy tt
      (busy-IsRising, refl, can_send)
