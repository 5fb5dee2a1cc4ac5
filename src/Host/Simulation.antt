-- ===== src/Host/Simulation.antt =====
-- `rust/src/core/host/simulation.rs`: the `Simulation` and the host calls on it. The messages to
-- the plugins go through the `Plugin` trait; the log macros leave no trace.
pub mod Queues
pub mod States
pub mod Calls
pub mod New
use text.Mathlib.Text.{◌==◌ as str_eq}
use dqcsim_rs.Common.{
  ℕ, zero, suc, ◌+◌, Bool, true, false, not, if◌then◌else◌, leb, String, List, [], ◌∷◌, ◌++◌,
  length, Option, none, some, Outcome, ok, err, fault, panicked, other_err, inv_op, inv_arg, lit,
  int, say, M, ◌>>=◌, ◌>>◌, pass, lift, return,
}
use dqcsim_rs.Common.Int.{ℤ, pos, pos_part, negsuc, ◌+ℤ◌, leb_ℤ, ltb_ℤ}
use dqcsim_rs.Types.{PluginMetadata}
use dqcsim_rs.Types.Arb.{ArbData, ArbCmd, unwrap}
use dqcsim_rs.Protocol.{FrontendRunRequest, FrontendRunResponse}
use dqcsim_rs.Host.Accelerator.{
  AcceleratorState, idle, is_idle, is_start_pending, is_blocked, is_wait_pending, put_data,
  take_data,
}
use dqcsim_rs.Host.Plugin
use dqcsim_rs.Host.Plugin.{PluginTrait}

-- `HostCall` of `rust/src/core/host/reproduction/host_call.rs`.
pub data HostCall : Type 0 where
  start : ArbData → HostCall
  wait : HostCall
  send : ArbData → HostCall
  recv : HostCall
  yield : HostCall
  arb : String → ArbCmd → HostCall

pub record InitializedPlugin (P : Type 0) : Type 0 where
  pub plugin : P
  pub metadata : PluginMetadata

-- `reproduction_log` keeps the `host_calls` of the `Reproduction`.
pub record Simulation (P : Type 0) : Type 0 where
  pub pipeline : List (InitializedPlugin P)
  pub state : AcceleratorState
  pub host_to_accelerator_data : List ArbData
  pub accelerator_to_host_data : List ArbData
  pub reproduction_log : Option (List HostCall)

-- A call on the plugin at an index; past the end the program panics (or, at index 0, reads out of
-- bounds, which is undefined).
unfoldable pub on_plugin : {P A : Type 0} → ℕ → M P A → M (List (InitializedPlugin P)) A
on_plugin i call [] = (fault panicked, [])
on_plugin zero call (p ∷ ps) = let (r, q) = call p.plugin in (r, record p { plugin = q } ∷ ps)
on_plugin (suc i) call (p ∷ ps) = let (r, qs) = on_plugin i call ps in (r, p ∷ qs)

-- `record_host_call`.
unfoldable pub record_host_call : {P : Type 0} → HostCall → M (Simulation P) (Unit {0})
record_host_call call s = (
  ok tt,
  record s {
    reproduction_log = elim s.reproduction_log [ none ↦ none | some log ↦ some (log ++ call ∷ []) ];
  },
)

-- `put_data` and `take_data` on the state of the simulation.
unfoldable pub put_state : {P : Type 0} → ArbData → M (Simulation P) (Unit {0})
unfolding put_data
put_state x s = let (r, st) = put_data x s.state in (r, record s { state = st })

unfoldable pub take_state : {P : Type 0} → M (Simulation P) ArbData
unfolding take_data
take_state s = let (r, st) = take_data s.state in (r, record s { state = st })

-- `.unwrap()` on the result of a method.
abbrev pub unwrap_call : {S A : Type 0} → M S A → M S A
unwrap_call m s = let (r, s') = m s in (unwrap r, s')

-- The argument of a pending `start()`.
unfoldable pub take_start : {P : Type 0} → M (Simulation P) (Option ArbData)
unfolding take_state is_start_pending
take_start s =
    if is_start_pending s.state
    then pass (λ x. return (some x)) (unwrap_call take_state s)
    else (ok none, s)

-- `self.host_to_accelerator_data.drain(..).collect()`.
unfoldable pub drain_messages : {P : Type 0} → M (Simulation P) (List ArbData)
drain_messages s = (ok s.host_to_accelerator_data, record s { host_to_accelerator_data = [] })

-- What `internal_yield` does with the response.
unfoldable pub receive_response : {P : Type 0} → FrontendRunResponse → M (Simulation P) (Unit {0})
unfolding put_state is_blocked
receive_response response s =
    let s' = record s {
      accelerator_to_host_data = s.accelerator_to_host_data ++ response.messages;
    } in
    elim response.return_value [
      | none ↦ (ok tt, s')
      | some return_value ↦
          if not (is_blocked s'.state)
          then (other_err (say "Protocol error: unexpected run() return value"), s')
          else unwrap_call (put_state return_value) s'
    ]

-- `self.accelerator_to_host_data.pop_front()`.
unfoldable pub pop_data : {P : Type 0} → M (Simulation P) (Option ArbData)
pop_data s = elim s.accelerator_to_host_data [
  | [] ↦ (ok none, s)
  | x ∷ xs ↦ (ok (some x), record s { accelerator_to_host_data = xs })
]

unfoldable pub convert_plugin_index : {P : Type 0} → Simulation P → ℤ → Outcome ℕ
convert_plugin_index s index =
    let n_plugins = length s.pipeline in
    let conv_index : ℤ = if ltb_ℤ index (pos 0) then index +ℤ pos n_plugins else index in
    if ltb_ℤ conv_index (pos 0)
    then inv_arg (lit "index " ∷ int index ∷ lit " out of range" ∷ [])
    else if leb n_plugins (pos_part conv_index)
    then inv_arg (lit "index " ∷ int index ∷ lit " out of range" ∷ [])
    else ok (pos_part conv_index)

module _ {P : Type 0} (trait : PluginTrait P) where
  -- The `RunRequest` RPC to the frontend.
  unfoldable pub run_rpc : FrontendRunRequest → M (Simulation P) FrontendRunResponse
  unfolding on_plugin
  run_rpc request s =
      let (r, ps) = on_plugin 0 (Plugin.run trait request) s.pipeline in
      (r, record s { pipeline = ps })

  unfoldable pub internal_yield : M (Simulation P) (Unit {0})
  unfolding take_start drain_messages run_rpc receive_response
  internal_yield = do
    start' ← take_start
    messages ← drain_messages
    response ← run_rpc (record { start = start'; messages = messages })
    receive_response response

  unfoldable pub yield_to_accelerator : M (Simulation P) (Unit {0})
  unfolding internal_yield record_host_call
  yield_to_accelerator = do record_host_call yield; internal_yield

  -- `arb_idx`, once the index is converted.
  unfoldable pub plugin_arb : ℕ → ArbCmd → M (Simulation P) ArbData
  unfolding on_plugin
  plugin_arb i cmd s =
      let (r, ps) = on_plugin i (Plugin.arb trait cmd) s.pipeline in (r, record s { pipeline = ps })

  -- The name of the plugin at an index.
  unfoldable pub name_at : ℕ → List (InitializedPlugin P) → Outcome String
  name_at i [] = fault panicked
  name_at zero (p ∷ ps) = ok (Plugin.name trait p.plugin)
  name_at (suc i) (p ∷ ps) = name_at i ps

  unfoldable pub arb_idx : ℤ → ArbCmd → M (Simulation P) ArbData
  unfolding convert_plugin_index internal_yield record_host_call plugin_arb name_at
  arb_idx index cmd = λ s.
      (do
        i ← lift (convert_plugin_index s index)
        name ← lift (name_at i s.pipeline)
        record_host_call (arb name cmd)
        internal_yield
        plugin_arb i cmd)
        s

  -- The first plugin with a name.
  unfoldable pub find_plugin : String → ℕ → List (InitializedPlugin P) → Option ℕ
  find_plugin name i [] = none
  find_plugin name i (p ∷ ps) =
      if str_eq (Plugin.name trait p.plugin) name then some i else find_plugin name (i + 1) ps

  unfoldable pub arb_name : String → ArbCmd → M (Simulation P) ArbData
  unfolding arb_idx find_plugin
  arb_name name cmd s = elim (find_plugin name 0 s.pipeline) [
    | none ↦ (inv_arg (lit "plugin " ∷ lit name ∷ lit " not found" ∷ []), s)
    | some i ↦ arb_idx (pos i) cmd s
  ]

  -- The calls of the `Accelerator` trait.
  unfoldable pub start_call : ArbData → M (Simulation P) (Unit {0})
  unfolding record_host_call put_state is_idle
  start_call args s =
      if is_idle s.state
      then (do record_host_call (start args); unwrap_call (put_state args)) s
      else (inv_op (say "accelerator is already running; call wait() first"), s)

  -- What `wait` does after it has recorded itself and the program has not returned yet.
  unfoldable pub wait_yield : M (Simulation P) ArbData
  unfolding internal_yield take_state is_wait_pending
  wait_yield = do
    internal_yield
    λ s. if is_wait_pending s.state then take_state s else (
      other_err
          (say "Deadlock: accelerator is blocked on recv() while we are expecting it to return"),
      s,
    )

  -- `wait` of a program that was started.
  unfoldable pub wait_running : M (Simulation P) ArbData
  unfolding wait_yield take_state is_wait_pending
  wait_running s = if is_wait_pending s.state then take_state s else wait_yield s

  unfoldable pub wait_call : M (Simulation P) ArbData
  unfolding wait_running record_host_call is_idle
  wait_call s =
      if is_idle s.state
      then (inv_op (say "accelerator is not running; call start() first"), s)
      else (do record_host_call wait; wait_running) s

  unfoldable pub send_call : ArbData → M (Simulation P) (Unit {0})
  unfolding record_host_call
  send_call args = do
    record_host_call (send args)
    λ s. (ok tt, record s { host_to_accelerator_data = s.host_to_accelerator_data ++ args ∷ [] })

  -- What `recv` does where the queue is empty.
  unfoldable pub recv_yield : M (Simulation P) ArbData
  unfolding internal_yield pop_data
  recv_yield = do
    internal_yield
    x ← pop_data
    lift (elim x [
      | some data' ↦ ok data'
      | none ↦ other_err (say "Deadlock: accelerator exited before sending data")
    ])

  unfoldable pub recv_nonempty : Option ArbData → M (Simulation P) ArbData
  recv_nonempty (some data') = return data'
  recv_nonempty none = recv_yield

  -- Whether a queue is empty.
  abbrev no_data_left : List ArbData → Bool
  no_data_left [] = true
  no_data_left (x ∷ xs) = false

  unfoldable pub recv_call : M (Simulation P) ArbData
  unfolding recv_nonempty recv_yield record_host_call pop_data is_idle
  recv_call s =
      if (if is_idle s.state then no_data_left s.accelerator_to_host_data else false)
      then (
        other_err (say "Deadlock: recv() called while queue is empty and accelerator is idle"),
        s,
      )
      else (do record_host_call recv; x ← pop_data; recv_nonempty x) s

  -- The implicit yield, whose error is only logged, and the end of the plugins.
  unfoldable pub drop_plugins : Simulation P → Simulation P
  unfolding internal_yield
  drop_plugins s = let (r, s') = internal_yield s in record s' { pipeline = [] }
