-- ===== src/Host/Accelerator.antt =====
-- `AcceleratorState` of `rust/src/core/host/simulation.rs`: idle, a start that is not yet sent, a
-- running program, and a result that nobody has waited for yet.
use dqcsim_rs.Common.{Bool, true, false, ◌≡◌, Outcome, ok, inv_op, say}
use dqcsim_rs.Types.Arb.{ArbData}

pub data AcceleratorState : Type 0 where
  idle : AcceleratorState
  start_pending : ArbData → AcceleratorState
  blocked : AcceleratorState
  wait_pending : ArbData → AcceleratorState

unfoldable pub is_idle : AcceleratorState → Bool
is_idle idle = true
is_idle _ = false

unfoldable pub is_start_pending : AcceleratorState → Bool
is_start_pending (start_pending x) = true
is_start_pending _ = false

unfoldable pub is_blocked : AcceleratorState → Bool
is_blocked blocked = true
is_blocked _ = false

unfoldable pub is_wait_pending : AcceleratorState → Bool
is_wait_pending (wait_pending x) = true
is_wait_pending _ = false

unfoldable pub put_data : ArbData → AcceleratorState → Outcome (Unit {0}) × AcceleratorState
put_data x idle = (ok tt, start_pending x)
put_data x (start_pending y) = (inv_op (say "data is already pending"), start_pending y)
put_data x blocked = (ok tt, wait_pending x)
put_data x (wait_pending y) = (inv_op (say "data is already pending"), wait_pending y)

unfoldable pub take_data : AcceleratorState → Outcome ArbData × AcceleratorState
take_data idle = (inv_op (say "no data pending"), idle)
take_data (start_pending x) = (ok x, blocked)
take_data blocked = (inv_op (say "no data pending"), blocked)
take_data (wait_pending x) = (ok x, idle)

-- What a call may do to a program that was started, one arrow at a time: only a call that waits for the
-- program collects its result, and no arrow starts a program.
pub data Move (waits : Bool) : AcceleratorState → AcceleratorState → Type 0 where
  launches : (x : ArbData) → Move waits (start_pending x) blocked
  returns : (x : ArbData) → Move waits blocked (wait_pending x)
  collects : (x : ArbData) → waits ≡ true → Move waits (wait_pending x) idle

pub data Moves (waits : Bool) (s : AcceleratorState) : AcceleratorState → Type 0 where
  here : Moves waits s s
  next : {t u : AcceleratorState} → Moves waits s t → Move waits t u → Moves waits s u
