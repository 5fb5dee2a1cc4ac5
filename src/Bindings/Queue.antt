-- ===== src/Bindings/Queue.antt =====
-- `rust/src/bindings/external/common/cmd.rs` and `cq.rs`: commands and queues of commands.
use Prim.Native.String.{String}
use text.Mathlib.Text.{◌==◌ as str_eq}
use dqcsim_rs.Common.{
  ℕ, Option, none, some, List, [], ◌∷◌, ◌++◌, Outcome, ok, err, fault, inv_arg, M, pass, and_then,
  say, length,
}
use dqcsim_rs.Common.Int.{ℤ, pos, negsuc}
use dqcsim_rs.Types.Arb.{ArbCmd, no_data, try_from}
use dqcsim_rs.Bindings.Object.{arb_cmd, arb_cmd_queue}
use dqcsim_rs.Bindings.State.{ApiState, insert, api_return}
use dqcsim_rs.Bindings.Interfaces.{cmd, cq}
use dqcsim_rs.Bindings.Calls.{
  ReturnCode, BoolReturn, receive_str, with_ref, with_mut, take_as, api_return_none,
  api_return_bool,
}

module _ {X : Type 0} where
  unfoldable pub dqcs_cmd_new : Option String → Option String → M (ApiState X) ℕ
  dqcs_cmd_new iface oper s = api_return 0 (
      pass (λ c. insert (arb_cmd c))
        (
          and_then (receive_str iface)
              (λ i. and_then (receive_str oper) (λ o. try_from i o no_data)),
          s,
        ))

  -- `api_return_string`: null, or a copy of the text.
  unfoldable pub dqcs_cmd_iface_get : ℕ → M (ApiState X) (Option String)
  dqcs_cmd_iface_get c s =
      api_return none (with_ref cmd c (λ x s. (ok (some x.interface_identifier), s)) s)

  unfoldable pub dqcs_cmd_oper_get : ℕ → M (ApiState X) (Option String)
  dqcs_cmd_oper_get c s =
      api_return none (with_ref cmd c (λ x s. (ok (some x.operation_identifier), s)) s)

  unfoldable pub dqcs_cmd_iface_cmp : ℕ → Option String → M (ApiState X) BoolReturn
  dqcs_cmd_iface_cmp c iface s = api_return_bool (
      with_ref cmd c
        (λ x s. (and_then (receive_str iface) (λ i. ok (str_eq x.interface_identifier i)), s)) s)

  unfoldable pub dqcs_cmd_oper_cmp : ℕ → Option String → M (ApiState X) BoolReturn
  dqcs_cmd_oper_cmp c oper s = api_return_bool (
      with_ref cmd c
        (λ x s. (and_then (receive_str oper) (λ o. ok (str_eq x.operation_identifier o)), s)) s)

  unfoldable pub dqcs_cq_new : M (ApiState X) ℕ
  dqcs_cq_new = insert (arb_cmd_queue [])

  -- The command is taken while the queue is out of the pool.
  unfoldable pub push_command :
      List ArbCmd → Outcome ArbCmd × ApiState X → (Outcome (Unit {0}) × List ArbCmd) × ApiState X
  push_command queue (ok c, s) = ((ok tt, queue ++ c ∷ []), s)
  push_command queue (err e, s) = ((err e, queue), s)
  push_command queue (fault p, s) = ((fault p, queue), s)

  unfoldable pub dqcs_cq_push : ℕ → ℕ → M (ApiState X) ReturnCode
  unfolding push_command
  dqcs_cq_push queue c s =
      api_return_none (with_mut cq queue (λ x s. push_command x (take_as cmd c s)) s)

  unfoldable pub next_body :
      List ArbCmd → ApiState X → (Outcome (Unit {0}) × List ArbCmd) × ApiState X
  next_body [] s = ((inv_arg (say "the command queue is already empty"), []), s)
  next_body (x ∷ queue) s = ((ok tt, queue), s)

  unfoldable pub dqcs_cq_next : ℕ → M (ApiState X) ReturnCode
  unfolding next_body
  dqcs_cq_next queue s = api_return_none (with_mut cq queue next_body s)

  unfoldable pub dqcs_cq_len : ℕ → M (ApiState X) ℤ
  dqcs_cq_len queue s =
      api_return (negsuc 0) (with_ref cq queue (λ x s. (ok (pos (length x)), s)) s)
