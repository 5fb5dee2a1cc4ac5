-- ===== src/Bindings/Program.antt =====
-- Programs of calls of the C interface, as its users make them.
pub mod Validity
use Prim.Native.String.{String}
use dqcsim_rs.Common.{ℕ, Option, List, [], ◌∷◌, M, Text}
use dqcsim_rs.Types.Measurement.{QubitMeasurementValue}
use dqcsim_rs.Bindings.Object.{ApiObject}
use dqcsim_rs.Bindings.State.{ApiState}
use dqcsim_rs.Bindings.Qbset.{
  dqcs_qbset_new, dqcs_qbset_contains, dqcs_qbset_push, dqcs_qbset_pop, dqcs_qbset_len,
  dqcs_qbset_copy,
}
use dqcsim_rs.Bindings.Mset.{
  dqcs_meas_new, dqcs_meas_qubit_get, dqcs_meas_qubit_set, dqcs_meas_value_get, dqcs_meas_value_set,
  dqcs_mset_new, dqcs_mset_len, dqcs_mset_contains, dqcs_mset_set, dqcs_mset_get, dqcs_mset_take,
  dqcs_mset_remove, dqcs_mset_take_any,
}
use dqcsim_rs.Bindings.Queue.{
  dqcs_cmd_new, dqcs_cmd_iface_get, dqcs_cmd_oper_get, dqcs_cmd_iface_cmp, dqcs_cmd_oper_cmp,
  dqcs_cq_new, dqcs_cq_push, dqcs_cq_next, dqcs_cq_len,
}
use dqcsim_rs.Common.Int.{ℤ}
use dqcsim_rs.Bindings.Arb.{
  Raw, Buffer, dqcs_arb_new, dqcs_arb_cbor_set, dqcs_arb_push_raw, dqcs_arb_push_str,
  dqcs_arb_pop_raw, dqcs_arb_insert_raw, dqcs_arb_set_raw, dqcs_arb_insert_str, dqcs_arb_set_str,
  dqcs_arb_remove, dqcs_arb_get_raw, dqcs_arb_pop, dqcs_arb_clear, dqcs_arb_len, dqcs_arb_assign,
}
use dqcsim_rs.Bindings.Handle.{
  dqcs_handle_type, dqcs_handle_delete, dqcs_handle_delete_all, dqcs_handle_leak_check,
  dqcs_error_set,
}

-- One call, with its arguments.
pub data Call : Type 0 where
  qbset_new mset_new cq_new delete_all leak_check : Call
  qbset_contains qbset_push : ℕ → ℕ → Call
  qbset_pop qbset_len qbset_copy : ℕ → Call
  meas_new : ℕ → Option QubitMeasurementValue → Call
  meas_qubit_get meas_value_get : ℕ → Call
  meas_qubit_set : ℕ → ℕ → Call
  meas_value_set : ℕ → Option QubitMeasurementValue → Call
  mset_len mset_take_any : ℕ → Call
  mset_contains mset_set mset_get mset_take mset_remove : ℕ → ℕ → Call
  cmd_new : Option String → Option String → Call
  cmd_iface_get cmd_oper_get : ℕ → Call
  cmd_iface_cmp cmd_oper_cmp : ℕ → Option String → Call
  cq_push : ℕ → ℕ → Call
  cq_next cq_len handle_type handle_delete : ℕ → Call
  error_set : Option Text → Call
  arb_new : Call
  arb_cbor_set arb_push_raw : ℕ → Raw → Call
  arb_push_str : ℕ → Option (List ℕ) → Call
  arb_pop_raw : ℕ → Buffer → Call
  arb_insert_raw arb_set_raw : ℕ → ℤ → Raw → Call
  arb_insert_str arb_set_str : ℕ → ℤ → Option (List ℕ) → Call
  arb_remove : ℕ → ℤ → Call
  arb_get_raw : ℕ → ℤ → Buffer → Call
  arb_pop arb_clear arb_len : ℕ → Call
  arb_assign : ℕ → ℕ → Call

module _ {X : Type 0} (debug : ApiObject X → Text) where
  -- The state after a call.
  unfoldable pub after : Call → ApiState X → ApiState X
  after qbset_new s = (dqcs_qbset_new s).1
  after mset_new s = (dqcs_mset_new s).1
  after cq_new s = (dqcs_cq_new s).1
  after delete_all s = (dqcs_handle_delete_all s).1
  after leak_check s = (dqcs_handle_leak_check debug s).1
  after (qbset_contains h q) s = (dqcs_qbset_contains h q s).1
  after (qbset_push h q) s = (dqcs_qbset_push h q s).1
  after (qbset_pop h) s = (dqcs_qbset_pop h s).1
  after (qbset_len h) s = (dqcs_qbset_len h s).1
  after (qbset_copy h) s = (dqcs_qbset_copy h s).1
  after (meas_new q v) s = (dqcs_meas_new q v s).1
  after (meas_qubit_get h) s = (dqcs_meas_qubit_get h s).1
  after (meas_value_get h) s = (dqcs_meas_value_get h s).1
  after (meas_qubit_set h q) s = (dqcs_meas_qubit_set h q s).1
  after (meas_value_set h v) s = (dqcs_meas_value_set h v s).1
  after (mset_len h) s = (dqcs_mset_len h s).1
  after (mset_take_any h) s = (dqcs_mset_take_any h s).1
  after (mset_contains h q) s = (dqcs_mset_contains h q s).1
  after (mset_set h m) s = (dqcs_mset_set h m s).1
  after (mset_get h q) s = (dqcs_mset_get h q s).1
  after (mset_take h q) s = (dqcs_mset_take h q s).1
  after (mset_remove h q) s = (dqcs_mset_remove h q s).1
  after (cmd_new i o) s = (dqcs_cmd_new i o s).1
  after (cmd_iface_get h) s = (dqcs_cmd_iface_get h s).1
  after (cmd_oper_get h) s = (dqcs_cmd_oper_get h s).1
  after (cmd_iface_cmp h i) s = (dqcs_cmd_iface_cmp h i s).1
  after (cmd_oper_cmp h o) s = (dqcs_cmd_oper_cmp h o s).1
  after (cq_push h c) s = (dqcs_cq_push h c s).1
  after (cq_next h) s = (dqcs_cq_next h s).1
  after (cq_len h) s = (dqcs_cq_len h s).1
  after (handle_type h) s = (dqcs_handle_type h s).1
  after (handle_delete h) s = (dqcs_handle_delete h s).1
  after (error_set msg) s = (dqcs_error_set msg s).1
  after arb_new s = (dqcs_arb_new s).1
  after (arb_cbor_set h obj) s = (dqcs_arb_cbor_set h obj s).1
  after (arb_push_raw h obj) s = (dqcs_arb_push_raw h obj s).1
  after (arb_push_str h text) s = (dqcs_arb_push_str h text s).1
  after (arb_pop_raw h b) s = (dqcs_arb_pop_raw h b s).1
  after (arb_insert_raw h i obj) s = (dqcs_arb_insert_raw h i obj s).1
  after (arb_set_raw h i obj) s = (dqcs_arb_set_raw h i obj s).1
  after (arb_insert_str h i text) s = (dqcs_arb_insert_str h i text s).1
  after (arb_set_str h i text) s = (dqcs_arb_set_str h i text s).1
  after (arb_remove h i) s = (dqcs_arb_remove h i s).1
  after (arb_get_raw h i b) s = (dqcs_arb_get_raw h i b s).1
  after (arb_pop h) s = (dqcs_arb_pop h s).1
  after (arb_clear h) s = (dqcs_arb_clear h s).1
  after (arb_len h) s = (dqcs_arb_len h s).1
  after (arb_assign d h) s = (dqcs_arb_assign d h s).1

  unfoldable pub after_all : List Call → ApiState X → ApiState X
  after_all [] s = s
  after_all (c ∷ calls) s = after_all calls (after c s)
