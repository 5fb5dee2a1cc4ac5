-- ===== src/Bindings/Handle.antt =====
-- `rust/src/bindings/external/common/handle.rs` and `error.rs`: calls on any handle.
use dqcsim_rs.Common.{
  ℕ, suc, ◌-◌, Option, none, some, List, [], ◌∷◌, ◌++◌, Outcome, ok, other_err, inv_arg, M, pass,
  lit, num, Text, lookup, leb, if◌then◌else◌, length, ◌==◌,
}
use dqcsim_rs.Types.{PluginType}
use dqcsim_rs.Bindings.Object.{
  ApiObject, arb_data, arb_cmd, arb_cmd_queue, qubit_reference_set, gate, qubit_measurement_result,
  qubit_measurement_result_set, matrix, gate_map, plugin_process_configuration,
  plugin_thread_configuration, simulator_configuration, simulator, plugin_definition,
  plugin_join_handle,
}
use dqcsim_rs.Bindings.State.{ApiState, api_return}
use dqcsim_rs.Bindings.Interfaces.{object}
use dqcsim_rs.Bindings.Calls.{ReturnCode, success, take_as, api_return_none}

-- `dqcs_handle_type_t`; the kinds that come in three plugin types carry the type.
pub data HandleType : Type 0 where
  invalid arb_data_type arb_cmd_type arb_cmd_queue_type qubit_set_type gate_type meas_type
        meas_set_type matrix_type gate_map_type sim_config_type sim_type plugin_join_type :
      HandleType
  process_config_type thread_config_type def_type : PluginType → HandleType

module _ {X : Type 0} where
  unfoldable pub type_of : ApiObject X → HandleType
  type_of (arb_data x) = arb_data_type
  type_of (arb_cmd x) = arb_cmd_type
  type_of (arb_cmd_queue x) = arb_cmd_queue_type
  type_of (qubit_reference_set x) = qubit_set_type
  type_of (gate x) = gate_type
  type_of (qubit_measurement_result x) = meas_type
  type_of (qubit_measurement_result_set x) = meas_set_type
  type_of (matrix x) = matrix_type
  type_of (gate_map x) = gate_map_type
  type_of (plugin_process_configuration t x) = process_config_type t
  type_of (plugin_thread_configuration t x) = thread_config_type t
  type_of (simulator_configuration x) = sim_config_type
  type_of (simulator x) = sim_type
  type_of (plugin_definition t x) = def_type t
  type_of (plugin_join_handle x) = plugin_join_type

  unfoldable pub type_at : ℕ → Option (ApiObject X) → Outcome HandleType
  type_at handle none = inv_arg (lit "handle " ∷ num handle ∷ lit " is invalid" ∷ [])
  type_at handle (some ob) = ok (type_of ob)

  unfoldable pub dqcs_handle_type : ℕ → M (ApiState X) HandleType
  unfolding type_at type_of
  dqcs_handle_type handle s = api_return invalid (type_at handle (lookup handle s.objects), s)

  unfoldable pub dqcs_handle_delete : ℕ → M (ApiState X) ReturnCode
  dqcs_handle_delete handle s = api_return_none (pass (λ _ s. (ok tt, s)) (take_as object handle s))

  unfoldable pub dqcs_handle_delete_all : M (ApiState X) ReturnCode
  dqcs_handle_delete_all s = (ok success, record s { objects = [] })

  unfoldable pub insert_by_handle :
      ℕ × ApiObject X → List (ℕ × ApiObject X) → List (ℕ × ApiObject X)
  insert_by_handle x [] = x ∷ []
  insert_by_handle x (y ∷ ys) =
      let rest = insert_by_handle x ys in if leb (x.0) (y.0) then x ∷ y ∷ ys else y ∷ rest

  -- The `BTreeMap` of the objects by their handles.
  unfoldable pub sorted : List (ℕ × ApiObject X) → List (ℕ × ApiObject X)
  sorted [] = []
  sorted (x ∷ xs) = insert_by_handle x (sorted xs)

  -- The loop over the sorted objects, which names ten of them; `debug` is their `{:?}` text.
  unfoldable pub list_handles : (ApiObject X → Text) → ℕ → ℕ → Text → List (ℕ × ApiObject X) → Text
  list_handles debug remain idx msg [] = msg
  list_handles debug remain idx msg ((handle, ob) ∷ rest) =
      let more =
        list_handles debug remain (suc idx) (msg ++ (lit ", " ∷ num handle ∷ lit " = " ∷ debug ob))
          rest in
      if idx == 10 then msg ++ (lit ", and " ∷ num (remain - 10) ∷ lit " more" ∷ []) else more

  unfoldable pub leak_message : (ApiObject X → Text) → List (ℕ × ApiObject X) → Text
  leak_message debug objects =
      list_handles debug (length objects) 0
        (lit "Leak check: " ∷ num (length objects) ∷ lit " handles remain" ∷ []) (sorted objects)

  unfoldable pub dqcs_handle_leak_check : (ApiObject X → Text) → M (ApiState X) ReturnCode
  unfolding leak_message list_handles sorted insert_by_handle
  dqcs_handle_leak_check debug s =
      api_return_none
        (if length s.objects == 0 then ok tt else other_err (leak_message debug s.objects), s)

  unfoldable pub dqcs_error_get : M (ApiState X) (Option Text)
  dqcs_error_get s = (ok s.last_error, s)

  -- The message, or null.
  unfoldable pub dqcs_error_set : Option Text → M (ApiState X) (Unit {0})
  dqcs_error_set msg s = (ok tt, record s { last_error = msg })
