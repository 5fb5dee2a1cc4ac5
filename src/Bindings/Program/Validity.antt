-- ===== src/Bindings/Program/Validity.antt =====
-- No program of calls makes an invalid handle valid again.
use dqcsim_rs.Common.{
  ℕ, Bool, ◌<◌, ◌≡◌, refl, none, List, [], ◌∷◌, Outcome, ok, err, fault, M, pass, Text, lookup,
  arith, contains,
}
use dqcsim_rs.Common.Keeps.{Keeps, pass-keeps}
use dqcsim_rs.Types.Arb.{ArbCmd}
use dqcsim_rs.Common.Int.{negsuc}
use dqcsim_rs.Types.Measurement.{QubitMeasurementValue, QubitMeasurementResult}
use dqcsim_rs.Types.Qubit.{QubitRef}
use dqcsim_rs.Bindings.Object.{ApiObject, qubit_measurement_result}
use dqcsim_rs.Bindings.State.{ApiState, insert, api_return}
use dqcsim_rs.Bindings.Calls.{
  api_return_none, api_return_bool, receive_qubit, success, failure, bool_failure, from_bool,
  with_ref, with_mut,
}
use dqcsim_rs.Bindings.Lifetime.{
  NoRevival, insert-NoRevival, with_ref-NoRevival, with_mut-NoRevival, take_as-NoRevival,
  take_pending-NoRevival, api_return-NoRevival,
}
use dqcsim_rs.Bindings.Qbset.{
  dqcs_qbset_new, dqcs_qbset_contains, dqcs_qbset_push, dqcs_qbset_pop, dqcs_qbset_len,
  dqcs_qbset_copy, push_body, pop_body, contains_body,
}
use dqcsim_rs.Bindings.Mset.{
  dqcs_meas_new, dqcs_meas_qubit_get, dqcs_meas_qubit_set, dqcs_meas_value_get, dqcs_meas_value_set,
  dqcs_mset_new, dqcs_mset_len, dqcs_mset_contains, dqcs_mset_set, dqcs_mset_get, dqcs_mset_take,
  dqcs_mset_remove, dqcs_mset_take_any, set_qubit, set_value, set_body, take_body, remove_body,
  remove_from, first_of, MeasurementSet,
}
use dqcsim_rs.Bindings.Queue.{
  dqcs_cmd_new, dqcs_cmd_iface_get, dqcs_cmd_oper_get, dqcs_cmd_iface_cmp, dqcs_cmd_oper_cmp,
  dqcs_cq_new, dqcs_cq_push, dqcs_cq_next, dqcs_cq_len, push_command, next_body,
}
use dqcsim_rs.Bindings.Arb.{
  dqcs_arb_new, dqcs_arb_cbor_set, dqcs_arb_push_raw, dqcs_arb_push_str, dqcs_arb_pop_raw,
  dqcs_arb_insert_raw, dqcs_arb_set_raw, dqcs_arb_insert_str, dqcs_arb_set_str, dqcs_arb_remove,
  dqcs_arb_get_raw, dqcs_arb_pop, dqcs_arb_clear, dqcs_arb_len, dqcs_arb_assign,
}
use dqcsim_rs.Bindings.Handle.{
  dqcs_handle_type, dqcs_handle_delete, dqcs_handle_delete_all, dqcs_handle_leak_check,
  dqcs_error_set, invalid,
}
use dqcsim_rs.Bindings.Interfaces.{Interface, arb, object, qbset, mset, meas, cq, cmd}
use dqcsim_rs.Bindings.Program.{Call, after, after_all}
use dqcsim_rs.Bindings.Program

lookup-nil : {V : Type 0} (k : ℕ) → lookup {V = V} k [] ≡ none
unfolding lookup
lookup-nil k = refl

module _ {X : Type 0} (origin : ApiState X) where
  abbrev R : ApiState X → Type 0
  R = NoRevival origin

  pure : {A : Type 0} (f : ApiState X → Outcome A) → Keeps R (λ s. (f s, s))
  pure f = record { apply = λ s n. n }

  none-NoRevival : (r : Outcome (Unit {0}) × ApiState X) → R r.1 → R (api_return_none r).1
  unfolding api_return_none
  none-NoRevival r n =
      api_return-NoRevival origin failure _
        (pass-keeps {R = R} (λ _ s. (ok success, s)) r n (λ _. record { apply = λ s n. n }))

  bool-NoRevival : (r : Outcome Bool × ApiState X) → R r.1 → R (api_return_bool r).1
  unfolding api_return_bool
  bool-NoRevival r n =
      api_return-NoRevival origin bool_failure _
        (pass-keeps {R = R} (λ b s. (ok (from_bool b), s)) r n (λ _. record { apply = λ s n. n }))

  push_body-NoRevival :
      (q : Outcome QubitRef) (set : List QubitRef) (s : ApiState X) → R s → R (push_body q set s).1
  unfolding push_body
  push_body-NoRevival (ok q) set s n = n
  push_body-NoRevival (err e) set s n = n
  push_body-NoRevival (fault p) set s n = n

  pop_body-NoRevival : (set : List QubitRef) (s : ApiState X) → R s → R (pop_body set s).1
  unfolding pop_body
  pop_body-NoRevival [] s n = n
  pop_body-NoRevival (q ∷ set) s n = n

  set_qubit-NoRevival :
      (q : Outcome QubitRef) (m : QubitMeasurementResult) (s : ApiState X)
      → R s
      → R (set_qubit q m s).1
  unfolding set_qubit
  set_qubit-NoRevival (ok q) m s n = n
  set_qubit-NoRevival (err e) m s n = n
  set_qubit-NoRevival (fault p) m s n = n

  set_value-NoRevival :
      (v : Outcome QubitMeasurementValue) (m : QubitMeasurementResult) (s : ApiState X)
      → R s
      → R (set_value v m s).1
  unfolding set_value
  set_value-NoRevival (ok v) m s n = n
  set_value-NoRevival (err e) m s n = n
  set_value-NoRevival (fault p) m s n = n

  set_body-NoRevival :
      (set : MeasurementSet) (r : Outcome QubitMeasurementResult × ApiState X)
      → R r.1
      → R (set_body set r).1
  unfolding set_body
  set_body-NoRevival set (ok m, s) n = n
  set_body-NoRevival set (err e, s) n = n
  set_body-NoRevival set (fault p, s) n = n

  take_body-NoRevival :
      (set : MeasurementSet) (r : Outcome (QubitMeasurementResult × MeasurementSet))
      (s : ApiState X)
      → R s
      → R (take_body set r s).1
  unfolding take_body
  take_body-NoRevival set (ok (m, rest)) s n =
      (insert-NoRevival origin (qubit_measurement_result m)).apply s n
  take_body-NoRevival set (err e) s n = n
  take_body-NoRevival set (fault p) s n = n

  remove_body-NoRevival :
      (set : MeasurementSet) (r : Outcome (QubitMeasurementResult × MeasurementSet))
      (s : ApiState X)
      → R s
      → R (remove_body set r s).1
  unfolding remove_body
  remove_body-NoRevival set (ok (m, rest)) s n = n
  remove_body-NoRevival set (err e) s n = n
  remove_body-NoRevival set (fault p) s n = n

  push_command-NoRevival :
      (queue : List ArbCmd) (r : Outcome ArbCmd × ApiState X) → R r.1 → R (push_command queue r).1
  unfolding push_command
  push_command-NoRevival queue (ok c, s) n = n
  push_command-NoRevival queue (err e, s) n = n
  push_command-NoRevival queue (fault p, s) n = n

  next_body-NoRevival : (queue : List ArbCmd) (s : ApiState X) → R s → R (next_body queue s).1
  unfolding next_body
  next_body-NoRevival [] s n = n
  next_body-NoRevival (c ∷ queue) s n = n

  contains_body-NoRevival :
      (q : ℕ) (set : List QubitRef) (s : ApiState X) → R s → R (contains_body q set s).1
  unfolding contains_body
  contains_body-NoRevival q set s n =
      pass-keeps {R = R} (λ q s. (ok (contains set q), s)) (receive_qubit q, s) n
        (λ q. pure (λ _. ok (contains set q)))

  -- A reference is used, and the result is returned with the error value `e`.
  reads :
      {A T : Type 0} (e : A) (i : Interface X T) (h : ℕ) (body : T → M (ApiState X) A)
      (s : ApiState X)
      → ((t : T) → Keeps R (body t))
      → R s
      → R (api_return e (with_ref i h body s)).1
  reads e i h body s k n =
      api_return-NoRevival origin e _ ((with_ref-NoRevival origin i h body k).apply s n)

  writes :
      {A T : Type 0} (e : A) (i : Interface X T) (h : ℕ)
      (body : T → ApiState X → (Outcome A × T) × ApiState X) (s : ApiState X)
      → ((t : T) (s : ApiState X) → R s → R (body t s).1)
      → R s
      → R (api_return e (with_mut i h body s)).1
  writes e i h body s k n =
      api_return-NoRevival origin e _ ((with_mut-NoRevival origin i h body k).apply s n)

  changes :
      {T : Type 0} (i : Interface X T) (h : ℕ)
      (body : T → ApiState X → (Outcome (Unit {0}) × T) × ApiState X) (s : ApiState X)
      → ((t : T) (s : ApiState X) → R s → R (body t s).1)
      → R s
      → R (api_return_none (with_mut i h body s)).1
  changes i h body s k n = none-NoRevival _ ((with_mut-NoRevival origin i h body k).apply s n)

  -- A new object, where its parts are valid.
  creates :
      {A : Type 0} (o : Outcome A) (make : A → ApiObject X) (s : ApiState X)
      → R s
      → R (api_return 0 (pass (λ a. insert (make a)) (o, s))).1
  creates o make s n =
      api_return-NoRevival origin 0 _
        (pass-keeps {R = R} (λ a. insert (make a)) (o, s) n (λ a. insert-NoRevival origin (make a)))

  after-NoRevival :
      (debug : ApiObject X → Text) (c : Call) (s : ApiState X) → R s → R (after debug c s)
  unfolding after dqcs_qbset_new dqcs_qbset_contains dqcs_qbset_push dqcs_qbset_pop dqcs_qbset_len
      dqcs_qbset_copy dqcs_meas_new dqcs_meas_qubit_get dqcs_meas_qubit_set dqcs_meas_value_get
      dqcs_meas_value_set dqcs_mset_new dqcs_mset_len dqcs_mset_contains dqcs_mset_set dqcs_mset_get
      dqcs_mset_take dqcs_mset_remove dqcs_mset_take_any dqcs_cmd_new dqcs_cmd_iface_get
      dqcs_cmd_oper_get dqcs_cmd_iface_cmp dqcs_cmd_oper_cmp dqcs_cq_new dqcs_cq_push dqcs_cq_next
      dqcs_cq_len dqcs_handle_type dqcs_handle_delete dqcs_handle_delete_all dqcs_handle_leak_check
      dqcs_error_set dqcs_arb_new dqcs_arb_cbor_set dqcs_arb_push_raw dqcs_arb_push_str
      dqcs_arb_pop_raw dqcs_arb_insert_raw dqcs_arb_set_raw dqcs_arb_insert_str dqcs_arb_set_str
      dqcs_arb_remove dqcs_arb_get_raw dqcs_arb_pop dqcs_arb_clear dqcs_arb_len dqcs_arb_assign
  after-NoRevival debug Program.qbset_new s n = (insert-NoRevival origin _).apply s n
  after-NoRevival debug Program.mset_new s n = (insert-NoRevival origin _).apply s n
  after-NoRevival debug Program.cq_new s n = (insert-NoRevival origin _).apply s n
  after-NoRevival debug Program.delete_all s n = record {
    counted = n.counted;
    dead = λ k l d. lookup-nil k;
  }
  after-NoRevival debug Program.leak_check s n = none-NoRevival _ n
  after-NoRevival debug (Program.qbset_contains h q) s n =
      bool-NoRevival _ (
        (with_mut-NoRevival origin qbset h (contains_body q) (contains_body-NoRevival q)).apply s n)
  after-NoRevival debug (Program.qbset_push h q) s n =
      changes qbset h _ s (push_body-NoRevival (receive_qubit q)) n
  after-NoRevival debug (Program.qbset_pop h) s n = writes 0 qbset h _ s pop_body-NoRevival n
  after-NoRevival debug (Program.qbset_len h) s n = reads (negsuc 0) qbset h _ s (λ t. pure _) n
  after-NoRevival debug (Program.qbset_copy h) s n =
      reads 0 qbset h _ s (λ t. insert-NoRevival origin _) n
  after-NoRevival debug (Program.meas_new q v) s n = creates _ _ s n
  after-NoRevival debug (Program.meas_qubit_get h) s n = reads 0 meas h _ s (λ t. pure _) n
  after-NoRevival debug (Program.meas_value_get h) s n = reads none meas h _ s (λ t. pure _) n
  after-NoRevival debug (Program.meas_qubit_set h q) s n =
      changes meas h _ s (set_qubit-NoRevival (receive_qubit q)) n
  after-NoRevival debug (Program.meas_value_set h v) s n =
      changes meas h _ s (set_value-NoRevival _) n
  after-NoRevival debug (Program.mset_len h) s n = writes (negsuc 0) mset h _ s (λ t s n. n) n
  after-NoRevival debug (Program.mset_take_any h) s n =
      writes 0 mset h _ s (λ t. take_body-NoRevival t (first_of t)) n
  after-NoRevival debug (Program.mset_contains h q) s n =
      bool-NoRevival _ ((with_mut-NoRevival origin mset h _ (λ t s n. n)).apply s n)
  after-NoRevival debug (Program.mset_set h m) s n =
      changes mset h _ s
        (λ t s n. set_body-NoRevival t _ ((take_pending-NoRevival origin meas m).apply s n)) n
  after-NoRevival debug (Program.mset_get h q) s n =
      reads 0 mset h _ s
        (λ t. record {
          apply = λ s n.
              pass-keeps {R = R} (λ m. insert (qubit_measurement_result m)) _ n
                (λ m. insert-NoRevival origin _);
        })
        n
  after-NoRevival debug (Program.mset_take h q) s n =
      writes 0 mset h _ s (λ t. take_body-NoRevival t (remove_from t (receive_qubit q))) n
  after-NoRevival debug (Program.mset_remove h q) s n =
      changes mset h _ s (λ t. remove_body-NoRevival t (remove_from t (receive_qubit q))) n
  after-NoRevival debug (Program.cmd_new i o) s n = creates _ _ s n
  after-NoRevival debug (Program.cmd_iface_get h) s n = reads none cmd h _ s (λ t. pure _) n
  after-NoRevival debug (Program.cmd_oper_get h) s n = reads none cmd h _ s (λ t. pure _) n
  after-NoRevival debug (Program.cmd_iface_cmp h i) s n =
      bool-NoRevival _ ((with_ref-NoRevival origin cmd h _ (λ t. pure _)).apply s n)
  after-NoRevival debug (Program.cmd_oper_cmp h o) s n =
      bool-NoRevival _ ((with_ref-NoRevival origin cmd h _ (λ t. pure _)).apply s n)
  after-NoRevival debug (Program.cq_push h c) s n =
      changes cq h _ s
        (λ t s n. push_command-NoRevival t _ ((take_as-NoRevival origin cmd c).apply s n)) n
  after-NoRevival debug (Program.cq_next h) s n = changes cq h _ s next_body-NoRevival n
  after-NoRevival debug (Program.cq_len h) s n = reads (negsuc 0) cq h _ s (λ t. pure _) n
  after-NoRevival debug (Program.handle_type h) s n = api_return-NoRevival origin invalid _ n
  after-NoRevival debug (Program.handle_delete h) s n = none-NoRevival _ (
      pass-keeps {R = R} _ _ ((take_as-NoRevival origin object h).apply s n)
        (λ t. record { apply = λ s n. n }))
  after-NoRevival debug (Program.error_set msg) s n = record { counted = n.counted; dead = n.dead }
  after-NoRevival debug Program.arb_new s n = (insert-NoRevival origin _).apply s n
  after-NoRevival debug (Program.arb_cbor_set h obj) s n = changes arb h _ s (λ t s n. n) n
  after-NoRevival debug (Program.arb_push_raw h obj) s n = changes arb h _ s (λ t s n. n) n
  after-NoRevival debug (Program.arb_push_str h text) s n = changes arb h _ s (λ t s n. n) n
  after-NoRevival debug (Program.arb_pop_raw h b) s n = writes _ arb h _ s (λ t s n. n) n
  after-NoRevival debug (Program.arb_insert_raw h i obj) s n = changes arb h _ s (λ t s n. n) n
  after-NoRevival debug (Program.arb_set_raw h i obj) s n = changes arb h _ s (λ t s n. n) n
  after-NoRevival debug (Program.arb_insert_str h i text) s n = changes arb h _ s (λ t s n. n) n
  after-NoRevival debug (Program.arb_set_str h i text) s n = changes arb h _ s (λ t s n. n) n
  after-NoRevival debug (Program.arb_remove h i) s n = changes arb h _ s (λ t s n. n) n
  after-NoRevival debug (Program.arb_get_raw h i b) s n = reads _ arb h _ s (λ t. pure _) n
  after-NoRevival debug (Program.arb_pop h) s n =
      pass-keeps {R = R} _ _ (writes _ arb h _ s (λ t s n. n) n) (λ r. record { apply = λ s n. n })
  after-NoRevival debug (Program.arb_clear h) s n = changes arb h _ s (λ t s n. n) n
  after-NoRevival debug (Program.arb_len h) s n = reads (negsuc 0) arb h _ s (λ t. pure _) n
  after-NoRevival debug (Program.arb_assign d h) s n = none-NoRevival _ (
      (with_ref-NoRevival origin arb h _
          (λ x. with_mut-NoRevival origin arb d _ (λ t s n. n))).apply
        s n)

  after_all-NoRevival :
      (debug : ApiObject X → Text) (calls : List Call) (s : ApiState X)
      → R s
      → R (after_all debug calls s)
  unfolding after_all
  after_all-NoRevival debug [] s n = n
  after_all-NoRevival debug (c ∷ calls) s n =
      after_all-NoRevival debug calls (after debug c s) (after-NoRevival debug c s n)

-- Whatever calls a program makes: a handle that was given out and is invalid, because its object
-- was deleted or taken, stays invalid, and every handle given out later is another number.
pub after_all_dead :
    {X : Type 0} (debug : ApiObject X → Text) (calls : List Call) (s : ApiState X) (h : ℕ)
    → h < s.handle_counter
    → lookup h s.objects ≡ none
    → (lookup h (after_all debug calls s).objects ≡ none)
      × (h < (after_all debug calls s).handle_counter)
after_all_dead debug calls s h l d =
    let n =
      after_all-NoRevival s debug calls s (record { counted = omega arith; dead = λ k l d. d }) in
    (n.dead h l d, omega (arith, n.counted))
