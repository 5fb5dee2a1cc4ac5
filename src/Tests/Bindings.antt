-- ===== src/Tests/Bindings.antt =====
-- The properties of `rust/src/bindings` at concrete inputs: a table with a queue of one command, an
-- empty queue and an empty set of qubits, and a deleted handle.
use dqcsim_rs.Common.{
  ℕ, ◌<◌, ◌≡◌, refl, arith, List, [], ◌∷◌, ok, none, some, Text, lookup, contains,
}
use dqcsim_rs.Common.Sets.{Distinct}
use dqcsim_rs.Common.Int.{negsuc, ◌+ℤ◌}
use dqcsim_rs.Types.Arb.{ArbData, ArbCmd, no_data}
use dqcsim_rs.Bindings.Arb.{insert_arg, get_arg, remove_arg, receive_index, insert_at}
use dqcsim_rs.Bindings.Arb.Laws.{insert_arg-get_arg}
use dqcsim_rs.Bindings.Object.{ApiObject, arb_cmd_queue, qubit_reference_set}
use dqcsim_rs.Bindings.State.{ApiState}
use dqcsim_rs.Bindings.Calls.{failure}
use dqcsim_rs.Bindings.Queue.{dqcs_cq_push}
use dqcsim_rs.Bindings.Program.{Call, qbset_new, qbset_push, handle_delete, cq_push, after_all}
use dqcsim_rs.Bindings.Program.Validity.{after_all_dead}
use dqcsim_rs.Bindings.Sets.{push_all, pop_all, pop_all-push_all, dqcs_cq_push-queue}

abbrev command : ArbCmd
command = record { interface_identifier = "a"; operation_identifier = "b"; payload = no_data }

abbrev stocked : ApiState ℕ
stocked = record {
  objects =
      (1, arb_cmd_queue (command ∷ [])) ∷ (2, arb_cmd_queue []) ∷ (4, qubit_reference_set []) ∷ [];
  handle_counter = 5;
  thread_locals_used_by = none;
  last_error = none;
}

abbrev silent : ApiObject ℕ → Text
silent ob = []

first_held : lookup 1 stocked.objects ≡ some (arb_cmd_queue (command ∷ []))
unfolding lookup
first_held = refl

second_held : lookup 2 stocked.objects ≡ some (arb_cmd_queue [])
unfolding lookup
second_held = refl

third_free : lookup 3 stocked.objects ≡ none
unfolding lookup
third_free = refl

fourth_held : lookup 4 stocked.objects ≡ some (qubit_reference_set [])
unfolding lookup
fourth_held = refl

abbrev program : List Call
program = qbset_new ∷ qbset_push 4 7 ∷ cq_push 1 2 ∷ handle_delete 3 ∷ []

after_all_dead_example :
    (lookup 3 (after_all silent program stocked).objects ≡ none)
    × (3 < (after_all silent program stocked).handle_counter)
after_all_dead_example = after_all_dead silent program stocked 3 (omega arith) third_free

distinct : Distinct (9 ∷ 7 ∷ [])
unfolding contains
distinct = (refl, (refl, tt))

pop_all-push_all_example : pop_all 4 2 (push_all 4 (9 ∷ 7 ∷ []) stocked) ≡ ok 9 ∷ ok 7 ∷ []
pop_all-push_all_example =
    pop_all-push_all 4 (9 ∷ 7 ∷ []) stocked (omega arith, (omega arith, tt)) distinct fourth_held

dqcs_cq_push-queue_example :
    ((dqcs_cq_push 1 2 stocked).0 ≡ ok failure)
    × (lookup 2 (dqcs_cq_push 1 2 stocked).1.objects ≡ none)
    × (lookup 1 (dqcs_cq_push 1 2 stocked).1.objects ≡ some (arb_cmd_queue (command ∷ [])))
dqcs_cq_push-queue_example =
    dqcs_cq_push-queue 1 2 (command ∷ []) [] stocked (omega arith) first_held second_held

abbrev listed : ArbData
listed = record { cbor = 0xA0 ∷ []; args = (1 ∷ []) ∷ (2 ∷ []) ∷ [] }

abbrev longer : ArbData
longer = record { cbor = 0xA0 ∷ []; args = (1 ∷ []) ∷ (9 ∷ []) ∷ (2 ∷ []) ∷ [] }

inserted : insert_arg (negsuc 1) (ok (9 ∷ [])) listed ≡ (ok tt, longer)
unfolding insert_arg receive_index insert_at ◌+ℤ◌
inserted = refl

insert_arg-get_arg_example :
    (get_arg (negsuc 1) longer ≡ ok (9 ∷ [])) × (remove_arg (negsuc 1) longer ≡ (ok tt, listed))
insert_arg-get_arg_example = insert_arg-get_arg (negsuc 1) (9 ∷ []) listed longer inserted
