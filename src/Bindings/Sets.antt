-- ===== src/Bindings/Sets.antt =====
-- What the calls on a set of qubits, and `dqcs_cq_push`, do to the objects of the table.
use dqcsim_rs.Common.{
  ℕ, zero, suc, ◌≡◌, ◌≢◌, refl, ◌∙◌, false, none, some, List, [], ◌∷◌, ◌++◌, map, Outcome, ok,
  lookup, put, erase, lookup-put, lookup-erase, arith, contains, ◌==◌, if◌then◌else◌, All, length,
  Bool-cases, inl, inr, take, is_empty,
}
use dqcsim_rs.Common.Sets.{Distinct, Outside, contains-append, contains-cons, contains-nil}
use mathlib.Core.List.{append-nil, append_assoc}
use dqcsim_rs.Types.Qubit.{QubitRef, from_foreign, to_foreign, is_null}
use dqcsim_rs.Types.Arb.{ArbCmd}
use dqcsim_rs.Bindings.Object.{ApiObject, qubit_reference_set, arb_cmd_queue}
use dqcsim_rs.Bindings.State.{ApiState, resolve, resolve_with, drop_handle, put_back, api_return}
use dqcsim_rs.Bindings.Interfaces.{Interface, qbset, qbset_ref, cq, cq_ref, cmd_take, cmd}
use dqcsim_rs.Bindings.Calls.{
  success, failure, receive_qubit, with_mut, mut_body, ref_of, replace_in, take_as, take_of,
  api_return_none,
}
use dqcsim_rs.Bindings.Qbset.{dqcs_qbset_push, dqcs_qbset_pop, push_body, push_qubit, pop_body}
use dqcsim_rs.Bindings.Queue.{dqcs_cq_push, push_command}

Outside-append :
    (set qs : List QubitRef) (q : ℕ)
    → Outside set qs
    → contains qs q ≡ false
    → Outside (set ++ q ∷ []) qs
Outside-append set [] q o d = tt
Outside-append set (x ∷ qs) q o d = ground (
  arith,
  Outside-append set qs q (o.1),
  contains-append set (q ∷ []) x,
  contains-cons q x [],
  contains-nil x,
  contains-cons x q qs,
)

Outside-nil : (qs : List QubitRef) → Outside [] qs
Outside-nil [] = tt
Outside-nil (q ∷ qs) = (contains-nil q, Outside-nil qs)

module _ {X : Type 0} where
  -- A call on a valid handle runs its body without the object, which then returns to the pool.
  with_mut_valid :
      {A T : Type 0} (i : Interface X T) (h : ℕ)
      (body : T → ApiState X → (Outcome A × T) × ApiState X) (s : ApiState X) (ob : ApiObject X)
      (t : T)
      → lookup h s.objects ≡ some ob
      → i.as_ref ob ≡ ok t
      → with_mut i h body s ≡ (
          let r = body t (record s { objects = erase h s.objects }) in
          (r.0.0, record (r.1) { objects = put h (i.replace (r.0.1) ob) (r.1.objects) }))
  unfolding with_mut resolve resolve_with mut_body ref_of replace_in drop_handle put_back
  with_mut_valid i h body s ob t e v = rw (e, v) refl

  lookup-put-erase :
      (h k : ℕ) (ob : ApiObject X) (objects : List (ℕ × ApiObject X))
      → lookup k (put h ob (erase h objects)) ≡ (if h == k then some ob else lookup k objects)
  lookup-put-erase h k ob objects =
      ground (arith, lookup-put h k ob (erase h objects), lookup-erase h k objects)

  pub dqcs_qbset_push_lem :
      (h q : ℕ) (set : List QubitRef) (s : ApiState X)
      → q ≢ 0
      → lookup h s.objects ≡ some (qubit_reference_set set)
      → ((dqcs_qbset_push h q s).0 ≡ ok (if contains set q then failure else success))
        × ((k : ℕ)
            → lookup k (dqcs_qbset_push h q s).1.objects ≡ (
                if h == k
                then some (qubit_reference_set (if contains set q then set else set ++ q ∷ []))
                else lookup k s.objects))
  unfolding dqcs_qbset_push push_body push_qubit receive_qubit from_foreign qbset_ref
      api_return_none api_return
  dqcs_qbset_push_lem h q set s z e =
      let valid : (q == 0) ≡ false = ground arith in
      rw
        (
          with_mut_valid qbset h (push_body (receive_qubit q)) s (qubit_reference_set set) set e
              refl,
          valid,
        )
        (elim (Bool-cases (contains set q)) [
          | inl c ↦ rw c (refl, λ k. lookup-put-erase h k _ s.objects)
          | inr c ↦ rw c (refl, λ k. lookup-put-erase h k _ s.objects)
        ])

  pub dqcs_qbset_pop_lem :
      (h q : ℕ) (set : List QubitRef) (s : ApiState X)
      → q ≢ 0
      → lookup h s.objects ≡ some (qubit_reference_set (q ∷ set))
      → ((dqcs_qbset_pop h s).0 ≡ ok q)
        × (lookup h (dqcs_qbset_pop h s).1.objects ≡ some (qubit_reference_set set))
  unfolding dqcs_qbset_pop pop_body to_foreign is_null qbset_ref api_return
  dqcs_qbset_pop_lem h q set s z e =
      let valid : (q == 0) ≡ false = ground arith in
      rw (with_mut_valid qbset h pop_body s (qubit_reference_set (q ∷ set)) (q ∷ set) e refl, valid)
        (refl, ground (arith, lookup-put-erase h h (qubit_reference_set set) s.objects))

  -- The qubits are pushed one after the other.
  pub push_all : ℕ → List QubitRef → ApiState X → ApiState X
  push_all h [] s = s
  push_all h (q ∷ qs) s = push_all h qs (dqcs_qbset_push h q s).1

  -- The results of a number of pops.
  pub pop_all : ℕ → ℕ → ApiState X → List (Outcome ℕ)
  pop_all h zero s = []
  pop_all h (suc n) s = (dqcs_qbset_pop h s).0 ∷ pop_all h n (dqcs_qbset_pop h s).1

  push_all-stored :
      (h : ℕ) (qs set : List QubitRef) (s : ApiState X)
      → All (λ q. q ≢ 0) qs
      → Distinct qs
      → Outside set qs
      → lookup h s.objects ≡ some (qubit_reference_set set)
      → lookup h (push_all h qs s).objects ≡ some (qubit_reference_set (set ++ qs))
  unfolding push_all
  push_all-stored h [] set s z d o e = ground (arith, append-nil set)
  push_all-stored h (q ∷ qs) set s z d o e =
      let pushed = (dqcs_qbset_push_lem h q set s (z.0) e).1 h in
      let stored : lookup h (dqcs_qbset_push h q s).1.objects
          ≡ some (qubit_reference_set (set ++ q ∷ [])) =
        ground arith in
      push_all-stored h qs (set ++ q ∷ []) _ (z.1) (d.1) (Outside-append set qs q (o.1) (d.0))
        stored
      ∙ rw (append_assoc set (q ∷ []) qs)

  pop_all-stored :
      (h : ℕ) (qs : List QubitRef) (s : ApiState X)
      → All (λ q. q ≢ 0) qs
      → lookup h s.objects ≡ some (qubit_reference_set qs)
      → pop_all h (length qs) s ≡ map (λ q. ok q) qs
  unfolding pop_all
  pop_all-stored h [] s z e = refl
  pop_all-stored h (q ∷ qs) s z e =
      let (result, left) = dqcs_qbset_pop_lem h q qs s (z.0) e in
      rw (result, pop_all-stored h qs (dqcs_qbset_pop h s).1 (z.1) left)

-- Distinct qubits that are pushed to an empty set are popped in the order in which they were
-- pushed, and each once.
pub pop_all-push_all :
    {X : Type 0} (h : ℕ) (qs : List QubitRef) (s : ApiState X)
    → All (λ q. q ≢ 0) qs
    → Distinct qs
    → lookup h s.objects ≡ some (qubit_reference_set [])
    → pop_all h (length qs) (push_all h qs s) ≡ map (λ q. ok q) qs
pop_all-push_all h qs s z d e =
    pop_all-stored h qs (push_all h qs s) z (push_all-stored h qs [] s z d (Outside-nil qs) e)

module _ {X : Type 0} where
  -- To take a command from a queue ends the queue.
  take_as-queue :
      (c : ℕ) (s : ApiState X) (ys : List ArbCmd)
      → lookup c s.objects ≡ some (arb_cmd_queue ys)
      → take_as cmd c s
        ≡ ((cmd_take {X = X} (arb_cmd_queue ys)).0, record s { objects = erase c s.objects })
  unfolding take_as resolve resolve_with take_of put_back cmd_take
  take_as-queue c s [] e = rw e refl
  take_as-queue c s (y ∷ ys) e = rw e refl

  end_of_push :
      (h c : ℕ) (ob : ApiObject X) (objects : List (ℕ × ApiObject X))
      → h ≢ c
      → (lookup c (put h ob (erase c (erase h objects))) ≡ none)
        × (lookup h (put h ob (erase c (erase h objects))) ≡ some ob)
  end_of_push h c ob objects n = ground (
    arith,
    lookup-put h c ob (erase c (erase h objects)),
    lookup-put h h ob (erase c (erase h objects)),
    lookup-erase c c (erase h objects),
  )

  taken_of_push :
      (h c : ℕ) (ys : List ArbCmd) (s : ApiState X)
      → h ≢ c
      → lookup c s.objects ≡ some (arb_cmd_queue ys)
      → take_as cmd c (record s { objects = erase h s.objects }) ≡ (
        (cmd_take {X = X} (arb_cmd_queue ys)).0,
        record s { objects = erase c (erase h s.objects) },
      )
  taken_of_push h c ys s n f =
      take_as-queue c (record s { objects = erase h s.objects }) ys
        (ground (arith, lookup-erase h c s.objects))

  -- A queue given to `dqcs_cq_push` in place of a command is invalid afterwards: its first command
  -- is pushed and the others are lost, and an empty one is lost although the call fails.
  pub dqcs_cq_push-queue :
      (h c : ℕ) (xs ys : List ArbCmd) (s : ApiState X)
      → h ≢ c
      → lookup h s.objects ≡ some (arb_cmd_queue xs)
      → lookup c s.objects ≡ some (arb_cmd_queue ys)
      → ((dqcs_cq_push h c s).0 ≡ ok (if is_empty ys then failure else success))
        × (lookup c (dqcs_cq_push h c s).1.objects ≡ none)
        × (lookup h (dqcs_cq_push h c s).1.objects ≡ some (arb_cmd_queue (xs ++ take 1 ys)))
  unfolding dqcs_cq_push push_command cq_ref cmd_take api_return_none api_return
  dqcs_cq_push-queue h c xs [] s n e f =
      rw
        (
          with_mut_valid cq h (λ x s. push_command x (take_as cmd c s)) s (arb_cmd_queue xs) xs e
              refl,
          taken_of_push h c [] s n f,
          append-nil xs,
        )
        (let ends = end_of_push h c (arb_cmd_queue xs) s.objects n in (refl, ends.0, ends.1))
  dqcs_cq_push-queue h c xs (y ∷ ys) s n e f =
      rw
        (
          with_mut_valid cq h (λ x s. push_command x (take_as cmd c s)) s (arb_cmd_queue xs) xs e
              refl,
          taken_of_push h c (y ∷ ys) s n f,
        )
        (let ends = end_of_push h c (arb_cmd_queue (xs ++ y ∷ [])) s.objects n in
          (refl, ends.0, ends.1))
