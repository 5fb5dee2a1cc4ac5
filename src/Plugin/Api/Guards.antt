-- ===== src/Plugin/Api/Guards.antt =====
-- When the calls on the downstream plugin are refused, and that a refused call changes nothing.
use dqcsim_rs.Common.{
  ℕ, Bool, true, false, not, ◌||◌, ◌≡◌, refl, List, [], ◌∷◌, none, some, Outcome, ok, Text, inv_op,
  inv_arg, arith, lookup, String, lit, num, Bool-cases, inl, inr, if◌then◌else◌, Option-cases, ◌&&◌,
}
use dqcsim_rs.Types.Cycle.{Cycles}
use dqcsim_rs.Types.Qubit.{QubitRef}
use dqcsim_rs.Types.Arb.{ArbCmd}
use dqcsim_rs.Types.Gate.{Gate}
use dqcsim_rs.Plugin.State.{PluginState, QubitData, Context}
use dqcsim_rs.Plugin.Api.{
  is_backend, check_call, check_qubits_live, allocate, free, gate, synced_measurement,
  get_measurement, get_cycles_since_measure, get_cycles_between_measures, advance, get_cycle, arb,
}

-- The call ended with an "invalid operation" error and left the state as it was.
abbrev pub Refused : {S A : Type 0} → S → Outcome A × S → Type 0
Refused s (r, s') = ((message : Text) × (r ≡ inv_op message)) × (s' ≡ s)

-- The plugin is a backend, or it handles a downstream message just now.
abbrev pub blocked : {R : Type 0} → Context R → PluginState R → Bool
blocked cx s = is_backend cx.typ || not s.synchronized_to_rpcs

-- The message of the refusal.
abbrev pub reason : {R : Type 0} → Context R → String → Text
reason cx name =
    if is_backend cx.typ
    then lit name ∷ lit "() is not available for backends" ∷ []
    else lit name ∷ lit "() cannot be called while handling a gatestream response" ∷ []

check_call-blocked :
    {R : Type 0} (cx : Context R) (s : PluginState R) (name : String)
    → blocked cx s ≡ true
    → check_call cx name s ≡ (inv_op (reason cx name), s)
unfolding check_call
check_call-blocked cx s name h = elim (Bool-cases (is_backend cx.typ)) [
  | inl e ↦ rw e refl
  | inr e ↦ let k : not s.synchronized_to_rpcs ≡ true = ground arith in rw (e, k) refl
]

-- In a backend, and in any plugin while it handles a message of the downstream plugin, each of the
-- nine calls on the downstream plugin ends with an "invalid operation" error, whatever its
-- arguments are, and changes nothing: no sequence number is used up, nothing is sent, and no qubit
-- is created or forgotten.
pub calls-Refused :
    {R : Type 0} (cx : Context R) (s : PluginState R) (n : ℕ) (qubits : List QubitRef)
    (qubit : QubitRef) (g : Gate) (cycles : Cycles) (cmds : List ArbCmd) (cmd : ArbCmd)
    → blocked cx s ≡ true
    → Refused s (allocate cx n cmds s)
      × Refused s (free cx qubits s)
      × Refused s (gate cx g s)
      × Refused s (get_measurement cx qubit s)
      × Refused s (get_cycles_since_measure cx qubit s)
      × Refused s (get_cycles_between_measures cx qubit s)
      × Refused s (advance cx cycles s)
      × Refused s (get_cycle cx s)
      × Refused s (arb cx cmd s)
unfolding allocate free gate get_measurement synced_measurement get_cycles_since_measure
    get_cycles_between_measures advance get_cycle arb
calls-Refused cx s n qubits qubit g cycles cmds cmd h = (
  rw (check_call-blocked cx s "allocate" h) ((_, refl), refl),
  rw (check_call-blocked cx s "free" h) ((_, refl), refl),
  rw (check_call-blocked cx s "gate" h) ((_, refl), refl),
  rw (check_call-blocked cx s "get_measurement" h) ((_, refl), refl),
  rw (check_call-blocked cx s "get_cycles_since_measure" h) ((_, refl), refl),
  rw (check_call-blocked cx s "get_cycles_between_measures" h) ((_, refl), refl),
  rw (check_call-blocked cx s "advance" h) ((_, refl), refl),
  rw (check_call-blocked cx s "get_cycle" h) ((_, refl), refl),
  rw (check_call-blocked cx s "arb" h) ((_, refl), refl),
)

-- The map has an entry for each of the qubits.
abbrev pub known : List (QubitRef × QubitData) → List QubitRef → Bool
known m [] = true
known m (q ∷ qs) = elim (lookup q m) [ none ↦ false | some _ ↦ known m qs ]

-- All the qubits are allocated.
abbrev pub live : {R : Type 0} → PluginState R → List QubitRef → Bool
live s qs = known s.downstream_qubit_data qs

pub check_qubits_live_lem :
    {R : Type 0} (qs : List QubitRef) (s : PluginState R)
    → live s qs ≡ true
    → check_qubits_live qs s ≡ (ok tt, s)
unfolding check_qubits_live
check_qubits_live_lem [] s h = refl
check_qubits_live_lem (q ∷ qs) s h = elim (Option-cases (lookup q s.downstream_qubit_data)) [
  | inl e ↦ absurd (ground (arith, e))
  | inr (d, e) ↦
      let h' : live s qs ≡ true = ground (arith, e, h) in
      ground (arith, e, check_qubits_live_lem qs s h')
]

-- A list with a qubit that is not allocated is an invalid argument, and nothing changes.
abbrev pub Rejected : {S A : Type 0} → S → Outcome A × S → Type 0
Rejected s (r, s') = ((message : Text) × (r ≡ inv_arg message)) × (s' ≡ s)

pub check_qubits_live-Rejected :
    {R : Type 0} (qs : List QubitRef) (s : PluginState R)
    → live s qs ≡ false
    → (message : Text) × (check_qubits_live qs s ≡ (inv_arg message, s))
unfolding check_qubits_live
check_qubits_live-Rejected [] s h = absurd (ground (arith, h))
check_qubits_live-Rejected (q ∷ qs) s h = elim (Option-cases (lookup q s.downstream_qubit_data)) [
  | inl e ↦ (lit "qubit " ∷ num q ∷ lit " is not allocated" ∷ [], ground (arith, e))
  | inr (d, e) ↦
      let h' : live s qs ≡ false = ground (arith, e, h) in
      let (message, f) = check_qubits_live-Rejected qs s h' in (message, ground (arith, e, f))
]

pub check_call_lem :
    {R : Type 0} (cx : Context R) (s : PluginState R) (name : String)
    → blocked cx s ≡ false
    → check_call cx name s ≡ (ok tt, s)
unfolding check_call
check_call_lem cx s name h =
    let e : is_backend cx.typ ≡ false = ground arith in
    let k : not s.synchronized_to_rpcs ≡ false = ground arith in rw (e, k) refl

-- A gate whose targets, controls and measures are not all allocated, in a plugin that may make the
-- call, is refused with an "invalid argument" error and changes nothing, so that it sends nothing
-- downstream; and so is freeing qubits that are not all allocated.
pub gate-Rejected :
    {R : Type 0} (cx : Context R) (s : PluginState R) (g : Gate) (qubits : List QubitRef)
    → blocked cx s ≡ false
    → (live s g.targets && live s g.controls && live s g.measures) ≡ false
    → live s qubits ≡ false
    → Rejected s (gate cx g s) × Rejected s (free cx qubits s)
unfolding gate free
gate-Rejected cx s g qubits b h k = (
  rw (check_call_lem cx s "gate" b) (elim (Bool-cases (live s g.targets)) [
    | inr e ↦ let (m, f) = check_qubits_live-Rejected g.targets s e in rw f ((m, refl), refl)
    | inl e ↦ rw (check_qubits_live_lem g.targets s e) (elim (Bool-cases (live s g.controls)) [
      | inr e' ↦ let (m, f) = check_qubits_live-Rejected g.controls s e' in rw f ((m, refl), refl)
      | inl e' ↦
          let (m, f) = check_qubits_live-Rejected g.measures s (ground (arith, e, e', h)) in
          rw (check_qubits_live_lem g.controls s e', f) ((m, refl), refl)
    ])
  ]),
  let (m, f) = check_qubits_live-Rejected qubits s k in
      rw (check_call_lem cx s "free" b, f) ((m, refl), refl),
)
