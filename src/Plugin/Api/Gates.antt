-- ===== src/Plugin/Api/Gates.antt =====
-- What a gate call does where it is allowed: the request, the marks on the measured qubits, and the
-- measurements that the plugin then expects.
use dqcsim_rs.Common.{
  Bool, true, false, ◌≡◌, refl, sym, ◌∙◌, ap, List, [], ◌∷◌, ◌++◌, Option, none, some, ok, arith,
  lookup, put, lookup-put, ◌==◌, if◌then◌else◌, contains, insert, collect, is_empty, Bool-cases,
  Option-cases, inl, inr,
}
use dqcsim_rs.Common.Sets.{contains-cons, contains-nil}
use dqcsim_rs.Types.Sequence.{SequenceNumber, get_next}
use dqcsim_rs.Types.Qubit.{QubitRef}
use dqcsim_rs.Types.Gate.{Gate}
use dqcsim_rs.Protocol.{PipelinedGatestreamDown}
use dqcsim_rs.Plugin.State.{PluginState, QubitData, Context}
use dqcsim_rs.Plugin.Api.{mark_mutations, expect_measures, gate}
use dqcsim_rs.Plugin.Api.Guards.{blocked, check_call_lem, known, live, check_qubits_live_lem}
use dqcsim_rs.Plugin.Api.Qubits.{CanSendDown, requested, send_down_lem}

known-put :
    (m : List (QubitRef × QubitData)) (q : QubitRef) (d : QubitData) (qs : List QubitRef)
    → known m qs ≡ true
    → known (put q d m) qs ≡ true
known-put m q d [] h = refl
known-put m q d (p ∷ ps) h = elim (Option-cases (lookup p m)) [
  | inl e ↦ absurd (ground (arith, e, h))
  | inr (d', e) ↦ ground (arith, e, lookup-put q p d m, known-put m q d ps (ground (arith, e, h)))
]

known-insert :
    (m : List (QubitRef × QubitData)) (set : List QubitRef) (q : QubitRef)
    → known m set ≡ true
    → known m (q ∷ []) ≡ true
    → known m (insert set q) ≡ true
unfolding insert
known-insert m set q h k = ground (arith, append set h)
  where
    append : (set : List QubitRef) → known m set ≡ true → known m (set ++ q ∷ []) ≡ true
    append [] h = k
    append (p ∷ ps) h = elim (Option-cases (lookup p m)) [
      | inl e ↦ absurd (ground (arith, e, h))
      | inr (d', e) ↦ ground (arith, e, append ps (ground (arith, e, h)))
    ]

known-collect :
    (m : List (QubitRef × QubitData)) (set qs : List QubitRef)
    → known m set ≡ true
    → known m qs ≡ true
    → known m (collect set qs) ≡ true
unfolding collect
known-collect m set [] h k = h
known-collect m set (q ∷ qs) h k = elim (Option-cases (lookup q m)) [
  | inl e ↦ absurd (ground (arith, e, k))
  | inr (d, e) ↦
      known-collect m (insert set q) qs (known-insert m set q h (ground (arith, e)))
        (ground (arith, e, k))
]

-- The entry of a qubit once the qubits of a list are marked with a sequence number.
abbrev pub marked : SequenceNumber → Bool → Option QubitData → Option QubitData
marked sequence measured none = none
marked sequence measured (some d) =
    some (if measured then record d { last_mutation = sequence } else d)

mark_mutations_lem :
    (sequence : SequenceNumber) (qs : List QubitRef) (m : List (QubitRef × QubitData))
    → known m qs ≡ true
    → (m' : List (QubitRef × QubitData)) × (mark_mutations sequence qs m ≡ ok m')
      × ((q : QubitRef) → lookup q m' ≡ marked sequence (contains qs q) (lookup q m))
unfolding mark_mutations
mark_mutations_lem sequence [] m h = (m, refl, λ q. go q (lookup q m))
  where
    go : (q : QubitRef) (o : Option QubitData) → o ≡ marked sequence (contains [] q) o
    go q none = refl
    go q (some d) = ground (arith, contains-nil q)
mark_mutations_lem sequence (p ∷ ps) m h = elim (Option-cases (lookup p m)) [
  | inl e ↦ absurd (ground (arith, e, h))
  | inr (d, e) ↦
      let d' = record d { last_mutation = sequence } in
      let (m', f, g) =
        mark_mutations_lem sequence ps (put p d' m) (known-put m p d' ps (ground (arith, e, h))) in
      (m', ground (arith, e, f), λ q. g q ∙ go q d e (lookup q m) refl)
]
  where
    go :
        (q : QubitRef) (d : QubitData)
        → lookup p m ≡ some d
        → (o : Option QubitData) → lookup q m ≡ o
        → marked sequence
            (contains ps q)
            (lookup q (put p (record d { last_mutation = sequence }) m))
          ≡ marked sequence (contains (p ∷ ps) q) (lookup q m)
    go q d e o f = elim (Bool-cases (p == q)) [
      | inr ne ↦ ground (
        arith,
        lookup-put p q (record d { last_mutation = sequence }) m,
        contains-cons p q ps,
        ne,
      )
      | inl eq ↦
          let k : lookup q m ≡ some d = ap (λ i. lookup i m) (sym (ground arith)) ∙ e in
          ground (
            arith,
            lookup-put p q (record d { last_mutation = sequence }) m,
            contains-cons p q ps,
            eq,
            k,
          )
    ]

-- What the plugin keeps after the request is sent.
abbrev expected :
    {R : Type 0} → List QubitRef → List (QubitRef × QubitData) → PluginState R → PluginState R
expected measures m s = record s {
  downstream_qubit_data = m;
  downstream_expected_measurements =
      if is_empty measures
      then s.downstream_expected_measurements
      else s.downstream_expected_measurements ++ (s.downstream_sequence_tx.previous, measures) ∷ [];
}

expect_measures_eq :
    {R : Type 0} (cx : Context R) (s : PluginState R) (measures : List QubitRef)
    (m : List (QubitRef × QubitData))
    → mark_mutations s.downstream_sequence_tx.previous measures s.downstream_qubit_data ≡ ok m
    → expect_measures cx measures s ≡ (ok tt, expected measures m s)
unfolding expect_measures
expect_measures_eq cx s measures m e = ground (arith, e)

gate_eq :
    {R : Type 0} (cx : Context R) (s : PluginState R) (g : Gate)
    → blocked cx s ≡ false
    → live s g.targets ≡ true
    → live s g.controls ≡ true
    → live s g.measures ≡ true
    → CanSendDown s.connection
    → gate cx g s
      ≡ expect_measures cx (collect [] g.measures) (requested (PipelinedGatestreamDown.gate g) s)
unfolding gate
gate_eq cx s g b t c m can = ground (
  arith,
  check_call_lem cx s "gate" b,
  check_qubits_live_lem g.targets s t,
  check_qubits_live_lem g.controls s c,
  check_qubits_live_lem g.measures s m,
  send_down_lem (PipelinedGatestreamDown.gate g) s can,
)

-- Where the call is allowed, all the qubits of the gate are allocated and the downstream plugin can be
-- reached, `gate` succeeds and sends the gate unchanged in one request under the next sequence number.
-- If the gate measures qubits, that number joins the end of the expected measurements with the set of
-- these qubits, and exactly these qubits are marked as last changed by it; otherwise nothing is
-- expected.
pub gate_lem :
    {R : Type 0} (cx : Context R) (s : PluginState R) (g : Gate) (q : QubitRef)
    → blocked cx s ≡ false
    → live s g.targets ≡ true
    → live s g.controls ≡ true
    → live s g.measures ≡ true
    → CanSendDown s.connection
    → let (r, s') = gate cx g s in
      let sequence = (get_next s.downstream_sequence_tx).0 in
      let measures = collect [] g.measures in
      (r ≡ ok tt)
      × (s'.connection ≡ (requested (PipelinedGatestreamDown.gate g) s).connection)
      × (s'.downstream_sequence_tx ≡ (get_next s.downstream_sequence_tx).1)
      × (s'.downstream_expected_measurements ≡ (
          if is_empty measures
          then s.downstream_expected_measurements
          else s.downstream_expected_measurements ++ (sequence, measures) ∷ []))
      × (lookup q s'.downstream_qubit_data
          ≡ marked sequence (contains measures q) (lookup q s.downstream_qubit_data))
unfolding get_next
gate_lem cx s g q b t c m can =
    let (m', e, f) =
      mark_mutations_lem (get_next s.downstream_sequence_tx).0 (collect [] g.measures)
        s.downstream_qubit_data (known-collect s.downstream_qubit_data [] g.measures refl m) in
    rw
      (
        gate_eq cx s g b t c m can,
        expect_measures_eq cx (requested (PipelinedGatestreamDown.gate g) s) (collect [] g.measures)
            m' e,
      )
      (refl, refl, refl, refl, f q)

-- The call leaves the postponed acknowledgements alone.
pub gate-upstream_postponed :
    {R : Type 0} (cx : Context R) (s : PluginState R) (g : Gate)
    → blocked cx s ≡ false
    → live s g.targets ≡ true
    → live s g.controls ≡ true
    → live s g.measures ≡ true
    → CanSendDown s.connection
    → (gate cx g s).1.upstream_postponed ≡ s.upstream_postponed
unfolding get_next
gate-upstream_postponed cx s g b t c m can =
    let (m', e, f) =
      mark_mutations_lem (get_next s.downstream_sequence_tx).0 (collect [] g.measures)
        s.downstream_qubit_data (known-collect s.downstream_qubit_data [] g.measures refl m) in
    rw
      (
        gate_eq cx s g b t c m can,
        expect_measures_eq cx (requested (PipelinedGatestreamDown.gate g) s) (collect [] g.measures)
            m' e,
      )
      refl
