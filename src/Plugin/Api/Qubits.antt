-- ===== src/Plugin/Api/Qubits.antt =====
-- What the calls do where they are allowed: the requests that leave, their numbers, and what the plugin
-- keeps about its qubits.
use dqcsim_rs.Common.{
  ℕ, ◌+◌, ◌%◌, ◌^◌, ◌<◌, Bool, true, false, ◌||◌, ◌≡◌, refl, ap, List, [], ◌∷◌, ◌++◌, Option, none,
  some, Outcome, ok, arith, lookup, put, lookup-put, ◌==◌, if◌then◌else◌, contains, map,
}
use dqcsim_rs.Types.Sequence.{no_sequence, get_next}
use dqcsim_rs.Types.Qubit.{QubitRef}
use dqcsim_rs.Types.Qubit
use dqcsim_rs.Types.Arb.{ArbCmd}
use dqcsim_rs.Protocol.{PipelinedGatestreamDown, pipelined}
use dqcsim_rs.Plugin.Connection.{Connection, OutgoingMessage}
use dqcsim_rs.Plugin.State.{PluginState, QubitData, Context}
use dqcsim_rs.Plugin.Api.{insert_qubits, remove_qubits, send_down, new_qubits, allocate, free}
use dqcsim_rs.Plugin.Api.Guards.{blocked, check_call_lem, live, check_qubits_live_lem}

-- The downstream plugin is connected, and no coming call of `send()` is known to fail.
pub record CanSendDown (c : Connection) : Type 0 where
  pub connected : c.has_downstream ≡ true
  pub open_end : c.send_results ≡ []

-- The state after one more request.
abbrev pub requested : {R : Type 0} → PipelinedGatestreamDown → PluginState R → PluginState R
requested request s = record s {
  downstream_sequence_tx = (get_next s.downstream_sequence_tx).1;
  connection = record (s.connection) {
    outbox =
        s.connection.outbox
        ++ OutgoingMessage.downstream (pipelined (get_next s.downstream_sequence_tx).0 request)
          ∷ [];
  };
}

pub send_down_lem :
    {R : Type 0} (request : PipelinedGatestreamDown) (s : PluginState R)
    → CanSendDown s.connection
    → send_down request s ≡ (ok tt, requested request s)
unfolding send_down
send_down_lem request s c = ground arith

abbrev pub new_data : QubitData
new_data = record { measurement = none; last_mutation = no_sequence }

lookup-insert_qubits :
    (qs : List QubitRef) (m : List (QubitRef × QubitData)) (q : QubitRef)
    → lookup q (insert_qubits qs m) ≡ (if contains qs q then some new_data else lookup q m)
unfolding insert_qubits contains
lookup-insert_qubits [] m q = refl
lookup-insert_qubits (p ∷ ps) m q =
    ground (arith, lookup-insert_qubits ps (put p new_data m) q, lookup-put p q new_data m)

lookup-remove_qubits :
    (qs : List QubitRef) (m : List (QubitRef × QubitData)) (q : QubitRef)
    → lookup q (remove_qubits qs m) ≡ (if contains qs q then none else lookup q m)
unfolding remove_qubits contains
lookup-remove_qubits [] m q = refl
lookup-remove_qubits (p ∷ ps) m q = ground (
  arith,
  lookup-remove_qubits ps (dqcsim_rs.Common.erase p m) q,
  dqcsim_rs.Common.lookup-erase p q m,
)

-- The state with storage for the new qubits.
abbrev pub with_qubits : {R : Type 0} → ℕ → PluginState R → PluginState R
with_qubits n s = record s {
  downstream_qubit_ref_generator = (Qubit.allocate s.downstream_qubit_ref_generator n).1;
  downstream_qubit_data =
      insert_qubits (Qubit.allocate s.downstream_qubit_ref_generator n).0 s.downstream_qubit_data;
}

new_qubits_lem :
    {R : Type 0} (cx : Context R) (s : PluginState R) (n : ℕ)
    → new_qubits cx n s
      ≡ (ok (Qubit.allocate s.downstream_qubit_ref_generator n).0, with_qubits n s)
unfolding new_qubits
new_qubits_lem cx s n = refl

pub allocate_eq :
    {R : Type 0} (cx : Context R) (s : PluginState R) (n : ℕ) (commands : List ArbCmd)
    → blocked cx s ≡ false
    → CanSendDown s.connection
    → allocate cx n commands s ≡ (
      ok (Qubit.allocate s.downstream_qubit_ref_generator n).0,
      requested (PipelinedGatestreamDown.allocate n commands) (with_qubits n s),
    )
unfolding allocate
allocate_eq cx s n commands b c = ground (
  arith,
  check_call_lem cx s "allocate" b,
  new_qubits_lem cx s n,
  send_down_lem (PipelinedGatestreamDown.allocate n commands) (with_qubits n s)
      (record { connected = c.connected; open_end = c.open_end }),
)

-- Where the call is allowed and the downstream plugin can be reached, `allocate` returns the references
-- that the generator hands out, sends one `Allocate` request under the next sequence number and
-- nothing else, and afterwards the plugin knows each of the new qubits, without a measurement, and
-- about every other qubit what it knew before.
pub allocate_lem :
    {R : Type 0} (cx : Context R) (s : PluginState R) (n : ℕ) (commands : List ArbCmd)
    (q : QubitRef)
    → blocked cx s ≡ false
    → CanSendDown s.connection
    → let (r, s') = allocate cx n commands s in
      let (qubits, g) = Qubit.allocate s.downstream_qubit_ref_generator n in
      (r ≡ ok qubits)
      × (s'.downstream_qubit_ref_generator ≡ g)
      × (s'.connection ≡ (requested (PipelinedGatestreamDown.allocate n commands) s).connection)
      × (lookup q s'.downstream_qubit_data
          ≡ (if contains qubits q then some new_data else lookup q s.downstream_qubit_data))
allocate_lem cx s n commands q b c = rw (allocate_eq cx s n commands b c) (
  refl,
  refl,
  refl,
  lookup-insert_qubits (Qubit.allocate s.downstream_qubit_ref_generator n).0 s.downstream_qubit_data
      q,
)

-- Where the call is allowed, the qubits are allocated and the downstream plugin can be reached, `free`
-- succeeds, sends one `Free` request under the next sequence number and nothing else, and afterwards
-- the plugin knows none of the freed qubits, and about every other qubit what it knew before.
pub free_lem :
    {R : Type 0} (cx : Context R) (s : PluginState R) (qubits : List QubitRef) (q : QubitRef)
    → blocked cx s ≡ false
    → live s qubits ≡ true
    → CanSendDown s.connection
    → let (r, s') = free cx qubits s in
      (r ≡ ok tt)
      × (s'.connection ≡ (requested (PipelinedGatestreamDown.free qubits) s).connection)
      × (lookup q s'.downstream_qubit_data
          ≡ (if contains qubits q then none else lookup q s.downstream_qubit_data))
unfolding free
free_lem cx s qubits q b l c =
    rw
      (
        check_call_lem cx s "free" b,
        check_qubits_live_lem qubits s l,
        send_down_lem (PipelinedGatestreamDown.free qubits) s c,
      )
      (refl, refl, lookup-remove_qubits qubits s.downstream_qubit_data q)
