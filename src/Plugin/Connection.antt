-- ===== src/Plugin/Connection.antt =====
-- `rust/src/core/plugin/connection.rs`. The `ipc_channel` crate enters as data: `incoming` lists what
-- the coming calls of `select()` return, `send_results` how the coming calls of `send()` end (they
-- succeed where the list has ended), and the channel set-up is an argument. `outbox` collects what
-- was sent. A `select()` past the end of its list waits for ever.
pub mod Buffer
pub mod Arrivals
pub mod Rounds
pub mod Delivery
pub mod Order
pub mod Next
use dqcsim_rs.Common.{
  ℕ, zero, suc, ◌+◌, Bool, true, false, not, if◌then◌else◌, String, List, [], ◌∷◌, ◌++◌, length,
  is_empty, Option, none, some, Outcome, ok, err, fault, panicked, hung, out_of_fuel, inv_op, say,
  M, ErrorKind, ipc_error, ◌>>=◌, ◌>>◌, pass, lift, return, lookup, put, erase, guard,
}
use dqcsim_rs.Protocol.{SimulatorToPlugin, PluginToSimulator, GatestreamUp, GatestreamDown}

-- The kind of channel behind an identifier of the receiver set.
pub data Incoming : Type 0 where
  simulator upstream downstream : Incoming

pub data IncomingMessage : Type 0 where
  simulator : SimulatorToPlugin → IncomingMessage
  upstream : GatestreamDown → IncomingMessage
  downstream : GatestreamUp → IncomingMessage

pub data OutgoingMessage : Type 0 where
  simulator : PluginToSimulator → OutgoingMessage
  upstream : GatestreamUp → OutgoingMessage
  downstream : GatestreamDown → OutgoingMessage

-- What deserializing a message at some type gives.
pub data Parsed (A : Type 0) : Type 0 where
  parsed : A → Parsed A
  unreadable : ErrorKind → Parsed A

-- A raw message, as what `to()` returns at each of the three types.
pub record IpcMessage : Type 0 where
  pub to_simulator : Parsed SimulatorToPlugin
  pub to_upstream : Parsed GatestreamDown
  pub to_downstream : Parsed GatestreamUp

-- `IpcSelectionResult`.
pub data Event : Type 0 where
  message_received : ℕ → IpcMessage → Event
  channel_closed : ℕ → Event

-- What one call of `select()` returns.
pub data Selection : Type 0 where
  selected : List Event → Selection
  failed : ErrorKind → Selection

-- The three channel ends are kept as whether they are there.
pub record Connection : Type 0 where
  pub incoming : List Selection
  pub incoming_map : List (ℕ × Incoming)
  pub incoming_buffer : List IncomingMessage
  pub pending_upstream : Bool
  pub has_upstream : Bool
  pub has_downstream : Bool
  pub send_results : List (Option ErrorKind)
  pub outbox : List OutgoingMessage

-- `Connection::new`; `link` is what connecting to the simulator and adding its channel to the
-- receiver set returns: the identifier of the channel.
unfoldable pub new : List Selection → List (Option ErrorKind) → Outcome ℕ → Outcome Connection
new selections send_results link = elim link [
  | ok id ↦ ok (record {
    incoming = selections;
    incoming_map = (id, Incoming.simulator) ∷ [];
    incoming_buffer = [];
    pending_upstream = false;
    has_upstream = false;
    has_downstream = false;
    send_results = send_results;
    outbox = [];
  })
  | err e ↦ err e
  | fault p ↦ fault p
]

-- `link` is what connecting to the downstream plugin, making and sending the channels and adding the
-- receiver returns.
unfoldable pub connect_downstream : Outcome ℕ → M Connection (Unit {0})
connect_downstream link = λ c.
    (do
      guard c.has_downstream
          (ErrorKind.invalid_operation (say "already connected to a downstream plugin"))
      id ← lift link
      λ c'. (
        ok tt,
        record c' {
          incoming_map = put id Incoming.downstream c'.incoming_map;
          has_downstream = true;
        },
      ))
      c

-- `server` is what `IpcOneShotServer::new()` returns: the address.
unfoldable pub serve_upstream : Outcome String → M Connection String
serve_upstream server = λ c.
    (do
      guard c.pending_upstream
          (ErrorKind.invalid_operation (say "already connecting to an upstream plugin"))
      guard c.has_upstream
          (ErrorKind.invalid_operation (say "already connected to an upstream plugin"))
      address ← lift server
      λ c'. (ok address, record c' { pending_upstream = true }))
      c

-- `accepted` is what `accept()` and adding the receiver return. The pending server is taken first.
unfoldable pub accept_upstream : Outcome ℕ → M Connection (Unit {0})
accept_upstream accepted = λ c.
    (do
      guard (not c.pending_upstream) (
          ErrorKind.invalid_operation
            (say "not yet connecting to an upstream plugin, call serve_upstream() first"))
      guard c.has_upstream
          (ErrorKind.invalid_operation (say "already connected to an upstream plugin"))
      λ c'.
          (do
            id ← lift accepted
            λ c''. (
              ok tt,
              record c'' {
                incoming_map = put id Incoming.upstream c''.incoming_map;
                has_upstream = true;
              },
            ))
            (record c' { pending_upstream = false }))
      c

-- One `IpcSender::send`.
unfoldable pub transmit : OutgoingMessage → M Connection (Unit {0})
transmit message c = elim c.send_results [
  | [] ↦ (ok tt, record c { outbox = c.outbox ++ message ∷ [] })
  | none ∷ rest ↦ (ok tt, record c { outbox = c.outbox ++ message ∷ []; send_results = rest })
  | some e ∷ rest ↦ (err e, record c { send_results = rest })
]

unfoldable pub send : OutgoingMessage → M Connection (Unit {0})
unfolding transmit
send (OutgoingMessage.simulator response) c = transmit (OutgoingMessage.simulator response) c
send (OutgoingMessage.downstream request) c =
    if c.has_downstream
    then transmit (OutgoingMessage.downstream request) c
    else (err (ipc_error (say "Downstream sender does not exist")), c)
send (OutgoingMessage.upstream response) c =
    if c.has_upstream
    then transmit (OutgoingMessage.upstream response) c
    else (err (ipc_error (say "Upstream sender does not exist")), c)

-- `msg.to()?` at the type that the channel carries.
unfoldable pub decode : Incoming → IpcMessage → Outcome IncomingMessage
decode Incoming.simulator msg = elim msg.to_simulator [
  | parsed m ↦ ok (IncomingMessage.simulator m)
  | unreadable e ↦ err e
]
decode Incoming.upstream msg = elim msg.to_upstream [
  | parsed m ↦ ok (IncomingMessage.upstream m)
  | unreadable e ↦ err e
]
decode Incoming.downstream msg = elim msg.to_downstream [
  | parsed m ↦ ok (IncomingMessage.downstream m)
  | unreadable e ↦ err e
]

-- The `for event in ..` loop; the result is `received_any`.
unfoldable pub handle_events : List Event → Bool → M Connection Bool
unfolding decode
handle_events [] received_any c = (ok received_any, c)
handle_events (message_received id msg ∷ events) received_any c = elim (lookup id c.incoming_map) [
  | none ↦ handle_events events received_any c
  | some incoming ↦
      pass
        (λ m c'.
          handle_events events true (record c' { incoming_buffer = c'.incoming_buffer ++ m ∷ [] }))
        (decode incoming msg, c)
]
handle_events (channel_closed id ∷ events) received_any c =
    handle_events events received_any (record c { incoming_map = erase id c.incoming_map })

-- The `while` loop of `buffer_incoming`, over what `select()` will return.
unfoldable pub buffer_loop : List Selection → M Connection (Unit {0})
unfolding handle_events
buffer_loop [] c = if is_empty c.incoming_map then (ok tt, c) else (fault hung, c)
buffer_loop (failed e ∷ selections) c =
    if is_empty c.incoming_map then (ok tt, c) else (err e, record c { incoming = selections })
buffer_loop (selected events ∷ selections) c =
    let more =
      pass
        (λ received_any c'. elim received_any [
          | true ↦ (ok tt, c')
          | false ↦ buffer_loop selections c'
        ])
        (handle_events events false (record c { incoming = selections })) in
    if is_empty c.incoming_map then (ok tt, c) else more

unfoldable pub buffer_incoming : M Connection (Unit {0})
unfolding buffer_loop
buffer_incoming c = buffer_loop c.incoming c

-- `incoming_buffer.pop_front()`.
unfoldable pub pop_front : M Connection (Option IncomingMessage)
pop_front c = elim c.incoming_buffer [
  | [] ↦ (ok none, c)
  | m ∷ rest ↦ (ok (some m), record c { incoming_buffer = rest })
]

unfoldable pub next_request : M Connection (Option IncomingMessage)
unfolding buffer_incoming pop_front
next_request c =
    if is_empty c.incoming_buffer then (buffer_incoming >> pop_front) c else pop_front c

-- The first downstream message and the buffer without it.
unfoldable pub take_downstream :
    List IncomingMessage → Option (IncomingMessage × List IncomingMessage)
take_downstream [] = none
take_downstream (IncomingMessage.downstream m ∷ rest) = some (IncomingMessage.downstream m, rest)
take_downstream (m ∷ rest) = elim (take_downstream rest) [
  | none ↦ none
  | some (d, others) ↦ some (d, m ∷ others)
]

-- `next_downstream_request`, whose call of itself takes one unit of fuel.
unfoldable pub next_downstream_loop : ℕ → M Connection (Option IncomingMessage)
unfolding take_downstream buffer_incoming
next_downstream_loop zero c = (fault out_of_fuel, c)
next_downstream_loop (suc fuel) c = elim (take_downstream c.incoming_buffer) [
  | some (m, rest) ↦ (ok (some m), record c { incoming_buffer = rest })
  | none ↦
      pass
        (λ _ c'. elim (is_empty c'.incoming_map) [
          | true ↦ (ok none, c')
          | false ↦ next_downstream_loop fuel c'
        ])
        (buffer_incoming c)
]

-- Each round takes at least one selection, so that this fuel suffices.
unfoldable pub next_downstream_request : M Connection (Option IncomingMessage)
unfolding next_downstream_loop
next_downstream_request c = next_downstream_loop (length c.incoming + 1) c
