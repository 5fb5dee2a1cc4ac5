-- ===== src/Plugin/Connection/Buffer.antt =====
-- Buffering incoming messages: what arrives joins the end of the buffer, and the rest of the connection
-- stays as it is.
use dqcsim_rs.Common.{
  ℕ, suc, ◌+◌, ◌≤◌, Bool, true, ◌≡◌, ◌≢◌, refl, sym, ◌∙◌, List, [], ◌∷◌, ◌++◌, length, Option, none,
  some, Outcome, ok, err, fault, out_of_fuel, arith, length-append, ErrorKind, lookup, erase, pass,
  Option-cases, inl, inr,
}
use mathlib.Core.List.{append-nil, append_assoc}
use dqcsim_rs.Protocol.{SimulatorToPlugin, GatestreamUp, GatestreamDown}
use dqcsim_rs.Plugin.Connection.{
  Connection, IncomingMessage, OutgoingMessage, Event, message_received, channel_closed, Selection,
  selected, failed, Parsed, parsed, unreadable, decode, handle_events, Incoming, IpcMessage,
}

-- The events of the coming selections.
abbrev pub coming_events : List Selection → ℕ
coming_events [] = 0
coming_events (selected events ∷ rest) = length events + coming_events rest
coming_events (failed e ∷ rest) = coming_events rest

-- The sending side of a connection.
abbrev pub sending_side :
    Connection → List OutgoingMessage × List (Option ErrorKind) × Bool × Bool × Bool
sending_side c = (c.outbox, c.send_results, c.has_upstream, c.has_downstream, c.pending_upstream)

-- Messages joined the buffer, no more of them than the events that `before` and `after` differ by.
pub record Appends (before remaining : ℕ) (c c' : Connection) : Type 0 where
  pub news : List IncomingMessage
  pub appended : c'.incoming_buffer ≡ c.incoming_buffer ++ news
  pub bound : length news + remaining ≤ before
  pub sending : sending_side c' ≡ sending_side c

pub Appends-refl :
    (n : ℕ) (c c' : Connection)
    → c'.incoming_buffer ≡ c.incoming_buffer
    → sending_side c' ≡ sending_side c
    → Appends n n c c'
Appends-refl n c c' e f = record {
  news = [];
  appended = e ∙ sym (append-nil c.incoming_buffer);
  bound = omega arith;
  sending = f;
}

pub Appends-trans :
    (a b m n : ℕ) (c c' c'' : Connection)
    → Appends a m c c'
    → Appends b n c' c''
    → Appends (a + b) (m + n) c c''
Appends-trans a b m n c c' c'' p q = record {
  news = p.news ++ q.news;
  appended = rw (q.appended, p.appended, append_assoc c.incoming_buffer p.news q.news) refl;
  bound = omega (arith, p.bound, q.bound, length-append p.news q.news);
  sending = q.sending ∙ p.sending;
}

-- The same bound, or a wider one.
pub Appends-le :
    (a b m n : ℕ) (c c' : Connection) → Appends a m c c' → a + n ≤ b + m → Appends b n c c'
Appends-le a b m n c c' p h = record {
  news = p.news;
  appended = p.appended;
  bound = omega (arith, p.bound);
  sending = p.sending;
}

-- The start replaced by a connection with the same buffer and sending side.
pub Appends-from :
    (a n : ℕ) (c d c' : Connection)
    → d.incoming_buffer ≡ c.incoming_buffer
    → sending_side d ≡ sending_side c
    → Appends a n d c'
    → Appends a n c c'
Appends-from a n c d c' e f p = record {
  news = p.news;
  appended = rw (p.appended, e) refl;
  bound = p.bound;
  sending = p.sending ∙ f;
}

-- One more message, then more of them.
appended_one :
    (n : ℕ) (m : IncomingMessage) (c c' : Connection)
    → Appends n 0 (record c { incoming_buffer = c.incoming_buffer ++ m ∷ [] }) c'
    → Appends (suc n) 0 c c'
appended_one n m c c' p = record {
  news = m ∷ p.news;
  appended = p.appended ∙ append_assoc c.incoming_buffer (m ∷ []) p.news;
  bound = omega (arith, p.bound);
  sending = p.sending;
}

-- One message event, by what the map says about its channel and what reading it gives.
received-Appends :
    (events : List Event) (id : ℕ) (msg : IpcMessage) (b : Bool) (c : Connection)
    → ((b' : Bool) (c' : Connection) → Appends (length events) 0 c' (handle_events events b' c').1)
    → Appends (suc (length events)) 0 c (handle_events (message_received id msg ∷ events) b c).1
unfolding handle_events
received-Appends events id msg b c ih = elim (Option-cases (lookup id c.incoming_map)) [
  | inl e ↦
      rw (e, handle_events)
        (Appends-le (length events) (suc (length events)) 0 0 c _ (ih b c) (omega arith))
  | inr (channel, e) ↦ rw (e, handle_events) (read (decode channel msg))
]
  where
    read :
        (r : Outcome IncomingMessage)
        → Appends
            (suc (length events))
            0
            c
            (pass
              (λ m c'.
                handle_events events true
                  (record c' { incoming_buffer = c'.incoming_buffer ++ m ∷ [] }))
              (r, c)).1
    read (ok m) = appended_one (length events) m c _ (ih true _)
    read (err e) =
        Appends-le 0 (suc (length events)) 0 0 c c (Appends-refl 0 c c refl refl) (omega arith)
    read (fault p) =
        Appends-le 0 (suc (length events)) 0 0 c c (Appends-refl 0 c c refl refl) (omega arith)

pub handle_events-Appends :
    (events : List Event) (b : Bool) (c : Connection)
    → Appends (length events) 0 c (handle_events events b c).1
unfolding handle_events
handle_events-Appends [] b c = Appends-refl 0 c c refl refl
handle_events-Appends (message_received id msg ∷ events) b c =
    received-Appends events id msg b c (handle_events-Appends events)
handle_events-Appends (channel_closed id ∷ events) b c =
    let d = record c { incoming_map = erase id c.incoming_map } in
    Appends-from (suc (length events)) 0 c d _ refl refl (
      Appends-le (length events) (suc (length events)) 0 0 d _ (handle_events-Appends events b d)
        (omega arith))

-- Reading a message stops nothing.
abbrev IsRead : Outcome IncomingMessage → Type 0
IsRead (fault p) = ⊥
IsRead _ = Unit

decode-no_fault : (channel : Incoming) (msg : IpcMessage) → IsRead (decode channel msg)
unfolding decode
decode-no_fault Incoming.simulator msg = go msg.to_simulator refl
  where
    go :
        (p : Parsed SimulatorToPlugin)
        → msg.to_simulator ≡ p
        → IsRead (decode Incoming.simulator msg)
    go (parsed m) e = rw (e, decode) tt
    go (unreadable m) e = rw (e, decode) tt
decode-no_fault Incoming.upstream msg = go msg.to_upstream refl
  where
    go : (p : Parsed GatestreamDown) → msg.to_upstream ≡ p → IsRead (decode Incoming.upstream msg)
    go (parsed m) e = rw (e, decode) tt
    go (unreadable m) e = rw (e, decode) tt
decode-no_fault Incoming.downstream msg = go msg.to_downstream refl
  where
    go : (p : Parsed GatestreamUp) → msg.to_downstream ≡ p → IsRead (decode Incoming.downstream msg)
    go (parsed m) e = rw (e, decode) tt
    go (unreadable m) e = rw (e, decode) tt

-- The call changed no coming selection, and did not run out of fuel.
abbrev pub KeepsIncoming : List Selection → Outcome Bool × Connection → Type 0
KeepsIncoming selections (r, c) = (c.incoming ≡ selections) × (r ≢ fault out_of_fuel)

received-KeepsIncoming :
    (events : List Event) (id : ℕ) (msg : IpcMessage) (b : Bool) (c : Connection)
    → ((b' : Bool) (c' : Connection) → KeepsIncoming c'.incoming (handle_events events b' c'))
    → KeepsIncoming c.incoming (handle_events (message_received id msg ∷ events) b c)
unfolding handle_events
received-KeepsIncoming events id msg b c ih = go (lookup id c.incoming_map) refl
  where
    read :
        (r : Outcome IncomingMessage)
        → IsRead r
        → KeepsIncoming c.incoming (
            pass
              (λ m c'.
                handle_events events true
                  (record c' { incoming_buffer = c'.incoming_buffer ++ m ∷ [] }))
              (r, c))
    read (ok m) h = ih true (record c { incoming_buffer = c.incoming_buffer ++ m ∷ [] })
    read (err e) h = (refl, λ e. cc e)
    read (fault p) h = absurd h

    go :
        (o : Option Incoming)
        → lookup id c.incoming_map ≡ o
        → KeepsIncoming c.incoming (handle_events (message_received id msg ∷ events) b c)
    go none e = rw (e, handle_events) (ih b c)
    go (some channel) e =
        rw (e, handle_events) (read (decode channel msg) (decode-no_fault channel msg))

pub handle_events-KeepsIncoming :
    (events : List Event) (b : Bool) (c : Connection)
    → KeepsIncoming c.incoming (handle_events events b c)
unfolding handle_events
handle_events-KeepsIncoming [] b c = (refl, λ e. cc e)
handle_events-KeepsIncoming (channel_closed id ∷ events) b c =
    handle_events-KeepsIncoming events b (record c { incoming_map = erase id c.incoming_map })
handle_events-KeepsIncoming (message_received id msg ∷ events) b c =
    received-KeepsIncoming events id msg b c (handle_events-KeepsIncoming events)
