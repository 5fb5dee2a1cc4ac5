-- ===== src/Plugin/Connection/Arrivals.antt =====
-- Which messages arrive, as the events of the selections tell it, independent of the code that buffers
-- them: each message that is received on a known channel, read at the type of that channel.
use dqcsim_rs.Common.{
  ℕ, ◌≡◌, ◌⊎◌, refl, sym, ◌∙◌, ap, subst, List, [], ◌∷◌, ◌++◌, none, some, Outcome, ok, err, fault,
  ErrorKind, Fault, lookup, erase,
}
use mathlib.Core.List.{append-nil, append_assoc}
use dqcsim_rs.Protocol.{SimulatorToPlugin, GatestreamUp, GatestreamDown}
use dqcsim_rs.Plugin.Connection.{
  Connection, Incoming, IncomingMessage, IpcMessage, parsed, unreadable, Event, message_received,
  channel_closed, Selection, selected, failed,
}

-- The message is what the raw message is at the type of the channel.
abbrev pub Carries : Incoming → IpcMessage → IncomingMessage → Type 0
Carries Incoming.simulator msg m =
    (x : SimulatorToPlugin) × (msg.to_simulator ≡ parsed x) × (m ≡ IncomingMessage.simulator x)
Carries Incoming.upstream msg m =
    (x : GatestreamDown) × (msg.to_upstream ≡ parsed x) × (m ≡ IncomingMessage.upstream x)
Carries Incoming.downstream msg m =
    (x : GatestreamUp) × (msg.to_downstream ≡ parsed x) × (m ≡ IncomingMessage.downstream x)

abbrev pub IsUnreadable : Incoming → IpcMessage → Type 0
IsUnreadable Incoming.simulator msg = (e : ErrorKind) × (msg.to_simulator ≡ unreadable e)
IsUnreadable Incoming.upstream msg = (e : ErrorKind) × (msg.to_upstream ≡ unreadable e)
IsUnreadable Incoming.downstream msg = (e : ErrorKind) × (msg.to_downstream ≡ unreadable e)

abbrev pub Channels : Type 0
Channels = List (ℕ × Incoming)

-- The messages of the events, in their order, and the channels that are left.
pub data Arrives : Channels → List Event → List IncomingMessage → Channels → Type 0 where
  no_events : {map : Channels} → Arrives map [] [] map
  unknown :
      {map map' : Channels} {id : ℕ} {msg : IpcMessage} {events : List Event}
      {news : List IncomingMessage}
      → lookup id map ≡ none
      → Arrives map events news map'
      → Arrives map (message_received id msg ∷ events) news map'
  received :
      {map map' : Channels} {id : ℕ} {msg : IpcMessage} {events : List Event}
      {news : List IncomingMessage} {channel : Incoming} {m : IncomingMessage}
      → lookup id map ≡ some channel
      → Carries channel msg m
      → Arrives map events news map'
      → Arrives map (message_received id msg ∷ events) (m ∷ news) map'
  closed :
      {map map' : Channels} {id : ℕ} {events : List Event} {news : List IncomingMessage}
      → Arrives (erase id map) events news map'
      → Arrives map (channel_closed id ∷ events) news map'

-- The first event is a message that cannot be read.
abbrev pub Stops : Channels → List Event → Type 0
Stops map [] = ⊥
Stops map (channel_closed id ∷ events) = ⊥
Stops map (message_received id msg ∷ events) =
    (channel : Incoming) × (lookup id map ≡ some channel) × IsUnreadable channel msg

-- No event is left unhandled, but those from an unreadable message on, which makes the call fail.
abbrev pub Leaves : {A : Type 0} → Outcome A → Channels → List Event → Type 0
Leaves (ok a) map dropped = dropped ≡ []
Leaves (err e) map dropped = (dropped ≡ []) ⊎ Stops map dropped
Leaves (fault p) map dropped = dropped ≡ []

-- The events were handled, and `news` is what arrived with them.
pub record Handles {A : Type 0} (events : List Event) (c : Connection) (x : Outcome A × Connection)
    (news : List IncomingMessage) : Type 0 where
  pub handled : List Event
  pub dropped : List Event
  pub parts : events ≡ handled ++ dropped
  pub arrives : Arrives c.incoming_map handled news x.1.incoming_map
  pub leaves : Leaves x.0 x.1.incoming_map dropped

abbrev pub events_of : List Selection → List Event
events_of [] = []
events_of (selected events ∷ selections) = events ++ events_of selections
events_of (failed e ∷ selections) = events_of selections

-- Some of the coming selections were taken, and `news` is what arrived with them.
pub record Delivers {A : Type 0} (selections : List Selection) (c : Connection)
    (x : Outcome A × Connection) (news : List IncomingMessage) : Type 0 where
  pub consumed : List Selection
  pub taken : selections ≡ consumed ++ x.1.incoming
  pub handles : Handles (events_of consumed) c x news

Arrives-append :
    {map map' map'' : Channels} {events more : List Event} {news later : List IncomingMessage}
    → Arrives map events news map'
    → Arrives map' more later map''
    → Arrives map (events ++ more) (news ++ later) map''
Arrives-append no_events q = q
Arrives-append (unknown e p) q = unknown e (Arrives-append p q)
Arrives-append (received e m p) q = received e m (Arrives-append p q)
Arrives-append (closed p) q = closed (Arrives-append p q)

events_of-append : (xs ys : List Selection) → events_of (xs ++ ys) ≡ events_of xs ++ events_of ys
events_of-append [] ys = refl
events_of-append (selected events ∷ xs) ys =
    ap (λ (es : List Event). events ++ es) (events_of-append xs ys)
    ∙ sym (append_assoc events (events_of xs) (events_of ys))
events_of-append (failed e ∷ xs) ys = events_of-append xs ys

-- One call after another.
pub Delivers-after :
    {A B : Type 0} (selections : List Selection) (c c' : Connection) (a : A)
    (x : Outcome B × Connection) (news later : List IncomingMessage)
    → Delivers selections c (ok a, c') news
    → Delivers c'.incoming c' x later
    → Delivers selections c x (news ++ later)
Delivers-after selections c c' a x news later p q = record {
  consumed = p.consumed ++ q.consumed;
  taken =
      p.taken
      ∙ ap (λ (s : List Selection). p.consumed ++ s) q.taken
      ∙ sym (append_assoc p.consumed q.consumed x.1.incoming);
  handles = record {
    handled = p.handles.handled ++ q.handles.handled;
    dropped = q.handles.dropped;
    parts =
        events_of-append p.consumed q.consumed
        ∙ ap (λ (es : List Event). es ++ events_of q.consumed)
            (p.handles.parts
              ∙ ap (λ (es : List Event). p.handles.handled ++ es) p.handles.leaves
              ∙ append-nil p.handles.handled)
        ∙ ap (λ (es : List Event). p.handles.handled ++ es) q.handles.parts
        ∙ sym (append_assoc p.handles.handled q.handles.handled q.handles.dropped);
    arrives = Arrives-append p.handles.arrives q.handles.arrives;
    leaves = q.handles.leaves;
  };
}

-- The same of another result, of which the connection has the same selections and channels.
pub Delivers-as :
    {A B : Type 0} (selections : List Selection) (c c' c'' : Connection) (a : A) (b : B)
    (news : List IncomingMessage)
    → c''.incoming ≡ c'.incoming
    → c''.incoming_map ≡ c'.incoming_map
    → Delivers selections c (ok a, c') news
    → Delivers selections c (ok b, c'') news
Delivers-as selections c c' c'' a b news i m p = record {
  consumed = p.consumed;
  taken = p.taken ∙ ap (λ (s : List Selection). p.consumed ++ s) (sym i);
  handles = record {
    handled = p.handles.handled;
    dropped = p.handles.dropped;
    parts = p.handles.parts;
    arrives =
        subst (λ (map : Channels). Arrives c.incoming_map p.handles.handled news map) (sym m)
          p.handles.arrives;
    leaves = p.handles.leaves;
  };
}

-- Nothing was taken.
pub Delivers-nothing :
    {A : Type 0} (a : A) (c c' : Connection)
    → c'.incoming ≡ c.incoming
    → c'.incoming_map ≡ c.incoming_map
    → Delivers c.incoming c (ok a, c') []
Delivers-nothing a c c' i m = record {
  consumed = [];
  taken = sym i;
  handles = record {
    handled = [];
    dropped = [];
    parts = refl;
    arrives = subst (λ (map : Channels). Arrives c.incoming_map [] [] map) (sym m) no_events;
    leaves = refl;
  };
}

-- The same for a call that passes on how another one ended.
pub Delivers-failed :
    {A B : Type 0} (c c' : Connection) (e : ErrorKind) (news : List IncomingMessage)
    → Delivers {A = A} c.incoming c (err e, c') news
    → Delivers {A = B} c.incoming c (err e, c') news
Delivers-failed c c' e news p = record {
  consumed = p.consumed;
  taken = p.taken;
  handles = record {
    handled = p.handles.handled;
    dropped = p.handles.dropped;
    parts = p.handles.parts;
    arrives = p.handles.arrives;
    leaves = p.handles.leaves;
  };
}

pub Delivers-stopped :
    {A B : Type 0} (c c' : Connection) (f : Fault) (news : List IncomingMessage)
    → Delivers {A = A} c.incoming c (fault f, c') news
    → Delivers {A = B} c.incoming c (fault f, c') news
Delivers-stopped c c' f news p = record {
  consumed = p.consumed;
  taken = p.taken;
  handles = record {
    handled = p.handles.handled;
    dropped = p.handles.dropped;
    parts = p.handles.parts;
    arrives = p.handles.arrives;
    leaves = p.handles.leaves;
  };
}
