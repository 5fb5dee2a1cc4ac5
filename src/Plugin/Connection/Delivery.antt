-- ===== src/Plugin/Connection/Delivery.antt =====
-- `buffer_incoming` appends exactly the messages that arrive.
use dqcsim_rs.Common.{
  ℕ, Bool, true, false, ◌≡◌, ◌⊎◌, refl, sym, ◌∙◌, ap, subst, List, [], ◌∷◌, ◌++◌, is_empty, Outcome,
  ok, err, fault, ErrorKind, lookup, erase, pass, Bool-cases, Option-cases, inl, inr,
}
use mathlib.Core.List.{append-nil, append_assoc}
use dqcsim_rs.Protocol.{SimulatorToPlugin, GatestreamUp, GatestreamDown}
use dqcsim_rs.Plugin.Connection.{
  Connection, Incoming, IncomingMessage, IpcMessage, Parsed, parsed, unreadable, Event,
  message_received, channel_closed, Selection, selected, failed, decode, handle_events, buffer_loop,
  buffer_incoming,
}
use dqcsim_rs.Plugin.Connection.Buffer.{KeepsIncoming, handle_events-KeepsIncoming}
use dqcsim_rs.Plugin.Connection.Arrivals.{
  Carries, IsUnreadable, Arrives, no_events, unknown, received, closed, Leaves, Handles, Delivers,
  Delivers-after, Channels,
}

-- What `decode` gives.
abbrev Decodes : Incoming → IpcMessage → Type 0
Decodes channel msg =
    ((m : IncomingMessage) × (decode channel msg ≡ ok m) × Carries channel msg m)
    ⊎ ((e : ErrorKind) × (decode channel msg ≡ err e) × IsUnreadable channel msg)

decode-Decodes : (channel : Incoming) (msg : IpcMessage) → Decodes channel msg
unfolding decode
decode-Decodes Incoming.simulator msg = go msg.to_simulator refl
  where
    go : (p : Parsed SimulatorToPlugin) → msg.to_simulator ≡ p → Decodes Incoming.simulator msg
    go (parsed x) e = inl (IncomingMessage.simulator x, rw (e, decode) refl, (x, e, refl))
    go (unreadable x) e = inr (x, rw (e, decode) refl, (x, e))
decode-Decodes Incoming.upstream msg = go msg.to_upstream refl
  where
    go : (p : Parsed GatestreamDown) → msg.to_upstream ≡ p → Decodes Incoming.upstream msg
    go (parsed x) e = inl (IncomingMessage.upstream x, rw (e, decode) refl, (x, e, refl))
    go (unreadable x) e = inr (x, rw (e, decode) refl, (x, e))
decode-Decodes Incoming.downstream msg = go msg.to_downstream refl
  where
    go : (p : Parsed GatestreamUp) → msg.to_downstream ≡ p → Decodes Incoming.downstream msg
    go (parsed x) e = inl (IncomingMessage.downstream x, rw (e, decode) refl, (x, e, refl))
    go (unreadable x) e = inr (x, rw (e, decode) refl, (x, e))

-- The messages of the events were appended.
abbrev Appended : {A : Type 0} → List Event → Connection → Outcome A × Connection → Type 0
Appended events c x =
    (news : List IncomingMessage) × (x.1.incoming_buffer ≡ c.incoming_buffer ++ news)
    × Handles events c x news

-- One message event.
received-Appended :
    (events : List Event) (id : ℕ) (msg : IpcMessage) (b : Bool) (c : Connection)
    → ((b' : Bool) (c' : Connection) → Appended events c' (handle_events events b' c'))
    → Appended
        (message_received id msg ∷ events)
        c
        (handle_events (message_received id msg ∷ events) b c)
unfolding handle_events
received-Appended events id msg b c ih = elim (Option-cases (lookup id c.incoming_map)) [
  | inl e ↦
      let (news, a, h) = ih b c in
      rw (e, handle_events)
        (
          news,
          a,
          record {
            handled = message_received id msg ∷ h.handled;
            dropped = h.dropped;
            parts = ap (λ (es : List Event). message_received id msg ∷ es) h.parts;
            arrives = unknown e h.arrives;
            leaves = h.leaves;
          },
        )
  | inr (channel, e) ↦ elim (decode-Decodes channel msg) [
    | inl (m, d, k) ↦
        let (news, a, h) = ih true (record c { incoming_buffer = c.incoming_buffer ++ m ∷ [] }) in
        rw (e, handle_events, d)
          (
            m ∷ news,
            a ∙ append_assoc c.incoming_buffer (m ∷ []) news,
            record {
              handled = message_received id msg ∷ h.handled;
              dropped = h.dropped;
              parts = ap (λ (es : List Event). message_received id msg ∷ es) h.parts;
              arrives = received e k h.arrives;
              leaves = h.leaves;
            },
          )
    | inr (x, d, k) ↦
        rw (e, handle_events, d)
          (
            [],
            sym (append-nil c.incoming_buffer),
            record {
              handled = [];
              dropped = message_received id msg ∷ events;
              parts = refl;
              arrives = no_events;
              leaves = inr (channel, e, k);
            },
          )
  ]
]

handle_events-Appended :
    (events : List Event) (b : Bool) (c : Connection) → Appended events c (handle_events events b c)
unfolding handle_events
handle_events-Appended [] b c = (
  [],
  sym (append-nil c.incoming_buffer),
  record { handled = []; dropped = []; parts = refl; arrives = no_events; leaves = refl },
)
handle_events-Appended (message_received id msg ∷ events) b c =
    received-Appended events id msg b c (handle_events-Appended events)
handle_events-Appended (channel_closed id ∷ events) b c =
    let (news, a, h) =
      handle_events-Appended events b (record c { incoming_map = erase id c.incoming_map }) in
    (
      news,
      a,
      record {
        handled = channel_closed id ∷ h.handled;
        dropped = h.dropped;
        parts = ap (λ (es : List Event). channel_closed id ∷ es) h.parts;
        arrives = closed h.arrives;
        leaves = h.leaves;
      },
    )

-- What a run of the loop over `selections` delivered was appended.
abbrev Delivered : List Selection → Connection → Outcome (Unit {0}) × Connection → Type 0
Delivered selections c x =
    (news : List IncomingMessage) × (x.1.incoming_buffer ≡ c.incoming_buffer ++ news)
    × Delivers selections c x news

Delivered-here :
    (selections : List Selection) (c : Connection) (r : Outcome (Unit {0}))
    → c.incoming ≡ selections
    → Handles [] c (r, c) []
    → Delivered selections c (r, c)
Delivered-here selections c r e h =
    ([], sym (append-nil c.incoming_buffer), record { consumed = []; taken = sym e; handles = h })

-- The selection of the round, and no more.
one_selection :
    {A B : Type 0} (events : List Event) (selections : List Selection) (c c' : Connection)
    (x : Outcome A) (y : Outcome B) (news : List IncomingMessage)
    → c'.incoming ≡ selections
    → (h : Handles events c (x, c') news) → Handles events c (y, c') news
    → Delivers (selected events ∷ selections) c (y, c') news
one_selection events selections c c' x y news k h g = record {
  consumed = selected events ∷ [];
  taken = ap (λ (s : List Selection). selected events ∷ s) (sym k);
  handles = subst (λ (es : List Event). Handles es c (y, c') news) (sym (append-nil events)) g;
}

-- A result that leaves as much unhandled.
same_leaves :
    {A B : Type 0} (events : List Event) (c c' : Connection) (x : Outcome A) (y : Outcome B)
    (news : List IncomingMessage)
    → (h : Handles events c (x, c') news) → Leaves y c'.incoming_map h.dropped
    → Handles events c (y, c') news
same_leaves events c c' x y news h l = record {
  handled = h.handled;
  dropped = h.dropped;
  parts = h.parts;
  arrives = h.arrives;
  leaves = l;
}

round-Delivered :
    (events : List Event) (selections : List Selection) (c : Connection)
    (x : Outcome Bool × Connection)
    → Appended events c x
    → KeepsIncoming selections x
    → ((c' : Connection)
        → c'.incoming ≡ selections
        → Delivered selections c' (buffer_loop selections c'))
    → Delivered (selected events ∷ selections) c (
        pass
          (λ received_any c'. elim received_any [
            | true ↦ (ok tt, c')
            | false ↦ buffer_loop selections c'
          ])
          x)
round-Delivered events selections c (ok true, c') (news, a, h) k ih = (
  news,
  a,
  one_selection events selections c c' (ok true) (ok tt) news k.0 h
      (same_leaves events c c' (ok true) (ok tt) news h h.leaves),
)
round-Delivered events selections c (ok false, c') (news, a, h) k ih =
    let (later, b, g) = ih c' k.0 in
    (
      news ++ later,
      b
          ∙ ap (λ (buffer : List IncomingMessage). buffer ++ later) a
          ∙ append_assoc c.incoming_buffer news later,
      Delivers-after (selected events ∷ selections) c c' tt (buffer_loop selections c') news later
          (one_selection events selections c c' (ok false) (ok tt) news k.0 h
            (same_leaves events c c' (ok false) (ok tt) news h h.leaves))
          (subst (λ (s : List Selection). Delivers s c' (buffer_loop selections c') later) (sym k.0)
            g),
    )
round-Delivered events selections c (err e, c') (news, a, h) k ih = (
  news,
  a,
  one_selection events selections c c' (err e) (err e) news k.0 h
      (same_leaves events c c' (err e) (err e) news h h.leaves),
)
round-Delivered events selections c (fault f, c') (news, a, h) k ih = (
  news,
  a,
  one_selection events selections c c' (fault f) (fault f) news k.0 h
      (same_leaves events c c' (fault f) (fault f) news h h.leaves),
)

nothing :
    {A : Type 0} (c c' : Connection) (r : Outcome A)
    → c'.incoming_map ≡ c.incoming_map
    → Leaves r c'.incoming_map []
    → Handles [] c (r, c') []
nothing c c' r e l = record {
  handled = [];
  dropped = [];
  parts = refl;
  arrives = subst (λ (map : Channels). Arrives c.incoming_map [] [] map) (sym e) no_events;
  leaves = l;
}

buffer_loop-Delivered :
    (selections : List Selection) (c : Connection)
    → c.incoming ≡ selections
    → Delivered selections c (buffer_loop selections c)
unfolding buffer_loop
buffer_loop-Delivered [] c e = elim (Bool-cases (is_empty c.incoming_map)) [
  | inl m ↦ rw (m, buffer_loop) (Delivered-here [] c (ok tt) e (nothing c c (ok tt) refl refl))
  | inr m ↦ rw (m, buffer_loop) (Delivered-here [] c (fault _) e (nothing c c (fault _) refl refl))
]
buffer_loop-Delivered (failed f ∷ selections) c e = elim (Bool-cases (is_empty c.incoming_map)) [
  | inl m ↦ rw (m, buffer_loop) (Delivered-here _ c (ok tt) e (nothing c c (ok tt) refl refl))
  | inr m ↦
      rw (m, buffer_loop)
        (
          [],
          sym (append-nil c.incoming_buffer),
          record {
            consumed = failed f ∷ [];
            taken = refl;
            handles = nothing c (record c { incoming = selections }) (err f) refl (inl refl);
          },
        )
]
buffer_loop-Delivered (selected events ∷ selections) c e =
    let d = record c { incoming = selections } in
    let (news, a, h) = handle_events-Appended events false d in
    let round =
      round-Delivered events selections c (handle_events events false d)
        (
          news,
          a,
          record {
            handled = h.handled;
            dropped = h.dropped;
            parts = h.parts;
            arrives = h.arrives;
            leaves = h.leaves;
          },
        )
        (handle_events-KeepsIncoming events false d) (buffer_loop-Delivered selections) in
    elim (Bool-cases (is_empty c.incoming_map)) [
      | inl m ↦ rw (m, buffer_loop) (Delivered-here _ c (ok tt) e (nothing c c (ok tt) refl refl))
      | inr m ↦ rw (m, buffer_loop) round
    ]

append-cancel : (xs ys zs : List IncomingMessage) → xs ++ ys ≡ xs ++ zs → ys ≡ zs
append-cancel [] ys zs h = h
append-cancel (x ∷ xs) ys zs h = append-cancel xs ys zs (cc h)

-- What `buffer_incoming` appends to the buffer are the messages that arrive with the selections it takes.
pub buffer_incoming-Delivers :
    (c : Connection) (news : List IncomingMessage)
    → (buffer_incoming c).1.incoming_buffer ≡ c.incoming_buffer ++ news
    → Delivers c.incoming c (buffer_incoming c) news
unfolding buffer_incoming
buffer_incoming-Delivers c news h =
    let (arrived, a, d) = buffer_loop-Delivered c.incoming c refl in
    subst (Delivers c.incoming c (buffer_loop c.incoming c))
      (append-cancel c.incoming_buffer arrived news (sym a ∙ h)) d
