-- ===== src/Plugin/Downstream/Completion.antt =====
-- When a plugin tells its upstream plugin that requests are completed.
use dqcsim_rs.Common.{
  ◌-◌, ◌≤◌, ◌<◌, true, ◌≡◌, refl, if◌then◌else◌, List, [], ◌∷◌, ◌++◌, map, ok, arith, Bool-cases,
  inl, inr, All,
}
use mathlib.Core.List.{append-nil, append_assoc, map-append}
use dqcsim_rs.Types.Sequence.{SequenceNumber, acknowledges, after, preceding}
use dqcsim_rs.Types.Measurement.{QubitMeasurementResult}
use dqcsim_rs.Protocol.{GatestreamUp, completed_up_to, measured}
use dqcsim_rs.Plugin.Connection.{Connection, OutgoingMessage}
use dqcsim_rs.Plugin.State.{PluginState}
use dqcsim_rs.Plugin.Downstream.{
  send_up, send_measured, flush_postponed, completion, acknowledge, check_completed_up_to,
}

abbrev pub Postponed : Type 0
Postponed = List (SequenceNumber × SequenceNumber × List QubitMeasurementResult)

-- The upstream plugin is connected, and no coming call of `send()` is known to fail.
pub record CanSend (c : Connection) : Type 0 where
  pub connected : c.has_upstream ≡ true
  pub open_end : c.send_results ≡ []

-- The state with more messages sent upstream.
abbrev pub sent_up : {R : Type 0} → List GatestreamUp → PluginState R → PluginState R
sent_up messages s = record s {
  connection = record (s.connection) {
    outbox = s.connection.outbox ++ map OutgoingMessage.upstream messages;
  };
}

pub send_up_lem :
    {R : Type 0} (m : GatestreamUp) (s : PluginState R)
    → CanSend s.connection
    → send_up m s ≡ (ok tt, sent_up (m ∷ []) s)
unfolding send_up
send_up_lem m s c = ground arith

pub send_measured_lem :
    {R : Type 0} (ms : List QubitMeasurementResult) (s : PluginState R)
    → CanSend s.connection
    → send_measured ms s ≡ (ok tt, sent_up (map measured ms) s)
unfolding send_measured
send_measured_lem [] s c = ground (arith, append-nil s.connection.outbox)
send_measured_lem (m ∷ ms) s c = ground (
  arith,
  send_up_lem (measured m) s c,
  send_measured_lem ms (sent_up (measured m ∷ []) s)
      (record { connected = c.connected; open_end = c.open_end }),
  append_assoc s.connection.outbox (OutgoingMessage.upstream (measured m) ∷ [])
      (map OutgoingMessage.upstream (map measured ms)),
)

-- The entries that still wait, once the downstream plugin has completed up to `rx`.
abbrev pub unfinished : SequenceNumber → Postponed → Postponed
unfinished rx [] = []
unfinished rx ((d, u, ms) ∷ rest) =
    if acknowledges rx d then unfinished rx rest else (d, u, ms) ∷ rest

-- The measurements of the entries before them.
abbrev pub released : SequenceNumber → Postponed → List QubitMeasurementResult
released rx [] = []
released rx ((d, u, ms) ∷ rest) = if acknowledges rx d then ms ++ released rx rest else []

pub flush_postponed_lem :
    {R : Type 0} (q : Postponed) (s : PluginState R)
    → CanSend s.connection
    → s.upstream_postponed ≡ q
    → flush_postponed q s ≡ (
      ok tt,
      record (sent_up (map measured (released s.downstream_sequence_rx q)) s) {
        upstream_postponed = unfinished s.downstream_sequence_rx q;
      },
    )
unfolding flush_postponed
flush_postponed_lem [] s c e = ground (arith, append-nil s.connection.outbox)
flush_postponed_lem ((d, u, ms) ∷ rest) s c e =
    let s' = record s { upstream_postponed = rest } in
    ground (
      arith,
      append-nil s.connection.outbox,
      send_measured_lem ms s' c,
      flush_postponed_lem rest (sent_up (map measured ms) s')
          (record { connected = c.connected; open_end = c.open_end }) refl,
      map-append measured ms (released s.downstream_sequence_rx rest),
      map-append OutgoingMessage.upstream (map measured ms)
          (map measured (released s.downstream_sequence_rx rest)),
      append_assoc s.connection.outbox (map OutgoingMessage.upstream (map measured ms))
          (map OutgoingMessage.upstream (map measured (released s.downstream_sequence_rx rest))),
    )

-- The entries that are done.
abbrev pub finished : SequenceNumber → Postponed → Postponed
finished rx [] = []
finished rx ((d, u, ms) ∷ rest) = if acknowledges rx d then (d, u, ms) ∷ finished rx rest else []

-- The upstream numbers of the entries rise above `low` and stay up to `issued`.
abbrev pub Rising : SequenceNumber → SequenceNumber → Postponed → Type 0
Rising issued low [] = low ≤ issued
Rising issued low ((d, u, ms) ∷ rest) = (low < u) × Rising issued u rest

Rising-low-le : (issued low : SequenceNumber) (q : Postponed) → Rising issued low q → low ≤ issued
Rising-low-le issued low [] r = r
Rising-low-le issued low ((d, u, ms) ∷ rest) r = omega (arith, r.0, Rising-low-le issued u rest r.1)

pub low-le-completion :
    (issued low rx : SequenceNumber) (q : Postponed)
    → Rising issued low q
    → low ≤ completion issued (unfinished rx q)
unfolding completion
low-le-completion issued low rx [] r = r
low-le-completion issued low rx ((d, u, ms) ∷ rest) r = ground (
  arith,
  low-le-completion issued u rx rest r.1,
  Rising-low-le issued u rest r.1,
  preceding_lem u,
)
  where
    preceding_lem : (u : SequenceNumber) → (preceding u ≡ u - 1)
    preceding_lem u = unfold preceding in ground arith

pub unfinished-Rising :
    (issued low rx : SequenceNumber) (q : Postponed)
    → Rising issued low q
    → Rising issued (completion issued (unfinished rx q)) (unfinished rx q)
unfolding completion after preceding
unfinished-Rising issued low rx [] r = omega arith
unfinished-Rising issued low rx ((d, u, ms) ∷ rest) r =
    ground (arith, unfinished-Rising issued u rx rest r.1, Rising-low-le issued u rest r.1)

pub finished-le :
    (issued low rx : SequenceNumber) (q : Postponed)
    → Rising issued low q
    → All (λ e. e.1 ≤ completion issued (unfinished rx q)) (finished rx q)
finished-le issued low rx [] r = tt
finished-le issued low rx ((d, u, ms) ∷ rest) r = elim (Bool-cases (acknowledges rx d)) [
  | inl h ↦ rw h (low-le-completion issued u rx rest r.1, finished-le issued u rx rest r.1)
  | inr h ↦ rw h tt
]

-- What `check_completed_up_to` announces: nothing, or a higher number than before.
abbrev pub announcement : SequenceNumber → SequenceNumber → List GatestreamUp
announcement old new = if after new old then completed_up_to new ∷ [] else []

acknowledge_lem :
    {R : Type 0} (sent : List OutgoingMessage) (ms : List GatestreamUp) (completed : SequenceNumber)
    (s : PluginState R)
    → CanSend s.connection
    → s.connection.outbox ≡ sent ++ map OutgoingMessage.upstream ms
    → s.upstream_completed_up_to ≤ completed
    → acknowledge completed s ≡ (
      ok tt,
      record s {
        connection = record (s.connection) {
          outbox =
              sent
              ++ map OutgoingMessage.upstream
                  (ms ++ announcement s.upstream_completed_up_to completed);
        };
        upstream_completed_up_to = completed;
      },
    )
unfolding acknowledge after
acknowledge_lem sent ms completed s c e le = ground (
  arith,
  send_up_lem (completed_up_to completed) s c,
  append-nil ms,
  map-append OutgoingMessage.upstream ms (completed_up_to completed ∷ []),
  append_assoc sent (map OutgoingMessage.upstream ms)
      (OutgoingMessage.upstream (completed_up_to completed) ∷ []),
)

-- The number that all requests up to are completed by: the one before the first that waits, or else the
-- last one issued.
abbrev pub completed_to : SequenceNumber → Postponed → SequenceNumber
completed_to issued [] = issued
completed_to issued ((d, u, ms) ∷ rest) = u - 1

pub completion_lem :
    (issued low : SequenceNumber) (q : Postponed)
    → Rising issued low q
    → completion issued q ≡ completed_to issued q
unfolding completion preceding after
completion_lem issued low [] r = refl
completion_lem issued low ((d, u, ms) ∷ rest) r =
    ground (arith, r.0, Rising-low-le issued u rest r.1)

-- `check_completed_up_to`, where the upstream plugin can be reached, in full: it drops the postponed
-- requests from the front that the downstream plugin has acknowledged, sends their measurements in
-- order, and then announces the number before the first request that still waits, or else the last one
-- issued, if it is higher than the last one announced.
pub check_completed_up_to_lem :
    {R : Type 0} (s : PluginState R)
    → CanSend s.connection
    → Rising s.upstream_issued_up_to s.upstream_completed_up_to s.upstream_postponed
    → let q = unfinished s.downstream_sequence_rx s.upstream_postponed in
      let completed = completed_to s.upstream_issued_up_to q in
      check_completed_up_to s ≡ (
        ok tt,
        record (sent_up
            (map measured (released s.downstream_sequence_rx s.upstream_postponed)
              ++ announcement s.upstream_completed_up_to completed)
            s) { upstream_postponed = q; upstream_completed_up_to = completed },
      )
unfolding check_completed_up_to
check_completed_up_to_lem s c r =
    let q = unfinished s.downstream_sequence_rx s.upstream_postponed in
    let ms = map measured (released s.downstream_sequence_rx s.upstream_postponed) in
    let completed = completion s.upstream_issued_up_to q in
    let s' = record (sent_up ms s) { upstream_postponed = q } in
    rw⁻¹
      (completion_lem s.upstream_issued_up_to _ q (
        unfinished-Rising s.upstream_issued_up_to s.upstream_completed_up_to
          s.downstream_sequence_rx s.upstream_postponed r))
      (rw (flush_postponed_lem s.upstream_postponed s c refl) (
        acknowledge_lem s.connection.outbox ms completed s'
          (record { connected = c.connected; open_end = c.open_end }) refl
          (low-le-completion s.upstream_issued_up_to s.upstream_completed_up_to
            s.downstream_sequence_rx s.upstream_postponed r)))
