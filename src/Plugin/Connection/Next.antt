-- ===== src/Plugin/Connection/Next.antt =====
-- The messages that the main loop takes come in the order in which they arrived.
use dqcsim_rs.Common.{
  ◌+◌, ◌≤◌, ◌≡◌, ◌≢◌, List, [], ◌∷◌, ◌++◌, length, Option, none, some, Outcome, ok, err, fault,
  out_of_fuel,
}
use dqcsim_rs.Plugin.Connection.{Connection, IncomingMessage}
use dqcsim_rs.Plugin.Connection.Buffer.{coming_events, sending_side}
use dqcsim_rs.Plugin.Connection.Arrivals.{Delivers}

-- What is left of the queue: all but its first message, which is returned; all of it after an error;
-- and no message is returned only from an empty queue.
abbrev pub Leaves : List IncomingMessage → Outcome (Option IncomingMessage) × Connection → Type 0
Leaves queue (ok (some m), c) = queue ≡ m ∷ c.incoming_buffer
Leaves queue (ok none, c) = (queue ≡ []) × (c.incoming_buffer ≡ [])
Leaves queue (err e, c) = c.incoming_buffer ≡ queue
Leaves queue (fault p, c) = (c.incoming_buffer ≡ queue) × (p ≢ out_of_fuel)

-- What arrives with the selections that were taken joined the buffered messages, and the first of the
-- queue that this makes was taken.
pub record Takes (c : Connection) (x : Outcome (Option IncomingMessage) × Connection) : Type 0 where
  pub arrived : List IncomingMessage
  pub delivery : Delivers c.incoming c x arrived
  pub outcome : Leaves (c.incoming_buffer ++ arrived) x
  pub bound : length arrived + coming_events (x.1.incoming) ≤ coming_events c.incoming
  pub sending : sending_side (x.1) ≡ sending_side c
