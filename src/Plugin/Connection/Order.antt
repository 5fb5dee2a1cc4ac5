-- ===== src/Plugin/Connection/Order.antt =====
-- The order of the messages that a plugin takes from its connection, and that taking one terminates.
use dqcsim_rs.Common.{
  ℕ, zero, suc, ◌+◌, ◌≤◌, ◌<◌, Bool, true, false, ◌≡◌, ◌≢◌, refl, sym, ◌∙◌, ap, List, [], ◌∷◌, ◌++◌,
  length, is_empty, Option, none, some, Outcome, ok, err, fault, out_of_fuel, arith, pass, All,
  length-append, Bool-cases, inl, inr,
}
use mathlib.Core.Path.{subst}
use mathlib.Core.List.{append-nil, append_assoc}
use dqcsim_rs.Plugin.Connection.{
  Connection, IncomingMessage, buffer_incoming, take_downstream, next_downstream_loop,
  next_downstream_request,
}
use dqcsim_rs.Plugin.Connection.Buffer.{coming_events, Appends, sending_side}
use dqcsim_rs.Plugin.Connection.Arrivals.{
  Delivers, Delivers-after, Delivers-as, Delivers-failed, Delivers-stopped, Delivers-nothing,
}
use dqcsim_rs.Plugin.Connection.Delivery.{buffer_incoming-Delivers}
use dqcsim_rs.Plugin.Connection.Rounds.{Buffers, Advances, buffer_incoming-Buffers}

-- The buffered messages and the events to come.
abbrev pub pending : Connection → ℕ
pending c = length c.incoming_buffer + coming_events c.incoming

abbrev pub is_downstream : IncomingMessage → Bool
is_downstream (IncomingMessage.downstream m) = true
is_downstream _ = false

-- `message` was taken out of `queue`, from behind messages that are all of another kind, and the rest
-- is left in its order.
pub record TakenFrom (queue : List IncomingMessage) (message : IncomingMessage)
    (rest : List IncomingMessage) : Type 0 where
  pub before : List IncomingMessage
  pub behind : List IncomingMessage
  pub queue_eq : queue ≡ before ++ message ∷ behind
  pub rest_eq : rest ≡ before ++ behind
  pub kind : is_downstream message ≡ true
  pub passed_over : All (λ m. is_downstream m ≡ false) before

TakenFrom-cons :
    (m : IncomingMessage) (queue : List IncomingMessage) (d : IncomingMessage)
    (rest : List IncomingMessage)
    → is_downstream m ≡ false
    → TakenFrom queue d rest
    → TakenFrom (m ∷ queue) d (m ∷ rest)
TakenFrom-cons m queue d rest h t = record {
  before = m ∷ t.before;
  behind = t.behind;
  queue_eq = ap (λ q. m ∷ q) t.queue_eq;
  rest_eq = ap (λ q. m ∷ q) t.rest_eq;
  kind = t.kind;
  passed_over = (h, t.passed_over);
}

-- What `take_downstream` found.
abbrev Found : List IncomingMessage → Option (IncomingMessage × List IncomingMessage) → Type 0
Found queue none = All (λ m. is_downstream m ≡ false) queue
Found queue (some (m, rest)) = TakenFrom queue m rest

take_downstream-Found : (queue : List IncomingMessage) → Found queue (take_downstream queue)
unfolding take_downstream
take_downstream-Found [] = tt
take_downstream-Found (IncomingMessage.downstream m ∷ rest) = record {
  before = [];
  behind = rest;
  queue_eq = refl;
  rest_eq = refl;
  kind = refl;
  passed_over = tt;
}
take_downstream-Found (IncomingMessage.simulator m ∷ rest) =
    go (take_downstream rest) refl (take_downstream-Found rest)
  where
    go :
        (o : Option (IncomingMessage × List IncomingMessage))
        → take_downstream rest ≡ o
        → Found rest o
        → Found
            (IncomingMessage.simulator m ∷ rest)
            (take_downstream (IncomingMessage.simulator m ∷ rest))
    go none e f = rw (e, take_downstream) (refl, f)
    go (some (d, others)) e f = rw (e, take_downstream) (TakenFrom-cons _ rest d others refl f)
take_downstream-Found (IncomingMessage.upstream m ∷ rest) =
    go (take_downstream rest) refl (take_downstream-Found rest)
  where
    go :
        (o : Option (IncomingMessage × List IncomingMessage))
        → take_downstream rest ≡ o
        → Found rest o
        → Found
            (IncomingMessage.upstream m ∷ rest)
            (take_downstream (IncomingMessage.upstream m ∷ rest))
    go none e f = rw (e, take_downstream) (refl, f)
    go (some (d, others)) e f = rw (e, take_downstream) (TakenFrom-cons _ rest d others refl f)

-- The buffer after a search that came upon `queue`: either nothing was taken out of it, or the first
-- downstream message; and the search did not run out of fuel.
abbrev pub Outcomes : List IncomingMessage → Outcome (Option IncomingMessage) × Connection → Type 0
Outcomes queue (ok (some m), c) = TakenFrom queue m c.incoming_buffer
Outcomes queue (ok none, c) = c.incoming_buffer ≡ queue
Outcomes queue (err e, c) = c.incoming_buffer ≡ queue
Outcomes queue (fault p, c) = (c.incoming_buffer ≡ queue) × (p ≢ out_of_fuel)

-- What arrives with the selections that were taken joined the buffered messages, and the queue that this
-- makes was searched.
pub record Searched (c : Connection) (x : Outcome (Option IncomingMessage) × Connection)
    : Type 0 where
  pub arrived : List IncomingMessage
  pub delivery : Delivers c.incoming c x arrived
  pub outcome : Outcomes (c.incoming_buffer ++ arrived) x
  pub bound : length arrived + coming_events (x.1.incoming) ≤ coming_events c.incoming
  pub sending : sending_side (x.1) ≡ sending_side c

-- A search after more messages have arrived.
Searched-after :
    (c c' : Connection) (x : Outcome (Option IncomingMessage) × Connection)
    → (p : Appends (coming_events c.incoming) (coming_events c'.incoming) c c')
    → Delivers {A = Unit {0}} c.incoming c (ok tt, c') p.news
    → Searched c' x
    → Searched c x
Searched-after c c' x p d q = record {
  arrived = p.news ++ q.arrived;
  delivery = Delivers-after c.incoming c c' tt x p.news q.arrived d q.delivery;
  outcome =
      subst (λ queue. Outcomes queue x)
        (ap (λ buffer. buffer ++ q.arrived) p.appended
          ∙ append_assoc c.incoming_buffer p.news q.arrived)
        q.outcome;
  bound = omega (arith, p.bound, q.bound, length-append p.news q.arrived);
  sending = q.sending ∙ p.sending;
}

-- The messages that one call of `buffer_incoming` appended, where the search ends with it.
Searched-end :
    (c c' : Connection) (r : Outcome (Option IncomingMessage))
    → (p : Appends (coming_events c.incoming) (coming_events c'.incoming) c c')
    → Delivers c.incoming c (r, c') p.news
    → Outcomes (c.incoming_buffer ++ p.news) (r, c')
    → Searched c (r, c')
Searched-end c c' r p d o = record {
  arrived = p.news;
  delivery = d;
  outcome = o;
  bound = p.bound;
  sending = p.sending;
}

-- The part of `next_downstream_loop` after `buffer_incoming`.
search_on :
    (fuel : ℕ) (c : Connection) (x : Outcome (Unit {0}) × Connection)
    → length c.incoming ≤ fuel
    → (b : Buffers c.incoming c x) → Delivers c.incoming c x b.appends.news
    → ((c' : Connection) → length c'.incoming < fuel → Searched c' (next_downstream_loop fuel c'))
    → Searched c (
        pass
          (λ _ c'. elim (is_empty c'.incoming_map) [
            | true ↦ (ok none, c')
            | false ↦ next_downstream_loop fuel c'
          ])
          x)
search_on fuel c (err e, c') h b d ih =
    Searched-end c c' (err e) b.appends (Delivers-failed c c' e b.appends.news d) b.appends.appended
search_on fuel c (fault p, c') h b d ih =
    Searched-end c c' (fault p) b.appends (Delivers-stopped c c' p b.appends.news d)
      (b.appends.appended, λ e. b.fuelled (ap fault e))
search_on fuel c (ok u, c') h b d ih = elim (Bool-cases (is_empty c'.incoming_map)) [
  | inl m ↦
      rw (m, pass)
        (Searched-end c c' (ok none) b.appends
          (Delivers-as c.incoming c c' c' u none b.appends.news refl refl d) b.appends.appended)
  | inr m ↦
      rw (m, pass)
        (Searched-after c c' _ b.appends
          (Delivers-as c.incoming c c' c' u tt b.appends.news refl refl d)
          (ih c' (shorter b.advances m)))
]
  where
    shorter :
        Advances (length c.incoming) (ok u, c')
        → is_empty c'.incoming_map ≡ false
        → length c'.incoming < fuel
    shorter (inl e) m = absurd (cc (e, m))
    shorter (inr l) m = omega (arith, l)

next_downstream_loop-Searched :
    (fuel : ℕ) (c : Connection)
    → length c.incoming < fuel
    → Searched c (next_downstream_loop fuel c)
unfolding next_downstream_loop
next_downstream_loop-Searched zero c h = absurd (omega arith)
next_downstream_loop-Searched (suc fuel) c h =
    go (take_downstream c.incoming_buffer) refl (take_downstream-Found c.incoming_buffer) (
      search_on fuel c (buffer_incoming c) (omega arith) (buffer_incoming-Buffers c)
        (buffer_incoming-Delivers c (buffer_incoming-Buffers c).appends.news
          (buffer_incoming-Buffers c).appends.appended)
        (next_downstream_loop-Searched fuel))
  where
    go :
        (o : Option (IncomingMessage × List IncomingMessage))
        → take_downstream c.incoming_buffer ≡ o
        → Found c.incoming_buffer o
        → Searched c (
            pass
              (λ _ c'. elim (is_empty c'.incoming_map) [
                | true ↦ (ok none, c')
                | false ↦ next_downstream_loop fuel c'
              ])
              (buffer_incoming c))
        → Searched c (next_downstream_loop (suc fuel) c)
    go none e f more = rw (e, next_downstream_loop) more
    go (some (m, rest)) e f more =
        rw (e, next_downstream_loop)
          (record {
            arrived = [];
            delivery = Delivers-nothing (some m) c (record c { incoming_buffer = rest }) refl refl;
            outcome =
                subst (λ queue. TakenFrom queue m rest) (sym (append-nil c.incoming_buffer)) f;
            bound = omega arith;
            sending = refl;
          })

pub next_downstream_request-Searched : (c : Connection) → Searched c (next_downstream_request c)
unfolding next_downstream_request
next_downstream_request-Searched c =
    next_downstream_loop-Searched (length c.incoming + 1) c (omega arith)
