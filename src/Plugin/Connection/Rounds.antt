-- ===== src/Plugin/Connection/Rounds.antt =====
-- The loop of `buffer_incoming`: what it appends, and that each round uses up a selection.
use dqcsim_rs.Common.{
  ℕ, suc, ◌+◌, ◌≤◌, ◌<◌, Bool, true, false, ◌≡◌, ◌≢◌, ◌⊎◌, refl, List, [], ◌∷◌, length, is_empty,
  Outcome, ok, err, fault, out_of_fuel, ap, Fault, arith, pass, Bool-cases, inl, inr,
}
use dqcsim_rs.Plugin.Connection.{
  Connection, Event, Selection, selected, failed, handle_events, buffer_loop, buffer_incoming,
}
use dqcsim_rs.Plugin.Connection.Buffer.{
  coming_events, Appends, Appends-refl, Appends-trans, Appends-le, Appends-from, KeepsIncoming,
  handle_events-Appends, handle_events-KeepsIncoming,
}

-- A call that succeeds leaves no channel, or fewer coming selections than `n`.
abbrev pub Advances : ℕ → Outcome (Unit {0}) × Connection → Type 0
Advances n (ok _, c) = (is_empty c.incoming_map ≡ true) ⊎ (length c.incoming < n)
Advances n (err _, c) = Unit
Advances n (fault _, c) = Unit

-- What one run of the loop over `selections` did to the connection.
pub record Buffers (selections : List Selection) (c : Connection)
    (x : Outcome (Unit {0}) × Connection) : Type 0 where
  pub appends : Appends (coming_events selections) (coming_events (x.1.incoming)) c x.1
  pub shorter : length (x.1.incoming) ≤ length selections
  pub fuelled : x.0 ≢ fault out_of_fuel
  pub advances : Advances (length selections) x

Buffers-here :
    (selections : List Selection) (c : Connection) (r : Outcome (Unit {0}))
    → c.incoming ≡ selections
    → r ≢ fault out_of_fuel
    → Advances (length selections) (r, c)
    → Buffers selections c (r, c)
Buffers-here selections c r e f a = record {
  appends =
      Appends-le (coming_events selections) _ (coming_events selections) _ c c
        (Appends-refl (coming_events selections) c c refl refl) (omega (arith, ap coming_events e));
  shorter = omega (arith, ap length e);
  fuelled = f;
  advances = a;
}

Advances-suc : (n : ℕ) (x : Outcome (Unit {0}) × Connection) → Advances n x → Advances (suc n) x
Advances-suc n (ok _, c) (inl e) = inl e
Advances-suc n (ok _, c) (inr h) = inr (omega (arith, h))
Advances-suc n (err _, c) h = tt
Advances-suc n (fault _, c) h = tt

pub fault-injective : {A : Type 0} {f g : Fault} → Path (Outcome A) (fault f) (fault g) → f ≡ g
fault-injective e = cc e

-- One round: its events are handled, and the loop goes on if none of them was a message.
round-Buffers :
    (events : List Event) (selections : List Selection) (c : Connection)
    (x : Outcome Bool × Connection)
    → Appends (length events) 0 c x.1
    → KeepsIncoming selections x
    → ((c' : Connection)
        → c'.incoming ≡ selections
        → Buffers selections c' (buffer_loop selections c'))
    → Buffers (selected events ∷ selections) c (
        pass
          (λ received_any c'. elim received_any [
            | true ↦ (ok tt, c')
            | false ↦ buffer_loop selections c'
          ])
          x)
round-Buffers events selections c (ok true, c') p k ih = record {
  appends = Appends-le (length events) _ 0 _ c c' p (omega (arith, ap coming_events (k.0)));
  shorter = omega (arith, ap length (k.0));
  fuelled = λ e. cc e;
  advances = inr (omega (arith, ap length (k.0)));
}
round-Buffers events selections c (ok false, c') p k ih =
    let b = ih c' (k.0) in
    record {
      appends =
          Appends-le (length events + coming_events selections) _
            (0 + coming_events ((buffer_loop selections c').1.incoming)) _ c _
            (Appends-trans (length events) (coming_events selections) 0 _ c c' _ p b.appends)
            (omega arith);
      shorter = omega (arith, b.shorter);
      fuelled = b.fuelled;
      advances = Advances-suc _ _ b.advances;
    }
round-Buffers events selections c (err e, c') p k ih = record {
  appends = Appends-le (length events) _ 0 _ c c' p (omega (arith, ap coming_events (k.0)));
  shorter = omega (arith, ap length (k.0));
  fuelled = λ e. cc e;
  advances = tt;
}
round-Buffers events selections c (fault f, c') p k ih = record {
  appends = Appends-le (length events) _ 0 _ c c' p (omega (arith, ap coming_events (k.0)));
  shorter = omega (arith, ap length (k.0));
  fuelled = λ e. k.1 (ap fault (fault-injective e));
  advances = tt;
}

pub buffer_loop-Buffers :
    (selections : List Selection) (c : Connection)
    → c.incoming ≡ selections
    → Buffers selections c (buffer_loop selections c)
unfolding buffer_loop
buffer_loop-Buffers [] c e = elim (Bool-cases (is_empty c.incoming_map)) [
  | inl m ↦ rw (m, buffer_loop) (Buffers-here [] c (ok tt) e (λ e. cc e) (inl m))
  | inr m ↦ rw (m, buffer_loop) (Buffers-here [] c (fault _) e (λ e. cc e) tt)
]
buffer_loop-Buffers (failed f ∷ selections) c e = elim (Bool-cases (is_empty c.incoming_map)) [
  | inl m ↦ rw (m, buffer_loop) (Buffers-here _ c (ok tt) e (λ e. cc e) (inl m))
  | inr m ↦
      rw (m, buffer_loop)
        (record {
          appends = Appends-refl (coming_events selections) c _ refl refl;
          shorter = omega arith;
          fuelled = λ e. cc e;
          advances = tt;
        })
]
buffer_loop-Buffers (selected events ∷ selections) c e =
    let d = record c { incoming = selections } in
    let round =
      round-Buffers events selections c (handle_events events false d)
        (Appends-from (length events) 0 c d _ refl refl (handle_events-Appends events false d))
        (handle_events-KeepsIncoming events false d) (buffer_loop-Buffers selections) in
    elim (Bool-cases (is_empty c.incoming_map)) [
      | inl m ↦ rw (m, buffer_loop) (Buffers-here _ c (ok tt) e (λ e. cc e) (inl m))
      | inr m ↦ rw (m, buffer_loop) round
    ]

pub buffer_incoming-Buffers : (c : Connection) → Buffers c.incoming c (buffer_incoming c)
unfolding buffer_incoming
buffer_incoming-Buffers c = buffer_loop-Buffers c.incoming c refl
