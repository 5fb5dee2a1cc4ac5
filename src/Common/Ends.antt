-- ===== src/Common/Ends.antt =====
-- Methods that keep a predicate on the state and never run out of fuel.
use dqcsim_rs.Common.Errors.{Outcome, ok, err, fault, out_of_fuel, M, pass, ◌>>=◌, ◌>>◌}
use dqcsim_rs.Common.Tests.{if◌then◌else◌}
use mathlib.Core.Bool.{Bool, true, false}
use mathlib.Core.Logic.{◌≢◌}
use mathlib.Core.Path.{ap}

-- The result of a method: the state satisfies `R`, and the fuel sufficed.
abbrev pub Ended : {S A : Type 0} → (S → Type 0) → Outcome A × S → Type 0
Ended R (r, s) = R s × (r ≢ fault out_of_fuel)

pub record Ends {S A : Type 0} (R : S → Type 0) (m : M S A) : Type 0 where
  pub apply : (s : S) → R s → Ended R (m s)

module _ {S : Type 0} {R : S → Type 0} where
  pub pass-Ended :
      {A B : Type 0} (f : A → M S B) (r : Outcome A × S)
      → Ended R r
      → ((a : A) → Ends R (f a))
      → Ended R (pass f r)
  pass-Ended f (ok a, t) h k = (k a).apply t (h.0)
  pass-Ended f (err e, t) h k = (h.0, λ e. cc e)
  pass-Ended f (fault p, t) h k = (h.0, λ e. h.1 (ap fault (fault-injective e)))
    where
      fault-injective :
          {A : Type 0} {p q : dqcsim_rs.Common.Errors.Fault}
          → Path (Outcome A) (fault p) (fault q)
          → Path dqcsim_rs.Common.Errors.Fault p q
      fault-injective e = cc e

  pub >>=-Ends :
      {A B : Type 0} {m : M S A} {f : A → M S B}
      → Ends R m
      → ((a : A) → Ends R (f a))
      → Ends R (m >>= f)
  >>=-Ends {m = m} {f = f} h k = record { apply = λ s r. pass-Ended f (m s) (h.apply s r) k }

  pub >>-Ends :
      {B : Type 0} {m : M S (Unit {0})} {k : M S B} → Ends R m → Ends R k → Ends R (m >> k)
  >>-Ends {m = m} {k = k} h h' = record {
    apply = λ s r. pass-Ended (λ _. k) (m s) (h.apply s r) (λ _. h');
  }

pub if-Ended :
    {S A : Type 0} (R : S → Type 0) (b : Bool) (x y : Outcome A × S)
    → Ended R x
    → Ended R y
    → Ended R (if b then x else y)
if-Ended R true x y h k = h
if-Ended R false x y h k = k
