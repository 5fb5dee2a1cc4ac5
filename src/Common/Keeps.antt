-- ===== src/Common/Keeps.antt =====
-- Predicates on the state that a method keeps, whatever way it ends.
use dqcsim_rs.Common.Errors.{
  Outcome, ok, err, fault, M, pass, ◌>>=◌, ◌>>◌, guard, ErrorKind, return, lift, modify, gets,
}
use dqcsim_rs.Common.Tests.{if◌then◌else◌}
use mathlib.Core.Bool.{Bool, true, false}

pub record Keeps {S A : Type 0} (R : S → Type 0) (m : M S A) : Type 0 where
  pub apply : (s : S) → R s → R (m s).1

module _ {S : Type 0} {R : S → Type 0} where
  pub pass-keeps :
      {A B : Type 0} (f : A → M S B) (r : Outcome A × S)
      → R r.1
      → ((a : A) → Keeps R (f a))
      → R (pass f r).1
  pass-keeps f (ok a, t) h k = (k a).apply t h
  pass-keeps f (err e, t) h k = h
  pass-keeps f (fault p, t) h k = h

  pub >>=-Keeps :
      {A B : Type 0} {m : M S A} {f : A → M S B}
      → Keeps R m
      → ((a : A) → Keeps R (f a))
      → Keeps R (m >>= f)
  >>=-Keeps {m = m} {f = f} h k = record { apply = λ s r. pass-keeps f (m s) (h.apply s r) k }

  pub >>-Keeps :
      {B : Type 0} {m : M S (Unit {0})} {k : M S B} → Keeps R m → Keeps R k → Keeps R (m >> k)
  >>-Keeps {m = m} {k = k} h h' = record {
    apply = λ s r. pass-keeps (λ _. k) (m s) (h.apply s r) (λ _. h');
  }

  pub guard-Keeps : (b : Bool) (e : ErrorKind) → Keeps R (guard b e)
  guard-Keeps true e = record { apply = λ s r. r }
  guard-Keeps false e = record { apply = λ s r. r }

  pub return-Keeps : {A : Type 0} (a : A) → Keeps R (return a)
  return-Keeps a = record { apply = λ s r. r }

  pub lift-Keeps : {A : Type 0} (a : Outcome A) → Keeps R (lift a)
  lift-Keeps a = record { apply = λ s r. r }

-- An update that keeps the predicate.
pub modify-Keeps :
    {S : Type 0} (R : S → Type 0) (f : S → S) → ((s : S) → R s → R (f s)) → Keeps R (modify f)
modify-Keeps R f h = record { apply = h }

pub gets-Keeps : {S A : Type 0} (R : S → Type 0) (f : S → A) → Keeps R (gets f)
gets-Keeps R f = record { apply = λ s r. r }

pub if-keeps :
    {S A : Type 0} (R : S → Type 0) (b : Bool) (x y : Outcome A × S)
    → R x.1
    → R y.1
    → R (if b then x else y).1
if-keeps R true x y h k = h
if-keeps R false x y h k = k
