-- ===== src/Common/Errors.antt =====
-- `rust/src/core/common/error.rs`: the crate's error type and its shorthands, and how a call ends.
-- A message is kept as its literal pieces and the numbers and characters that `format!` puts
-- between them.
use Prim.Native.Nat.{ℕ}
use Prim.Native.String.{String}
use mathlib.Core.List.{List, [], ◌∷◌}
use dqcsim_rs.Common.Int.{ℤ}
use mathlib.Core.Bool.{Bool, true, false}
use mathlib.Core.Path.{◌≡◌, refl}
use mathlib.Core.Option.{Option, none, some}
use dqcsim_rs.Common.Tests.{if◌then◌else◌}

pub data Piece : Type 0 where
  lit : String → Piece
  chars : List ℕ → Piece
  num : ℕ → Piece
  int : ℤ → Piece

abbrev pub Text : Type 0
Text = List Piece

abbrev pub say : String → Text
say s = lit s ∷ []

-- `ErrorKind`, but for the kinds that only wrap errors of other crates.
pub data ErrorKind : Type 0 where
  log_error : Text → ErrorKind
  invalid_argument : Text → ErrorKind
  invalid_operation : Text → ErrorKind
  other : Text → ErrorKind
  ipc_error : Text → ErrorKind
  io_error : Text → ErrorKind

-- The `#[fail(display = ...)]` attributes.
unfoldable pub to_string : ErrorKind → Text
to_string (log_error s) = lit "Log error: " ∷ s
to_string (invalid_argument s) = lit "Invalid argument: " ∷ s
to_string (invalid_operation s) = lit "Invalid operation: " ∷ s
to_string (other s) = s
to_string (ipc_error s) = lit "Interprocess communication error: " ∷ s
to_string (io_error s) = lit "I/O error: " ∷ s

-- What stops a call for good: a Rust panic, a read that nothing will ever answer, and, in the
-- model only, a loop that was given too little fuel.
pub data Fault : Type 0 where
  panicked hung out_of_fuel : Fault

pub data Outcome {ℓ} (A : Type ℓ) : Type ℓ where
  ok : A → Outcome A
  err : ErrorKind → Outcome A
  fault : Fault → Outcome A

abbrev pub inv_arg {ℓ} : {A : Type ℓ} → Text → Outcome A
inv_arg s = err (invalid_argument s)

abbrev pub inv_op {ℓ} : {A : Type ℓ} → Text → Outcome A
inv_op s = err (invalid_operation s)

abbrev pub other_err {ℓ} : {A : Type ℓ} → Text → Outcome A
other_err s = err (other s)

-- `ok_or_else(oe_inv_arg(..))?`.
abbrev pub ok_or {ℓ} : {A : Type ℓ} → Option A → Text → Outcome A
ok_or none e = inv_arg e
ok_or (some a) e = ok a

-- The chain of the pure fallible functions: `?` and `and_then`.
abbrev pub and_then {ℓ κ} : {A : Type ℓ} {B : Type κ} → Outcome A → (A → Outcome B) → Outcome B
and_then (ok a) f = f a
and_then (err e) f = err e
and_then (fault p) f = fault p

-- Inversion of a successful chain.
pub and_then-eq-ok {ℓ κ} :
    {A : Type ℓ} {B : Type κ} (m : Outcome A) (f : A → Outcome B) {b : B}
    → and_then m f ≡ ok b
    → (a : A) × (m ≡ ok a) × (f a ≡ ok b)
and_then-eq-ok (ok a) f h = (a, refl, h)
and_then-eq-ok (err e) f h = cc
and_then-eq-ok (fault p) f h = cc

pub ok-injective : {A : Type 0} {a b : A} → Path (Outcome A) (ok a) (ok b) → a ≡ b
ok-injective h = cc h

pub ok_or-eq-ok : {A : Type 0} (o : Option A) (e : Text) {a : A} → ok_or o e ≡ ok a → o ≡ some a
ok_or-eq-ok none e h = absurd (cc h)
ok_or-eq-ok (some b) e h = cc h

-- Inversion of a guard that returns early or panics.
pub guard-eq-ok {ℓ} :
    {A : Type ℓ} (b : Bool) (e : ErrorKind) (m : Outcome A) {a : A}
    → (if b then err e else m) ≡ ok a
    → (b ≡ false) × (m ≡ ok a)
guard-eq-ok true e m h = absurd (cc h)
guard-eq-ok false e m h = (refl, h)

pub assert-eq-ok {ℓ} :
    {A : Type ℓ} (b : Bool) (p : Fault) (m : Outcome A) {a : A}
    → (if b then fault p else m) ≡ ok a
    → (b ≡ false) × (m ≡ ok a)
assert-eq-ok true p m h = absurd (cc h)
assert-eq-ok false p m h = (refl, h)

-- A method on `&mut self` that returns `Result<A>`: what it changed before an error stays changed.
abbrev pub M : Type 0 → Type 0 → Type 0
M S A = S → Outcome A × S

module _ {S : Type 0} where
  abbrev pub pass : {A B : Type 0} → (A → M S B) → Outcome A × S → Outcome B × S
  pass f (ok a, s) = f a s
  pass f (err e, s) = (err e, s)
  pass f (fault p, s) = (fault p, s)

  infixl 5 ◌>>=◌ ◌>>◌
  abbrev pub ◌>>=◌ : {A B : Type 0} → M S A → (A → M S B) → M S B
  ◌>>=◌ m f s = pass f (m s)

  abbrev pub ◌>>◌ : {B : Type 0} → M S (Unit {0}) → M S B → M S B
  ◌>>◌ m k s = pass (λ _. k) (m s)

  abbrev pub return : {A : Type 0} → A → M S A
  return a s = (ok a, s)

  -- A pure result, with the state as it is.
  abbrev pub lift : {A : Type 0} → Outcome A → M S A
  lift r s = (r, s)

  -- `if test { return Err(e) }`.
  abbrev pub guard : Bool → ErrorKind → M S (Unit {0})
  guard true e s = (err e, s)
  guard false e s = (ok tt, s)

  abbrev pub modify : (S → S) → M S (Unit {0})
  modify f s = (ok tt, f s)

  abbrev pub gets : {A : Type 0} → (S → A) → M S A
  gets f s = (ok (f s), s)
