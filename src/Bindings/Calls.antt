-- ===== src/Bindings/Calls.antt =====
-- The macros `resolve!`, `take!` and `delete!` of `rust/src/bindings/api_state.rs`, and what the
-- calls return. A body runs while its object is out of the pool; the object returns to the pool
-- when the body ends, also with an error.
use Prim.Native.String.{String}
use dqcsim_rs.Common.{
  ℕ, Bool, true, false, Option, none, some, Outcome, ok, err, fault, panicked, inv_arg, M, pass,
  say, ok_or,
}
use dqcsim_rs.Types.Qubit.{QubitRef, from_foreign}
use dqcsim_rs.Bindings.Object.{ApiObject}
use dqcsim_rs.Bindings.State.{ApiState, ResolvedHandle, resolve, put_back, drop_handle, api_return}
use dqcsim_rs.Bindings.Interfaces.{Interface}

-- `dqcs_return_t` and `dqcs_bool_return_t`.
pub data ReturnCode : Type 0 where
  failure success : ReturnCode

pub data BoolReturn : Type 0 where
  bool_failure bool_false bool_true : BoolReturn

unfoldable pub from_bool : Bool → BoolReturn
from_bool true = bool_true
from_bool false = bool_false

-- `receive_str`; a pointer is null, or to valid text.
unfoldable pub receive_str : Option String → Outcome String
receive_str none = inv_arg (say "unexpected NULL string")
receive_str (some s) = ok s

-- `QubitRef::from_foreign(qubit).ok_or_else(..)`.
unfoldable pub receive_qubit : ℕ → Outcome QubitRef
unfolding from_foreign
receive_qubit qubit = ok_or (from_foreign qubit) (say "0 is not a valid qubit reference")

module _ {X T : Type 0} where
  -- `as_ref` of a resolved handle; `expect` panics if the object was given away.
  unfoldable pub ref_of : Interface X T → Option (ApiObject X) → Outcome T
  ref_of i none = fault panicked
  ref_of i (some ob) = i.as_ref ob

  unfoldable pub take_of : Interface X T → Option (ApiObject X) → Outcome T × Option (ApiObject X)
  take_of i none = (fault panicked, none)
  take_of i (some ob) = i.take ob

  unfoldable pub replace_in : Interface X T → T → Option (ApiObject X) → Option (ApiObject X)
  replace_in i t none = none
  replace_in i t (some ob) = some (i.replace t ob)

  -- `resolve!(x as &T)` with the rest of the closure for `body`.
  unfoldable pub with_ref :
      {A : Type 0} → Interface X T → ℕ → (T → M (ApiState X) A) → M (ApiState X) A
  unfolding ref_of
  with_ref i handle body s =
      pass
        (λ (r : ResolvedHandle X) s'.
          let (res, s'') = pass body (ref_of i r.ob, s') in (res, drop_handle r s''))
        (resolve handle s)

  -- `resolve!(x as &mut T)`; the body returns the changed value beside its result.
  unfoldable pub mut_body :
      {A : Type 0}
      → Interface X T
      → ResolvedHandle X
      → Outcome T
      → (T → ApiState X → (Outcome A × T) × ApiState X)
      → M (ApiState X) A
  mut_body i r (ok t) body s =
      let ((res, t'), s') = body t s in
      (res, drop_handle (record r { ob = replace_in i t' r.ob }) s')
  mut_body i r (err e) body s = (err e, drop_handle r s)
  mut_body i r (fault p) body s = (fault p, drop_handle r s)

  unfoldable pub with_mut :
      {A : Type 0}
      → Interface X T
      → ℕ
      → (T → ApiState X → (Outcome A × T) × ApiState X)
      → M (ApiState X) A
  unfolding ref_of mut_body replace_in
  with_mut i handle body s =
      pass (λ (r : ResolvedHandle X). mut_body i r (ref_of i r.ob) body) (resolve handle s)

  -- `take!(x as T)`.
  unfoldable pub take_as : Interface X T → ℕ → M (ApiState X) T
  unfolding take_of
  take_as i handle s =
      pass
        (λ (r : ResolvedHandle X) s'.
          let (res, left) = take_of i r.ob in (res, put_back left r.handle s'))
        (resolve handle s)

  -- `resolve!(x as pending T)`, `x.as_ref()` and, with nothing between that can fail,
  -- `delete!(resolved x)`.
  unfoldable pub pending_body : ResolvedHandle X → Outcome T → M (ApiState X) T
  pending_body r (ok t) s = (ok t, s)
  pending_body r (err e) s = (err e, drop_handle r s)
  pending_body r (fault p) s = (fault p, drop_handle r s)

  unfoldable pub take_pending : Interface X T → ℕ → M (ApiState X) T
  unfolding ref_of pending_body
  take_pending i handle s =
      pass (λ (r : ResolvedHandle X). pending_body r (ref_of i r.ob)) (resolve handle s)

module _ {X : Type 0} where
  unfoldable pub api_return_none : Outcome (Unit {0}) × ApiState X → Outcome ReturnCode × ApiState X
  api_return_none r = api_return failure (pass (λ _ s. (ok success, s)) r)

  unfoldable pub api_return_bool : Outcome Bool × ApiState X → Outcome BoolReturn × ApiState X
  api_return_bool r = api_return bool_failure (pass (λ b s. (ok (from_bool b), s)) r)
