-- ===== src/Bindings/State.antt =====
-- `APIState` and the resolution of handles, of `rust/src/bindings/api_state.rs`.
use dqcsim_rs.Common.{
  ℕ, ◌+◌, leb, ◌^◌, Bool, true, false, Option, none, some, List, [], ◌∷◌, Outcome, ok, err, fault,
  panicked, inv_arg, inv_op, M, pass, lit, num, Text, to_string, lookup, put, erase, if◌then◌else◌,
}
use dqcsim_rs.Bindings.Object.{ApiObject}

module _ (X : Type 0) where
  pub record ApiState : Type 0 where
    pub objects : List (ℕ × ApiObject X)
    pub handle_counter : ℕ
    pub thread_locals_used_by : Option ℕ
    pub last_error : Option Text

  -- The object that a handle was resolved to, until its ownership is given away.
  pub record ResolvedHandle : Type 0 where
    pub ob : Option (ApiObject X)
    pub handle : ℕ

-- What the thread starts with.
abbrev pub fresh : {X : Type 0} → ApiState X
fresh = record { objects = []; handle_counter = 1; thread_locals_used_by = none; last_error = none }

abbrev is_some {ℓ} : {A : Type ℓ} → Option A → Bool
is_some none = false
is_some (some a) = true

-- `self.thread_locals_used_by.unwrap()`, in a message that is made only where there is one.
holder : Option ℕ → Text
holder none = []
holder (some h) = num h ∷ []

module _ {X : Type 0} where
  -- `push`; the counter is 64 bits wide, and to count past it panics as in a debug build.
  unfoldable pub push : ApiObject X → M (ApiState X) ℕ
  push object s =
      let handle = s.handle_counter in
      if leb (2 ^ 64) (handle + 1)
      then (fault panicked, record s { objects = put handle object s.objects })
      else (
        ok handle,
        record s { objects = put handle object s.objects; handle_counter = handle + 1 },
      )

  -- `insert`.
  unfoldable pub insert : ApiObject X → M (ApiState X) ℕ
  unfolding push
  insert = push

  unfoldable pub claimed_by : Option ℕ → List (ℕ × ApiObject X) → Bool
  claimed_by none objects = false
  claimed_by (some h) objects = is_some (lookup h objects)

  unfoldable pub thread_locals_claimed : ApiState X → Bool
  unfolding claimed_by
  thread_locals_claimed s = claimed_by s.thread_locals_used_by s.objects

  unfoldable pub thread_locals_assert_free : ApiState X → Outcome (Unit {0})
  unfolding thread_locals_claimed holder
  thread_locals_assert_free s =
      if thread_locals_claimed s
      then inv_op (
          lit "cannot claim DQCsim thread-local storage; already claimed by handle "
          ∷ holder s.thread_locals_used_by)
      else ok tt

  unfoldable pub thread_locals_claim : ℕ → M (ApiState X) (Unit {0})
  unfolding thread_locals_assert_free
  thread_locals_claim handle s =
      pass (λ _ s'. (ok tt, record s' { thread_locals_used_by = some handle }))
        (thread_locals_assert_free s, s)

  -- `resolve`: the object leaves the pool.
  unfoldable pub resolve_with : ℕ → Option (ApiObject X) → M (ApiState X) (ResolvedHandle X)
  resolve_with handle none s = (inv_arg (lit "handle " ∷ num handle ∷ lit " is invalid" ∷ []), s)
  resolve_with handle (some ob) s =
      (ok (record { ob = some ob; handle = handle }), record s { objects = erase handle s.objects })

  unfoldable pub resolve : ℕ → M (ApiState X) (ResolvedHandle X)
  unfolding resolve_with
  resolve handle s = resolve_with handle (lookup handle s.objects) s

  -- `Drop for ResolvedHandle`: an object whose ownership was not given away returns to the pool.
  unfoldable pub put_back : Option (ApiObject X) → ℕ → ApiState X → ApiState X
  put_back none handle s = s
  put_back (some ob) handle s = record s { objects = put handle ob s.objects }

  unfoldable pub drop_handle : ResolvedHandle X → ApiState X → ApiState X
  unfolding put_back
  drop_handle r s = put_back r.ob r.handle s

  -- `api_return`: the result, or the error value with the message kept in `last_error`.
  unfoldable pub api_return : {A : Type 0} → A → Outcome A × ApiState X → Outcome A × ApiState X
  api_return error_value (ok x, s) = (ok x, s)
  api_return error_value (err e, s) = (ok error_value, record s { last_error = some (to_string e) })
  api_return error_value (fault p, s) = (fault p, s)
