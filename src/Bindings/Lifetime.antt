-- ===== src/Bindings/Lifetime.antt =====
-- The life of a handle in `rust/src/bindings`: whatever calls are made, a handle that is no longer
-- valid stays invalid.
use dqcsim_rs.Common.{
  ℕ, ◌+◌, ◌^◌, ◌≤◌, ◌<◌, ◌≡◌, ◌≢◌, refl, sym, ◌∙◌, Bool-cases, Option, none, some, Outcome, ok, err,
  fault, M, pass, arith, lookup, put, lookup-put, lookup-erase, ◌==◌, leb, inl, inr,
}
use dqcsim_rs.Common.Keeps.{Keeps, pass-keeps}
use dqcsim_rs.Bindings.Object.{ApiObject}
use dqcsim_rs.Bindings.State.{
  ApiState, ResolvedHandle, push, insert, resolve, resolve_with, put_back, drop_handle, api_return,
}
use dqcsim_rs.Bindings.Interfaces.{Interface}
use dqcsim_rs.Bindings.Calls.{
  with_ref, with_mut, mut_body, take_as, take_pending, pending_body, replace_in,
}

module _ {X : Type 0} (origin : ApiState X) where
  -- The handles that `origin` has given out and that are invalid there are invalid, and the
  -- counter has not gone back.
  pub record NoRevival (s : ApiState X) : Type 0 where
    pub counted : origin.handle_counter ≤ s.handle_counter
    pub dead :
        (k : ℕ)
        → k < origin.handle_counter
        → lookup k origin.objects ≡ none
        → lookup k s.objects ≡ none

  -- The handle is one that may be put back.
  abbrev Alive : ℕ → Type 0
  Alive h = h < origin.handle_counter → lookup h origin.objects ≢ none

  -- A write at a handle that may hold an object.
  put-dead :
      (h k : ℕ) (ob : ApiObject X) (s : ApiState X)
      → NoRevival s
      → Alive h
      → k < origin.handle_counter
      → lookup k origin.objects ≡ none
      → lookup k (put h ob s.objects) ≡ none
  put-dead h k ob s n a l d = elim (Bool-cases (h == k)) [
    | inl e ↦ absurd (a (ground arith) (ground arith))
    | inr e ↦ ground (arith, lookup-put h k ob s.objects, n.dead k l d)
  ]

  pub insert-NoRevival : (ob : ApiObject X) → Keeps NoRevival (insert ob)
  unfolding insert push
  insert-NoRevival ob = record {
    apply = λ s n.
        let stored : (k : ℕ)
            → k < origin.handle_counter
            → lookup k origin.objects ≡ none
            → lookup k (put s.handle_counter ob s.objects) ≡ none =
          λ k l d.
            put-dead s.handle_counter k ob s n (λ l. absurd (omega (arith, n.counted))) l d in
        elim (Bool-cases (leb (2 ^ 64) (s.handle_counter + 1))) [
          | inl e ↦ rw e (record { counted = n.counted; dead = stored })
          | inr e ↦ rw e (record { counted = omega (arith, n.counted); dead = stored })
        ];
  }

  put_back-NoRevival :
      (o : Option (ApiObject X)) (h : ℕ) (s : ApiState X)
      → NoRevival s
      → Alive h
      → NoRevival (put_back o h s)
  unfolding put_back
  put_back-NoRevival none h s n a = n
  put_back-NoRevival (some ob) h s n a = record {
    counted = n.counted;
    dead = λ k l d. put-dead h k ob s n a l d;
  }

  -- What follows `resolve` runs without the object, and the handle is one that may be put back.
  resolve-then :
      {A : Type 0} (h : ℕ) (f : ResolvedHandle X → M (ApiState X) A)
      → ((ob : ApiObject X) (s : ApiState X)
          → Alive h
          → NoRevival s
          → NoRevival (f (record { ob = some ob; handle = h }) s).1)
      → (s : ApiState X) → NoRevival s
      → NoRevival (pass f (resolve h s)).1
  unfolding resolve resolve_with
  resolve-then {A} h f k s n = go (lookup h s.objects) refl
    where
      go :
          (o : Option (ApiObject X))
          → lookup h s.objects ≡ o
          → NoRevival (pass f (resolve_with h o s)).1
      go none e = n
      go (some ob) e =
          k ob _ (λ l d. absurd (cc (sym (n.dead h l d) ∙ e)))
            (record {
              counted = n.counted;
              dead = λ j l d. ground (arith, lookup-erase h j s.objects, n.dead j l d);
            })

  pub with_ref-NoRevival :
      {A T : Type 0} (i : Interface X T) (h : ℕ) (body : T → M (ApiState X) A)
      → ((t : T) → Keeps NoRevival (body t))
      → Keeps NoRevival (with_ref i h body)
  unfolding with_ref drop_handle
  with_ref-NoRevival i h body k = record {
    apply =
        resolve-then h _
          (λ ob s a n. put_back-NoRevival (some ob) h _ (pass-keeps body (i.as_ref ob, s) n k) a);
  }

  pub with_mut-NoRevival :
      {A T : Type 0} (i : Interface X T) (h : ℕ)
      (body : T → ApiState X → (Outcome A × T) × ApiState X)
      → ((t : T) (s : ApiState X) → NoRevival s → NoRevival (body t s).1)
      → Keeps NoRevival (with_mut i h body)
  unfolding with_mut mut_body drop_handle
  with_mut-NoRevival {A} {T} i h body k = record {
    apply = resolve-then h _ (λ ob s a n. go ob s a n (i.as_ref ob));
  }
    where
      go :
          (ob : ApiObject X) (s : ApiState X)
          → Alive h
          → NoRevival s
          → (o : Outcome T)
          → NoRevival (mut_body i (record { ob = some ob; handle = h }) o body s).1
      go ob s a n (ok t) =
          put_back-NoRevival (replace_in i (body t s).0.1 (some ob)) h (body t s).1 (k t s n) a
      go ob s a n (err e) = put_back-NoRevival (some ob) h s n a
      go ob s a n (fault p) = put_back-NoRevival (some ob) h s n a

  pub take_as-NoRevival : {T : Type 0} (i : Interface X T) (h : ℕ) → Keeps NoRevival (take_as i h)
  unfolding take_as
  take_as-NoRevival i h = record {
    apply = resolve-then h _ (λ ob s a n. put_back-NoRevival _ h s n a);
  }

  pub take_pending-NoRevival :
      {T : Type 0} (i : Interface X T) (h : ℕ) → Keeps NoRevival (take_pending i h)
  unfolding take_pending pending_body drop_handle
  take_pending-NoRevival {T} i h = record {
    apply = resolve-then h _ (λ ob s a n. go ob s a n (i.as_ref ob));
  }
    where
      go :
          (ob : ApiObject X) (s : ApiState X)
          → Alive h
          → NoRevival s
          → (o : Outcome T) → NoRevival (pending_body (record { ob = some ob; handle = h }) o s).1
      go ob s a n (ok t) = n
      go ob s a n (err e) = put_back-NoRevival (some ob) h s n a
      go ob s a n (fault p) = put_back-NoRevival (some ob) h s n a

  pub api_return-NoRevival :
      {A : Type 0} (e : A) (r : Outcome A × ApiState X)
      → NoRevival r.1
      → NoRevival (api_return e r).1
  unfolding api_return
  api_return-NoRevival e (ok x, s) n = n
  api_return-NoRevival e (err x, s) n = record { counted = n.counted; dead = n.dead }
  api_return-NoRevival e (fault p, s) n = n
