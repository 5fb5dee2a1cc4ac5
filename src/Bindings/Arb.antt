-- ===== src/Bindings/Arb.antt =====
-- `rust/src/bindings/external/common/arb.rs` and the conversions of `rust/src/bindings/util.rs` that it
-- uses. A string of the caller is null or the bytes of valid text. `string_of` stands for
-- `String::from_utf8` with the copy that `api_return_string` makes.
pub mod Laws
use dqcsim_rs.Common.{
  ℕ, zero, suc, ◌+◌, ◌-◌, Bool, true, false, ◌&&◌, ◌||◌, not, ltb, leb, ◌==◌, if◌then◌else◌, Option,
  none, some, List, [], ◌∷◌, ◌++◌, length, get_elem?, take, drop, Outcome, ok, err, fault, panicked,
  inv_arg, and_then, say, lit, int, M, pass, ok_or, Text, ◌⊎◌,
}
use dqcsim_rs.Common.Int.{ℤ, pos, negsuc, ◌+ℤ◌, ltb_ℤ, pos_part}
use dqcsim_rs.Types.Arb.{ArbData, no_data}
use dqcsim_rs.Types.Arb.Display.{set_cbor, set_json, copy_from}
use dqcsim_rs.Bindings.Object.{ApiObject, arb_data}
use dqcsim_rs.Bindings.State.{ApiState, insert, api_return}
use dqcsim_rs.Bindings.Interfaces.{arb}
use dqcsim_rs.Bindings.Calls.{ReturnCode, failure, success, with_ref, with_mut, api_return_none}

-- `receive_str`, of bytes.
unfoldable pub receive_bytes : Option (List ℕ) → Outcome (List ℕ)
receive_bytes none = inv_arg (say "unexpected NULL string")
receive_bytes (some s) = ok s

-- A buffer of the caller with its contents: null with a size, or bytes.
pub data Raw : Type 0 where
  null_raw : ℕ → Raw
  raw : List ℕ → Raw

unfoldable pub receive_raw : Raw → Outcome (List ℕ)
receive_raw (null_raw size) = if size == 0 then ok [] else inv_arg (say "unexpected NULL data")
receive_raw (raw bytes) = ok bytes

-- A buffer to be filled: whether it is null, and its size.
pub record Buffer : Type 0 where
  pub is_null : Bool
  pub size : ℕ

-- `return_raw`: the actual size, and the bytes that are copied to the buffer.
unfoldable pub return_raw : List ℕ → Buffer → Outcome (ℤ × List ℕ)
return_raw obj b =
    if ltb 0 b.size && b.is_null
    then inv_arg (say "unexpected NULL buffer")
    else ok (pos (length obj), take b.size obj)

-- `receive_index`: a negative index counts from the end; behind the end is where one may insert.
unfoldable pub convert_index : ℕ → ℤ → Bool → ℤ
convert_index len (pos i) insert = pos i
convert_index len (negsuc i) insert =
    if insert then negsuc i +ℤ pos len +ℤ pos 1 else negsuc i +ℤ pos len

unfoldable pub receive_index : ℕ → ℤ → Bool → Outcome ℕ
unfolding convert_index
receive_index len index insert =
    let converted = convert_index len index insert in
    let fits =
      if ltb_ℤ converted (pos 0) || ltb len (pos_part converted)
      then false
      else if pos_part converted == len
      then insert
      else true in
    if fits then ok (pos_part converted) else inv_arg (lit "index out of range: " ∷ int index ∷ [])

-- `Vec::insert`, `Vec::remove`, the assignment of an element, and `Vec::pop`.
unfoldable pub insert_at : ℕ → List ℕ → List (List ℕ) → List (List ℕ)
insert_at i x xs = take i xs ++ (x ∷ drop i xs)

unfoldable pub remove_at : ℕ → List (List ℕ) → List (List ℕ)
remove_at i xs = take i xs ++ drop (i + 1) xs

unfoldable pub set_at : ℕ → List ℕ → List (List ℕ) → List (List ℕ)
set_at i x xs = take i xs ++ (x ∷ drop (i + 1) xs)

unfoldable pub pop_last : List (List ℕ) → Option (List (List ℕ) × List ℕ)
pop_last [] = none
pop_last (x ∷ []) = some ([], x)
pop_last (x ∷ y ∷ xs) = elim (pop_last (y ∷ xs)) as (λ _. Option (List (List ℕ) × List ℕ)) [
  | none ↦ none
  | some (rest, last) ↦ some (x ∷ rest, last)
]

-- The new arguments, or an error that leaves the data as it is.
unfoldable pub on_args : Outcome (List (List ℕ)) → ArbData → Outcome (Unit {0}) × ArbData
on_args (ok args) d = (ok tt, record d { args = args })
on_args (err e) d = (err e, d)
on_args (fault p) d = (fault p, d)

unfoldable pub push_arg : Outcome (List ℕ) → ArbData → Outcome (Unit {0}) × ArbData
unfolding on_args
push_arg s d = on_args (and_then s (λ b. ok (d.args ++ b ∷ []))) d

unfoldable pub insert_arg : ℤ → Outcome (List ℕ) → ArbData → Outcome (Unit {0}) × ArbData
unfolding on_args
insert_arg index s d =
    on_args
      (and_then (receive_index (length d.args) index true)
        (λ i. and_then s (λ b. ok (insert_at i b d.args))))
      d

unfoldable pub remove_arg : ℤ → ArbData → Outcome (Unit {0}) × ArbData
unfolding on_args
remove_arg index d =
    on_args (and_then (receive_index (length d.args) index false) (λ i. ok (remove_at i d.args))) d

unfoldable pub set_arg : ℤ → Outcome (List ℕ) → ArbData → Outcome (Unit {0}) × ArbData
unfolding on_args
set_arg index s d =
    on_args
      (and_then s
        (λ b. and_then (receive_index (length d.args) index false) (λ i. ok (set_at i b d.args))))
      d

-- The element at an index, which panics out of range.
unfoldable pub found : Option (List ℕ) → Outcome (List ℕ)
found none = fault panicked
found (some x) = ok x

-- `arb.get_args()[receive_index(..)?]`.
unfoldable pub get_arg : ℤ → ArbData → Outcome (List ℕ)
unfolding found
get_arg index d =
    and_then (receive_index (length d.args) index false) (λ i. found (get_elem? d.args i))

-- The popped argument goes to `f`; it is lost also where `f` fails.
unfoldable pub pop_arg : {A : Type 0} → (List ℕ → Outcome A) → ArbData → Outcome A × ArbData
pop_arg {A} f d = elim (pop_last d.args) as (λ _. Outcome A × ArbData) [
  | none ↦ (inv_arg (say "pop from empty list"), d)
  | some (rest, last) ↦ (f last, record d { args = rest })
]

module _ {X : Type 0} where
  -- A body that touches the data only.
  abbrev pub locally :
      {A : Type 0}
      → (ArbData → Outcome A × ArbData)
      → ArbData
      → ApiState X
      → (Outcome A × ArbData) × ApiState X
  locally f d s = (f d, s)

  unfoldable pub dqcs_arb_new : M (ApiState X) ℕ
  dqcs_arb_new = insert (arb_data no_data)

  unfoldable pub dqcs_arb_json_set :
      (List ℕ → List ℕ ⊎ Text) → ℕ → Option (List ℕ) → M (ApiState X) ReturnCode
  dqcs_arb_json_set json_to_cbor h json s =
      api_return_none
        (with_mut arb h (locally (λ d. pass (set_json json_to_cbor) (receive_bytes json, d))) s)

  unfoldable pub dqcs_arb_json_get :
      (List ℕ → Outcome (List ℕ))
      → (List ℕ → Outcome (List ℕ))
      → ℕ
      → M (ApiState X) (Option (List ℕ))
  dqcs_arb_json_get string_of cbor_to_json h s = api_return none (
      with_ref arb h
        (λ d s. (and_then (and_then (cbor_to_json d.cbor) string_of) (λ t. ok (some t)), s)) s)

  unfoldable pub dqcs_arb_cbor_set : ℕ → Raw → M (ApiState X) ReturnCode
  dqcs_arb_cbor_set h obj s =
      api_return_none (with_mut arb h (locally (λ d. pass set_cbor (receive_raw obj, d))) s)

  unfoldable pub dqcs_arb_cbor_get : ℕ → Buffer → M (ApiState X) (ℤ × List ℕ)
  dqcs_arb_cbor_get h b s =
      api_return (negsuc 0, []) (with_ref arb h (λ d s. (return_raw d.cbor b, s)) s)

  unfoldable pub dqcs_arb_push_str : ℕ → Option (List ℕ) → M (ApiState X) ReturnCode
  dqcs_arb_push_str h text s =
      api_return_none (with_mut arb h (locally (push_arg (receive_bytes text))) s)

  unfoldable pub dqcs_arb_push_raw : ℕ → Raw → M (ApiState X) ReturnCode
  dqcs_arb_push_raw h obj s =
      api_return_none (with_mut arb h (locally (push_arg (receive_raw obj))) s)

  unfoldable pub dqcs_arb_pop_str :
      (List ℕ → Outcome (List ℕ)) → ℕ → M (ApiState X) (Option (List ℕ))
  dqcs_arb_pop_str string_of h s =
      api_return none
        (with_mut arb h (locally (pop_arg (λ x. and_then (string_of x) (λ t. ok (some t))))) s)

  unfoldable pub dqcs_arb_pop_raw : ℕ → Buffer → M (ApiState X) (ℤ × List ℕ)
  dqcs_arb_pop_raw h b s =
      api_return (negsuc 0, []) (with_mut arb h (locally (pop_arg (λ x. return_raw x b))) s)

  unfoldable pub dqcs_arb_pop : ℕ → M (ApiState X) ReturnCode
  unfolding dqcs_arb_pop_raw
  dqcs_arb_pop h s =
      pass (λ r s. (ok (if ltb_ℤ (r.0) (pos 0) then failure else success), s))
        (dqcs_arb_pop_raw h (record { is_null = true; size = 0 }) s)

  unfoldable pub dqcs_arb_insert_str : ℕ → ℤ → Option (List ℕ) → M (ApiState X) ReturnCode
  dqcs_arb_insert_str h index text s =
      api_return_none (with_mut arb h (locally (insert_arg index (receive_bytes text))) s)

  unfoldable pub dqcs_arb_insert_raw : ℕ → ℤ → Raw → M (ApiState X) ReturnCode
  dqcs_arb_insert_raw h index obj s =
      api_return_none (with_mut arb h (locally (insert_arg index (receive_raw obj))) s)

  unfoldable pub dqcs_arb_remove : ℕ → ℤ → M (ApiState X) ReturnCode
  dqcs_arb_remove h index s = api_return_none (with_mut arb h (locally (remove_arg index)) s)

  unfoldable pub dqcs_arb_set_str : ℕ → ℤ → Option (List ℕ) → M (ApiState X) ReturnCode
  dqcs_arb_set_str h index text s =
      api_return_none (with_mut arb h (locally (set_arg index (receive_bytes text))) s)

  unfoldable pub dqcs_arb_set_raw : ℕ → ℤ → Raw → M (ApiState X) ReturnCode
  dqcs_arb_set_raw h index obj s =
      api_return_none (with_mut arb h (locally (set_arg index (receive_raw obj))) s)

  unfoldable pub dqcs_arb_get_str :
      (List ℕ → Outcome (List ℕ)) → ℕ → ℤ → M (ApiState X) (Option (List ℕ))
  dqcs_arb_get_str string_of h index s = api_return none (
      with_ref arb h
        (λ d s. (and_then (and_then (get_arg index d) string_of) (λ t. ok (some t)), s)) s)

  unfoldable pub dqcs_arb_get_raw : ℕ → ℤ → Buffer → M (ApiState X) (ℤ × List ℕ)
  dqcs_arb_get_raw h index b s =
      api_return (negsuc 0, [])
        (with_ref arb h (λ d s. (and_then (get_arg index d) (λ x. return_raw x b), s)) s)

  unfoldable pub dqcs_arb_get_size : ℕ → ℤ → M (ApiState X) ℤ
  unfolding dqcs_arb_get_raw
  dqcs_arb_get_size h index s =
      pass (λ r s. (ok (r.0), s)) (dqcs_arb_get_raw h index (record { is_null = true; size = 0 }) s)

  unfoldable pub dqcs_arb_len : ℕ → M (ApiState X) ℤ
  dqcs_arb_len h s = api_return (negsuc 0) (with_ref arb h (λ d s. (ok (pos (length d.args)), s)) s)

  unfoldable pub dqcs_arb_clear : ℕ → M (ApiState X) ReturnCode
  dqcs_arb_clear h s =
      api_return_none (with_mut arb h (locally (λ d. (ok tt, record d { args = [] }))) s)

  -- The source is out of the pool while the destination is resolved.
  unfoldable pub dqcs_arb_assign : ℕ → ℕ → M (ApiState X) ReturnCode
  dqcs_arb_assign dest src s =
      api_return_none
        (with_ref arb src (λ x. with_mut arb dest (locally (λ d. (ok tt, copy_from x d)))) s)
