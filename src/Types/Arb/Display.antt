-- ===== src/Types/Arb/Display.antt =====
-- Printing and changing `ArbData`, in `rust/src/core/common/types/arb_data.rs`. The serde crates,
-- which turn CBOR into a JSON text, are an argument.
use dqcsim_rs.Common.{
  ℕ, ◌+◌, ◌-◌, ◌/◌, ◌%◌, Bool, false, ◌||◌, ltb, ◌==◌, if◌then◌else◌, List, [], ◌∷◌, ◌++◌, Outcome,
  ok, err, fault, panicked, and_then, inv_arg, M, pass, Text, ◌⊎◌, inl, inr,
}
use dqcsim_rs.Types.Arb.{ArbData, no_data}
use dqcsim_rs.Types.Cbor.{canonizalize}

unfoldable pub hex_digit : ℕ → ℕ
hex_digit n = if ltb n 10 then b'0' + n else b'A' + (n - 10)

-- `format!("_{:02X}", byte)` of every byte.
unfoldable pub print_hex : List ℕ → List ℕ
unfolding hex_digit
print_hex [] = []
print_hex (byte ∷ arg) = b'_' ∷ hex_digit (byte / 16) ∷ hex_digit (byte % 16) ∷ print_hex arg

unfoldable pub is_binary : List ℕ → Bool
is_binary [] = false
is_binary (byte ∷ arg) = (ltb byte 32 || ltb 126 byte) || is_binary arg

unfoldable pub print_plain : List ℕ → List ℕ
print_plain [] = []
print_plain (byte ∷ arg) =
    let rest = print_plain arg in
    if byte == b'_' || byte == b',' then b'_' ∷ byte ∷ rest else byte ∷ rest

-- The loop over the arguments, each behind a comma.
unfoldable pub print_args : List (List ℕ) → List ℕ
unfolding print_hex is_binary print_plain
print_args [] = []
print_args (arg ∷ args) =
    b',' ∷ ((if is_binary arg then print_hex arg else print_plain arg) ++ print_args args)

module _ (cbor_to_json : List ℕ → Outcome (List ℕ)) where
  unfoldable pub get_json : ArbData → Outcome (List ℕ)
  get_json d = cbor_to_json d.cbor

  -- `to_string`, which panics where `fmt` returns an error.
  unfoldable pub to_text : Outcome (List ℕ) → List (List ℕ) → Outcome (List ℕ)
  to_text (ok json) args = ok (json ++ print_args args)
  to_text (err e) args = fault panicked
  to_text (fault p) args = fault p

  unfoldable pub display : ArbData → Outcome (List ℕ)
  unfolding to_text get_json
  display d = to_text (get_json d) d.args

-- `set_cbor`: on an error the data stays as it was.
unfoldable pub set_cbor : List ℕ → M ArbData (Unit {0})
set_cbor cbor d = pass (λ c d. (ok tt, record d { cbor = c })) (canonizalize cbor, d)

unfoldable pub from_cbor : List ℕ → List (List ℕ) → Outcome ArbData
from_cbor cbor args = and_then (canonizalize cbor) (λ c. ok (record { cbor = c; args = args }))

-- `set_json`; the text of the error is that of the crate.
unfoldable pub set_json : (List ℕ → List ℕ ⊎ Text) → List ℕ → M ArbData (Unit {0})
unfolding set_cbor
set_json json_to_cbor json d = elim (json_to_cbor json) as (λ _. Outcome (Unit {0}) × ArbData) [
  | inl cbor ↦ set_cbor cbor d
  | inr e ↦ (inv_arg e, d)
]

unfoldable pub set_args : List (List ℕ) → ArbData → ArbData
set_args args d = record d { args = args }

-- `clear_cbor` canonicalizes the empty object, which is canonical.
unfoldable pub clear_cbor : M ArbData (Unit {0})
unfolding set_cbor
clear_cbor d = set_cbor no_data.cbor d

unfoldable pub clear : M ArbData (Unit {0})
unfolding clear_cbor set_args
clear d = pass (λ _ d. (ok tt, set_args [] d)) (clear_cbor d)

unfoldable pub copy_from : ArbData → ArbData → ArbData
copy_from src d = record d { cbor = src.cbor; args = src.args }
