-- ===== src/Types/Arb/Command.antt =====
-- The text format of `ArbCmd`, in `rust/src/core/common/types/arb_cmd.rs`. The identifiers stay strings,
-- and the text of the data is read as its code points.
use Prim.Native.Char.{Char, code}
use mathlib.Core.List.{append_assoc}
use dqcsim_rs.Common.{
  ℕ, true, false, ◌≡◌, refl, ◌||◌, ◌==◌, if◌then◌else◌, String, Option, none, some, List, [], ◌∷◌,
  ◌++◌, Outcome, ok, inv_arg, and_then, guard-eq-ok, sym, ◌∙◌, ap, err, fault, say, Text, ◌⊎◌,
  arith,
}
use dqcsim_rs.Types.Arb.{ArbData, ArbCmd, no_data, is_ascii_alphanumeric, has_invalid, verify_id}
use dqcsim_rs.Types.Arb.Scan
use dqcsim_rs.Types.Arb.Display

unfoldable pub codes : String → List ℕ
codes String.[] = []
codes (String.◌∷◌ c s) = code c ∷ codes s

-- `splitn(2, c)`: what stands before and behind the first separator; none where there is none.
unfoldable pub split_at : ℕ → String → Option (String × String)
split_at separator String.[] = none
split_at separator (String.◌∷◌ c s) =
    let rest = split_at separator s in
    if code c == separator
    then some (String.[], s)
    else elim rest [ none ↦ none | some (before, behind) ↦ some (String.◌∷◌ c before, behind) ]

-- How the data follows the operation identifier.
pub data ArgMode : Type 0 where
  omitted : ArgMode
  json_omitted complete : String → ArgMode

-- The operation identifier, which ends at the first period or colon, and the data.
unfoldable pub split_operation : String → String × ArgMode
split_operation String.[] = (String.[], omitted)
split_operation (String.◌∷◌ c s) =
    let (operation, mode) = split_operation s in
    if code c == b'.'
    then (String.[], json_omitted s)
    else if code c == b':'
    then (String.[], complete s)
    else (String.◌∷◌ c operation, mode)

module _ (json_to_cbor : List ℕ → List ℕ ⊎ Text) where
  unfoldable pub parse_data : ArgMode → Outcome ArbData
  unfolding codes Scan.from_str_args_only
  parse_data omitted = ok no_data
  parse_data (json_omitted s) = Scan.from_str_args_only (codes s)
  parse_data (complete s) = Scan.from_str json_to_cbor (codes s)

  unfoldable pub parse_operation : String → String → Outcome ArbCmd
  unfolding split_operation parse_data
  parse_operation interface s =
      let (operation, mode) = split_operation s in
      and_then (verify_id operation) (λ o. and_then (parse_data mode) (λ d.
        ok (record { interface_identifier = interface; operation_identifier = o; payload = d })))

  unfoldable pub parse_interface : String → Option (String × String) → Outcome ArbCmd
  unfolding parse_operation
  parse_interface s none =
      and_then (verify_id s)
        (λ i. inv_arg (say "expected period after interface identifier while parsing ArbCmd"))
  parse_interface s (some (interface, rest)) =
      and_then (verify_id interface) (λ i. parse_operation i rest)

  unfoldable pub from_str : String → Outcome ArbCmd
  unfolding parse_interface split_at
  from_str s = parse_interface s (split_at b'.' s)

-- A text with a separator between two parts.
abbrev pub join : String → Char → String → String
join String.[] separator t = String.◌∷◌ separator t
join (String.◌∷◌ c s) separator t = String.◌∷◌ c (join s separator t)

abbrev pub HasNo : ℕ → String → Type 0
HasNo separator String.[] = Unit
HasNo separator (String.◌∷◌ c s) = ((code c == separator) ≡ false) × HasNo separator s

pub split_at-join :
    (separator : Char) (s t : String)
    → HasNo (code separator) s
    → split_at (code separator) (join s separator t) ≡ some (s, t)
unfolding split_at
split_at-join separator String.[] t h =
    let e : (code separator == code separator) ≡ true = ground arith in rw e
split_at-join separator (String.◌∷◌ c s) t h = rw (h.0, split_at-join separator s t h.1)

no_separator :
    (c : ℕ)
    → is_ascii_alphanumeric c || c == b'_' ≡ true
    → ((c == b'.') ≡ false) × ((c == b':') ≡ false)
unfolding is_ascii_alphanumeric
no_separator c h = (ground arith, ground arith)

has_invalid-HasNo : (s : String) → has_invalid s ≡ false → HasNo b'.' s × HasNo b':' s
unfolding has_invalid
has_invalid-HasNo String.[] h = (tt, tt)
has_invalid-HasNo (String.◌∷◌ c s) h =
    let (p, q) = no_separator (code c) (ground (arith, h)) in
    let (ps, qs) = has_invalid-HasNo s (ground (arith, h)) in ((p, ps), (q, qs))

split_operation-join :
    (s t : String) → HasNo b'.' s → HasNo b':' s → split_operation (join s ":" t) ≡ (s, complete t)
unfolding split_operation
split_operation-join String.[] t h k = refl
split_operation-join (String.◌∷◌ c s) t h k = rw (h.0, k.0, split_operation-join s t h.1 k.1)

abbrev pub framed : List ℕ → Outcome (List ℕ) → Outcome (List ℕ)
framed head (ok text) = ok (head ++ text)
framed head (err e) = err e
framed head (fault p) = fault p

-- `fmt`.
unfoldable pub display : (List ℕ → Outcome (List ℕ)) → ArbCmd → Outcome (List ℕ)
unfolding codes Display.display
display cbor_to_json cmd =
    framed
      (codes cmd.interface_identifier ++ (b'.' ∷ (codes cmd.operation_identifier ++ b':' ∷ [])))
      (Display.display cbor_to_json cmd.payload)

pub codes-join :
    (s t : String) (separator : Char)
    → codes (join s separator t) ≡ codes s ++ (code separator ∷ codes t)
unfolding codes
codes-join String.[] t separator = refl
codes-join (String.◌∷◌ c s) t separator = ap (λ (x : List ℕ). code c ∷ x) (codes-join s t separator)

verify_id-HasNo : (s : String) → verify_id s ≡ ok s → HasNo b'.' s × HasNo b':' s
unfolding verify_id
verify_id-HasNo s h = has_invalid-HasNo s (guard-eq-ok (has_invalid s) _ _ h).0

-- The text of a command whose data has the text `t`.
abbrev pub text_of : ArbCmd → String → String
text_of cmd t = join cmd.interface_identifier "." (join cmd.operation_identifier ":" t)

codes-text_of :
    (cmd : ArbCmd) (t : String)
    → (codes cmd.interface_identifier ++ (b'.' ∷ (codes cmd.operation_identifier ++ b':' ∷ [])))
        ++ codes t
      ≡ codes (text_of cmd t)
codes-text_of cmd t =
    append_assoc (codes cmd.interface_identifier)
      (b'.' ∷ (codes cmd.operation_identifier ++ b':' ∷ [])) (codes t)
    ∙ ap (λ (x : List ℕ). codes cmd.interface_identifier ++ (b'.' ∷ x))
        (append_assoc (codes cmd.operation_identifier) (b':' ∷ []) (codes t)
          ∙ sym (codes-join cmd.operation_identifier t ":"))
    ∙ sym (codes-join cmd.interface_identifier (join cmd.operation_identifier ":" t) ".")

from_str-text_of :
    (json_to_cbor : List ℕ → List ℕ ⊎ Text) (cmd : ArbCmd) (t : String)
    → verify_id cmd.interface_identifier ≡ ok cmd.interface_identifier
    → verify_id cmd.operation_identifier ≡ ok cmd.operation_identifier
    → Scan.from_str json_to_cbor (codes t) ≡ ok cmd.payload
    → from_str json_to_cbor (text_of cmd t) ≡ ok cmd
unfolding from_str parse_interface parse_operation parse_data
from_str-text_of json_to_cbor cmd t i o d =
    let (p, q) = verify_id-HasNo cmd.operation_identifier o in
    rw (
      split_at-join "." cmd.interface_identifier (join cmd.operation_identifier ":" t)
          (verify_id-HasNo cmd.interface_identifier i).0,
      i,
      split_operation-join cmd.operation_identifier t p q,
      o,
      d,
    )

-- A command with valid identifiers is read back from its text, where that holds of its data.
pub from_str-display_cmd :
    (json_to_cbor : List ℕ → List ℕ ⊎ Text) (cbor_to_json : List ℕ → Outcome (List ℕ))
    (cmd : ArbCmd) (t : String)
    → verify_id cmd.interface_identifier ≡ ok cmd.interface_identifier
    → verify_id cmd.operation_identifier ≡ ok cmd.operation_identifier
    → Display.display cbor_to_json cmd.payload ≡ ok (codes t)
    → Scan.from_str json_to_cbor (codes t) ≡ ok cmd.payload
    → (display cbor_to_json cmd ≡ ok (codes (text_of cmd t)))
      × (from_str json_to_cbor (text_of cmd t) ≡ ok cmd)
unfolding display
from_str-display_cmd json_to_cbor cbor_to_json cmd t i o printed read = (
  rw (printed) (ap (λ (x : List ℕ). ok x) (codes-text_of cmd t)),
  from_str-text_of json_to_cbor cmd t i o read,
)
