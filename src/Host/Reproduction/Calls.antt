-- ===== src/Host/Reproduction/Calls.antt =====
-- `rust/src/core/host/reproduction/host_call.rs`: the text of a host call.
use mathlib.Core.List.{append_assoc}
use dqcsim_rs.Common.{
  ℕ, ◌≡◌, refl, sym, ◌∙◌, ap, subst, String, Option, none, some, List, [], ◌∷◌, ◌++◌, Outcome, ok,
  inv_arg, and_then, say, Text, ◌⊎◌,
}
use dqcsim_rs.Util.{friendly_enum_parse}
use dqcsim_rs.Types.Arb.{ArbData, no_data}
use dqcsim_rs.Types.Arb.Command.{codes, split_at, join, framed, HasNo, split_at-join, codes-join}
use dqcsim_rs.Types.Arb.Command
use dqcsim_rs.Types.Arb.Scan
use dqcsim_rs.Types.Arb.Display
use dqcsim_rs.Host.Simulation.{HostCall}

pub data HostCallFunction : Type 0 where
  start wait send recv yield arb : HostCallFunction

-- The names, in snake case.
abbrev functions : List (List ℕ × HostCallFunction)
functions =
    (b's' ∷ b't' ∷ b'a' ∷ b'r' ∷ b't' ∷ [], HostCallFunction.start)
    ∷ (b'w' ∷ b'a' ∷ b'i' ∷ b't' ∷ [], HostCallFunction.wait)
    ∷ (b's' ∷ b'e' ∷ b'n' ∷ b'd' ∷ [], HostCallFunction.send)
    ∷ (b'r' ∷ b'e' ∷ b'c' ∷ b'v' ∷ [], HostCallFunction.recv)
    ∷ (b'y' ∷ b'i' ∷ b'e' ∷ b'l' ∷ b'd' ∷ [], HostCallFunction.yield)
    ∷ (b'a' ∷ b'r' ∷ b'b' ∷ [], HostCallFunction.arb)
    ∷ []

unfoldable pub without_argument : HostCallFunction → Outcome HostCall
without_argument HostCallFunction.start = ok (HostCall.start no_data)
without_argument HostCallFunction.wait = ok HostCall.wait
without_argument HostCallFunction.send =
    inv_arg (say "the send API call requires an ArbData argument")
without_argument HostCallFunction.recv = ok HostCall.recv
without_argument HostCallFunction.yield = ok HostCall.yield
without_argument HostCallFunction.arb =
    inv_arg (say "the arb API call requires a plugin and an ArbCmd argument")

module _ (json_to_cbor : List ℕ → List ℕ ⊎ Text) where
  unfoldable pub arb_argument : Option (String × String) → Outcome HostCall
  arb_argument none = inv_arg (say "the arb API call requires a plugin and an ArbCmd argument")
  arb_argument (some (plugin, cmd)) =
      and_then (Command.from_str json_to_cbor cmd) (λ c. ok (HostCall.arb plugin c))

  unfoldable pub with_argument : String → HostCallFunction → Outcome HostCall
  unfolding arb_argument split_at codes
  with_argument s HostCallFunction.start =
      and_then (Scan.from_str json_to_cbor (codes s)) (λ d. ok (HostCall.start d))
  with_argument s HostCallFunction.wait =
      inv_arg (say "the wait API call does not take an argument")
  with_argument s HostCallFunction.send =
      and_then (Scan.from_str json_to_cbor (codes s)) (λ d. ok (HostCall.send d))
  with_argument s HostCallFunction.recv =
      inv_arg (say "the recv API call does not take an argument")
  with_argument s HostCallFunction.yield =
      inv_arg (say "the yield API call does not take an argument")
  with_argument s HostCallFunction.arb = arb_argument (split_at b':' s)

  unfoldable pub parse_function : String → Outcome HostCallFunction
  unfolding friendly_enum_parse codes
  parse_function s = friendly_enum_parse (codes "HostCallFunction") functions (codes s)

  unfoldable pub parse_call : String → Option (String × String) → Outcome HostCall
  unfolding parse_function without_argument with_argument
  parse_call s none = and_then (parse_function s) without_argument
  parse_call s (some (function, argument)) =
      and_then (parse_function function) (with_argument argument)

  unfoldable pub from_str : String → Outcome HostCall
  unfolding parse_call split_at
  from_str s = parse_call s (split_at b':' s)

module _ (cbor_to_json : List ℕ → Outcome (List ℕ)) where
  -- `fmt`.
  unfoldable pub display : HostCall → Outcome (List ℕ)
  unfolding codes
  display (HostCall.start a) = framed (codes "start:") (Display.display cbor_to_json a)
  display HostCall.wait = ok (codes "wait")
  display (HostCall.send a) = framed (codes "send:") (Display.display cbor_to_json a)
  display HostCall.recv = ok (codes "recv")
  display HostCall.yield = ok (codes "yield")
  display (HostCall.arb p a) =
      framed (codes "arb:" ++ (codes p ++ b':' ∷ [])) (Command.display cbor_to_json a)

module _ (json_to_cbor : List ℕ → List ℕ ⊎ Text) (cbor_to_json : List ℕ → Outcome (List ℕ)) where
  -- The text of arb data that is read back.
  abbrev pub IsData : ArbData → String → Type 0
  IsData d t =
      (Display.display cbor_to_json d ≡ ok (codes t))
      × (Scan.from_str json_to_cbor (codes t) ≡ ok d)

  -- The text of a host call, where that of its data or command is read back and the name of the plugin has
  -- no colon.
  abbrev pub IsTextOf : HostCall → String → Type 0
  IsTextOf (HostCall.start d) s = (t : String) × (s ≡ join "start" ":" t) × IsData d t
  IsTextOf HostCall.wait s = s ≡ "wait"
  IsTextOf (HostCall.send d) s = (t : String) × (s ≡ join "send" ":" t) × IsData d t
  IsTextOf HostCall.recv s = s ≡ "recv"
  IsTextOf HostCall.yield s = s ≡ "yield"
  IsTextOf (HostCall.arb p cmd) s =
      (t : String) × (s ≡ join "arb" ":" (join p ":" t))
      × HasNo b':' p
      × (Command.display cbor_to_json cmd ≡ ok (codes t))
      × (Command.from_str json_to_cbor t ≡ ok cmd)

  abbrev IsReadBack : HostCall → String → Type 0
  IsReadBack call s =
      (display cbor_to_json call ≡ ok (codes s)) × (from_str json_to_cbor s ≡ ok call)

  -- A host call is printed as its text, and read back from that.
  pub from_str-display_call :
      (call : HostCall) (s : String)
      → IsTextOf call s
      → (display cbor_to_json call ≡ ok (codes s)) × (from_str json_to_cbor s ≡ ok call)
  unfolding from_str display parse_call parse_function with_argument without_argument
      friendly_enum_parse split_at codes arb_argument
  from_str-display_call (HostCall.start d) s (t, e, (printed, read)) =
      subst (IsReadBack (HostCall.start d)) (sym e) (rw (printed), rw (read))
  from_str-display_call HostCall.wait s e = subst (IsReadBack HostCall.wait) (sym e) (refl, refl)
  from_str-display_call (HostCall.send d) s (t, e, (printed, read)) =
      subst (IsReadBack (HostCall.send d)) (sym e) (rw (printed), rw (read))
  from_str-display_call HostCall.recv s e = subst (IsReadBack HostCall.recv) (sym e) (refl, refl)
  from_str-display_call HostCall.yield s e = subst (IsReadBack HostCall.yield) (sym e) (refl, refl)
  from_str-display_call (HostCall.arb p cmd) s (t, e, no_colon, printed, read) =
      subst (IsReadBack (HostCall.arb p cmd)) (sym e) (
        rw (printed) (
            ap (λ (x : List ℕ). ok (codes "arb:" ++ x))
              (append_assoc (codes p) (b':' ∷ []) (codes t) ∙ sym (codes-join p t ":"))),
        rw (split_at-join ":" p t no_colon, read),
      )
