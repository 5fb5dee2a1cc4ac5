-- ===== src/Tests/Commands.antt =====
-- The properties of `rust/src/core/common/types/arb_cmd.rs` and
-- `rust/src/core/host/reproduction/host_call.rs` at concrete inputs.
use dqcsim_rs.Common.{ℕ, ◌≡◌, refl, List, [], ◌∷◌, ok, Outcome, Text, ◌⊎◌, inl}
use dqcsim_rs.Types.Arb.{ArbCmd, no_data, verify_id}
use dqcsim_rs.Types.Arb.Command.{codes, from_str-display_cmd}
use dqcsim_rs.Types.Arb.Command
use dqcsim_rs.Types.Arb.Scan
use dqcsim_rs.Types.Arb.Display
use dqcsim_rs.Types.Cbor.{
  canonizalize, canonicalize_int, read_tag, slice_from, write_value, write_tag, tag_bytes, shortest,
  sort, flatten,
}
use dqcsim_rs.Host.Simulation.{HostCall}
use dqcsim_rs.Host.Reproduction.Calls.{from_str, display, from_str-display_call}

-- A crate that knows the empty object only.
abbrev empty_to_cbor : List ℕ → List ℕ ⊎ Text
empty_to_cbor json = inl (0xA0 ∷ [])

abbrev empty_to_json : List ℕ → Outcome (List ℕ)
empty_to_json cbor = ok (b'{' ∷ b'}' ∷ [])

abbrev command : ArbCmd
command = record { interface_identifier = "a"; operation_identifier = "b"; payload = no_data }

data_printed : Display.display empty_to_json no_data ≡ ok (codes "{}")
unfolding Display.display codes Display.print_args
data_printed = refl

data_read : Scan.from_str empty_to_cbor (codes "{}") ≡ ok no_data
unfolding Scan.from_str codes canonizalize canonicalize_int read_tag slice_from write_value
    write_tag tag_bytes shortest sort flatten
data_read = refl

valid_a : verify_id "a" ≡ ok "a"
unfolding verify_id
valid_a = refl

valid_b : verify_id "b" ≡ ok "b"
unfolding verify_id
valid_b = refl

from_str-display_cmd_example :
    (Command.display empty_to_json command ≡ ok (codes "a.b:{}"))
    × (Command.from_str empty_to_cbor "a.b:{}" ≡ ok command)
from_str-display_cmd_example =
    from_str-display_cmd empty_to_cbor empty_to_json command "{}" valid_a valid_b data_printed
      data_read

command_printed : Command.display empty_to_json command ≡ ok (codes "a.b:{}")
unfolding Command.display codes Display.display Display.print_args
command_printed = refl

command_read : Command.from_str empty_to_cbor "a.b:{}" ≡ ok command
unfolding Command.from_str Scan.from_str codes canonizalize canonicalize_int read_tag slice_from
    write_value write_tag tag_bytes shortest sort flatten verify_id
command_read = refl

-- The function name may be abbreviated.
from_str_run : from_str empty_to_cbor "w" ≡ ok HostCall.wait
unfolding from_str
from_str_run = refl

from_str-display_call_example :
    (display empty_to_json (HostCall.arb "dev" command) ≡ ok (codes "arb:dev:a.b:{}"))
    × (from_str empty_to_cbor "arb:dev:a.b:{}" ≡ ok (HostCall.arb "dev" command))
from_str-display_call_example =
    from_str-display_call empty_to_cbor empty_to_json (HostCall.arb "dev" command) "arb:dev:a.b:{}"
      ("a.b:{}", refl, (refl, (refl, (refl, tt))), command_printed, command_read)
