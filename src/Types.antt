-- ===== src/Types.antt =====
-- `rust/src/core/common/types`: the values that the plugins and the simulator exchange.
pub mod Sequence
pub mod Cycle
pub mod Qubit
pub mod Measurement
pub mod Arb
pub mod Cbor
pub mod Matrix
pub mod Gate
pub mod Log
use mathlib.Core.Path.{◌≡◌}
use mathlib.Core.Bool.{Bool, true, false}

-- `plugin_type.rs`.
pub data PluginType : Type 0 where
  frontend operator backend : PluginType

-- The derived `==`.
unfoldable pub same_type : PluginType → PluginType → Bool
same_type frontend frontend = true
same_type operator operator = true
same_type backend backend = true
same_type _ _ = false

-- `plugin_metadata.rs`: name, author and version.
pub record PluginMetadata : Type 0 where
  pub name : Prim.Native.String.String
  pub author : Prim.Native.String.String
  pub version : Prim.Native.String.String
