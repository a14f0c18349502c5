-- ===== src/Registry.antt =====
-- core/execution/capability_registry.py: the static table of the capabilities that the kernel
-- dispatches, and the read-only registry over it. The table's entries are in Registry/Table.antt.
mod Table
pub mod Consistent
mod Samples
pub use Table.{
  DeterminismClass, ReplayPolicy, RollbackPolicy, AuthorityLevel, CapabilityTrustLevel,
  CapabilityDefinition,
}
unfoldable pub use Table.{capabilities}
use novamind.Prelude.{String, Bool, false, Option, none, some, List}
use novamind.Prelude.Result.{Result, ok, err}
use novamind.Prelude.Dict

-- PermissionError, with the name that its message gives
pub data Unregistered : Type 0 where
  unregistered : String → Unregistered

unfoldable pub get : String → Option CapabilityDefinition
get name = Dict.lookup name capabilities

abbrev require_found :
    String → Option CapabilityDefinition → Result Unregistered CapabilityDefinition
require_found name none = err (unregistered name)
require_found name (some d) = ok d

unfoldable pub require : String → Result Unregistered CapabilityDefinition
require name = require_found name (Dict.lookup name capabilities)

unfoldable pub all_capabilities : List String
all_capabilities = Dict.keys capabilities

unfoldable pub requires_foreground : String → Bool
requires_foreground name = elim (get name) [ none ↦ false | some d ↦ d.requires_user_focus ]

unfoldable pub determinism_class : String → Option DeterminismClass
determinism_class name = elim (get name) [ none ↦ none | some d ↦ some d.determinism_class ]
