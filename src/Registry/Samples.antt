-- ===== src/Registry/Samples.antt =====
-- Lookups in the registry, and the theorems at concrete inputs.
use novamind.Prelude.{◌≡◌, refl, true, some}
use novamind.Prelude.Dict
use novamind.Registry.{
  CapabilityDefinition, get, require, all_capabilities, requires_foreground, capabilities,
}

program : Unit {0}
unfolding get require all_capabilities requires_foreground capabilities Dict.lookup Dict.keys
program = tt

shell : (d : CapabilityDefinition) × (get "shell.execute" ≡ some d)
unfolding program
shell = (_, refl)

hotkey_foreground : requires_foreground "ui.hotkey" ≡ true
unfolding program
hotkey_foreground = refl
