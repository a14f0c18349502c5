-- ===== src/Registry/Table.antt =====
-- The enumerations of capability_registry.py and the entries of `_CAPABILITIES`.
use novamind.Prelude.{String, Bool, true, false, [], ◌∷◌}
use novamind.Prelude.Dict.{Dict}

pub data DeterminismClass : Type 0 where
  deterministic semi_deterministic non_deterministic : DeterminismClass

pub data ReplayPolicy : Type 0 where
  strict structural causal observational best_effort non_replayable : ReplayPolicy

pub data RollbackPolicy : Type 0 where
  compensate idempotent_retry no_rollback human_required : RollbackPolicy

pub data AuthorityLevel : Type 0 where
  kernel_only adapter legacy_bridge unsafe_runtime : AuthorityLevel

pub data CapabilityTrustLevel : Type 0 where
  high_authority observational : CapabilityTrustLevel

pub record CapabilityDefinition : Type 0 where
  pub capability_name : String
  pub determinism_class : DeterminismClass
  pub replay_policy : ReplayPolicy
  pub rollback_policy : RollbackPolicy
  pub authority_level : AuthorityLevel
  pub trust_level : CapabilityTrustLevel
  pub requires_user_focus : Bool
  pub allows_background_execution : Bool
  pub side_effect_permanent : Bool
  pub verification_mode : String

abbrev filesystem_read : CapabilityDefinition
filesystem_read = record {
  capability_name = "filesystem.read";
  determinism_class = DeterminismClass.deterministic;
  replay_policy = ReplayPolicy.strict;
  rollback_policy = RollbackPolicy.idempotent_retry;
  authority_level = AuthorityLevel.adapter;
  trust_level = CapabilityTrustLevel.high_authority;
  requires_user_focus = false;
  allows_background_execution = true;
  side_effect_permanent = false;
  verification_mode = "STRICT_STATE_VERIFICATION";
}

abbrev filesystem_write : CapabilityDefinition
filesystem_write = record {
  capability_name = "filesystem.write";
  determinism_class = DeterminismClass.deterministic;
  replay_policy = ReplayPolicy.structural;
  rollback_policy = RollbackPolicy.compensate;
  authority_level = AuthorityLevel.adapter;
  trust_level = CapabilityTrustLevel.high_authority;
  requires_user_focus = false;
  allows_background_execution = true;
  side_effect_permanent = true;
  verification_mode = "SIDE_EFFECT_VERIFICATION";
}

abbrev filesystem_delete : CapabilityDefinition
filesystem_delete = record {
  capability_name = "filesystem.delete";
  determinism_class = DeterminismClass.deterministic;
  replay_policy = ReplayPolicy.structural;
  rollback_policy = RollbackPolicy.no_rollback;
  authority_level = AuthorityLevel.adapter;
  trust_level = CapabilityTrustLevel.high_authority;
  requires_user_focus = false;
  allows_background_execution = true;
  side_effect_permanent = true;
  verification_mode = "SIDE_EFFECT_VERIFICATION";
}

abbrev filesystem_mkdir : CapabilityDefinition
filesystem_mkdir = record {
  capability_name = "filesystem.mkdir";
  determinism_class = DeterminismClass.deterministic;
  replay_policy = ReplayPolicy.structural;
  rollback_policy = RollbackPolicy.idempotent_retry;
  authority_level = AuthorityLevel.adapter;
  trust_level = CapabilityTrustLevel.high_authority;
  requires_user_focus = false;
  allows_background_execution = true;
  side_effect_permanent = false;
  verification_mode = "STRICT_STATE_VERIFICATION";
}

abbrev process_spawn : CapabilityDefinition
process_spawn = record {
  capability_name = "process.spawn";
  determinism_class = DeterminismClass.semi_deterministic;
  replay_policy = ReplayPolicy.structural;
  rollback_policy = RollbackPolicy.compensate;
  authority_level = AuthorityLevel.adapter;
  trust_level = CapabilityTrustLevel.high_authority;
  requires_user_focus = false;
  allows_background_execution = true;
  side_effect_permanent = true;
  verification_mode = "SIDE_EFFECT_VERIFICATION";
}

abbrev process_kill : CapabilityDefinition
process_kill = record {
  capability_name = "process.kill";
  determinism_class = DeterminismClass.semi_deterministic;
  replay_policy = ReplayPolicy.structural;
  rollback_policy = RollbackPolicy.no_rollback;
  authority_level = AuthorityLevel.adapter;
  trust_level = CapabilityTrustLevel.high_authority;
  requires_user_focus = false;
  allows_background_execution = true;
  side_effect_permanent = true;
  verification_mode = "SIDE_EFFECT_VERIFICATION";
}

abbrev network_http_request : CapabilityDefinition
network_http_request = record {
  capability_name = "network.http_request";
  determinism_class = DeterminismClass.semi_deterministic;
  replay_policy = ReplayPolicy.observational;
  rollback_policy = RollbackPolicy.no_rollback;
  authority_level = AuthorityLevel.adapter;
  trust_level = CapabilityTrustLevel.observational;
  requires_user_focus = false;
  allows_background_execution = true;
  side_effect_permanent = true;
  verification_mode = "OBSERVATIONAL_VERIFICATION";
}

abbrev ui_mouse_click : CapabilityDefinition
ui_mouse_click = record {
  capability_name = "ui.mouse_click";
  determinism_class = DeterminismClass.non_deterministic;
  replay_policy = ReplayPolicy.non_replayable;
  rollback_policy = RollbackPolicy.human_required;
  authority_level = AuthorityLevel.legacy_bridge;
  trust_level = CapabilityTrustLevel.observational;
  requires_user_focus = true;
  allows_background_execution = false;
  side_effect_permanent = true;
  verification_mode = "OBSERVATIONAL_VERIFICATION";
}

abbrev ui_keyboard_type : CapabilityDefinition
ui_keyboard_type = record {
  capability_name = "ui.keyboard_type";
  determinism_class = DeterminismClass.non_deterministic;
  replay_policy = ReplayPolicy.non_replayable;
  rollback_policy = RollbackPolicy.human_required;
  authority_level = AuthorityLevel.legacy_bridge;
  trust_level = CapabilityTrustLevel.observational;
  requires_user_focus = true;
  allows_background_execution = false;
  side_effect_permanent = true;
  verification_mode = "OBSERVATIONAL_VERIFICATION";
}

abbrev ui_hotkey : CapabilityDefinition
ui_hotkey = record {
  capability_name = "ui.hotkey";
  determinism_class = DeterminismClass.non_deterministic;
  replay_policy = ReplayPolicy.non_replayable;
  rollback_policy = RollbackPolicy.human_required;
  authority_level = AuthorityLevel.legacy_bridge;
  trust_level = CapabilityTrustLevel.observational;
  requires_user_focus = true;
  allows_background_execution = false;
  side_effect_permanent = true;
  verification_mode = "OBSERVATIONAL_VERIFICATION";
}

abbrev ui_screenshot : CapabilityDefinition
ui_screenshot = record {
  capability_name = "ui.screenshot";
  determinism_class = DeterminismClass.non_deterministic;
  replay_policy = ReplayPolicy.non_replayable;
  rollback_policy = RollbackPolicy.no_rollback;
  authority_level = AuthorityLevel.legacy_bridge;
  trust_level = CapabilityTrustLevel.observational;
  requires_user_focus = false;
  allows_background_execution = true;
  side_effect_permanent = false;
  verification_mode = "OBSERVATIONAL_VERIFICATION";
}

abbrev shell_execute : CapabilityDefinition
shell_execute = record {
  capability_name = "shell.execute";
  determinism_class = DeterminismClass.semi_deterministic;
  replay_policy = ReplayPolicy.observational;
  rollback_policy = RollbackPolicy.no_rollback;
  authority_level = AuthorityLevel.adapter;
  trust_level = CapabilityTrustLevel.high_authority;
  requires_user_focus = false;
  allows_background_execution = true;
  side_effect_permanent = true;
  verification_mode = "SIDE_EFFECT_VERIFICATION";
}

-- _CAPABILITIES
unfoldable pub capabilities : Dict CapabilityDefinition
capabilities =
    ("filesystem.read", filesystem_read)
    ∷ ("filesystem.write", filesystem_write)
    ∷ ("filesystem.delete", filesystem_delete)
    ∷ ("filesystem.mkdir", filesystem_mkdir)
    ∷ ("process.spawn", process_spawn)
    ∷ ("process.kill", process_kill)
    ∷ ("network.http_request", network_http_request)
    ∷ ("ui.mouse_click", ui_mouse_click)
    ∷ ("ui.keyboard_type", ui_keyboard_type)
    ∷ ("ui.hotkey", ui_hotkey)
    ∷ ("ui.screenshot", ui_screenshot)
    ∷ ("shell.execute", shell_execute)
    ∷ []
