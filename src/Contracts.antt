-- ===== src/Contracts.antt =====
-- core/contracts/intent_contracts.py and core/execution/intent_governance.py: the registry of the
-- contracts that intents are checked against, and the check, with the intent of
-- core/execution/execution_intent.py. Of an intent, the fields that the registry and the dispatcher
-- read are kept, and the two attributes that they ask for by `getattr`.
pub mod Admits
mod Samples
use novamind.Prelude.{
  String, Bool, true, false, not, ◌&&◌, ◌||◌, Option, none, some, List, [], ◌∷◌, ◌==◌, contains,
  if◌then◌else◌,
}
use novamind.Prelude.Dict
use novamind.Prelude.Dict.{Dict}
use novamind.Prelude.Result.{Result, ok, err, ◌>>=◌, ◌>>◌}

-- A value of a payload: a text, or another value by its JSON text.
pub data Value : Type 0 where
  text json : String → Value

pub record ExecutionIntent : Type 0 where
  pub adapter : String
  pub operation : String
  pub idempotent : Bool
  pub payload : Dict Value
  pub intent_id : String
  pub agent_id : String
  pub authority_origin : String
  pub principal : Option String
  pub replay_mode : Bool

pub record IntentSchemaContract : Type 0 where
  pub adapter_name : String
  pub operation : String
  pub required_payload_keys : List String
  pub allowed_payload_keys : List String
  pub idempotent : Bool
  pub determinism_class : String
  pub authority_origin : String

abbrev pub Contracts : Type 0
Contracts = Dict (Dict IntentSchemaContract)

abbrev pub or_empty : Option (Dict IntentSchemaContract) → Dict IntentSchemaContract
or_empty none = []
or_empty (some d) = d

-- `register`, with the contract that it makes of its arguments
unfoldable pub register : IntentSchemaContract → Contracts → Contracts
register c t =
    Dict.insert c.adapter_name (Dict.insert c.operation c (or_empty (Dict.lookup c.adapter_name t)))
      t

-- The messages of the ValueErrors, and the NotImplementedError of the governance layer.
pub data Refusal : Type 0 where
  unsafe_runtime : Refusal
  unknown_adapter : String → Refusal
  unsupported : String → String → Refusal
  idempotency : Bool → Refusal
  missing_key unauthorized_key : String → Refusal
  replay_unsupported : Refusal

unfoldable pub check_required : List String → Dict Value → Result Refusal (Unit {0})
check_required [] p = ok tt
check_required (k ∷ ks) p =
    let rest = check_required ks p in if Dict.has k p then rest else err (missing_key k)

unfoldable pub check_provided : IntentSchemaContract → List String → Result Refusal (Unit {0})
check_provided c [] = ok tt
check_provided c (k ∷ ks) =
    let rest = check_provided c ks in
    if not (contains c.allowed_payload_keys k) && not (contains c.required_payload_keys k)
    then err (unauthorized_key k)
    else rest

unfoldable pub same : Bool → Bool → Bool
same true b = b
same false b = not b

unfoldable pub check_payload : ExecutionIntent → IntentSchemaContract → Result Refusal (Unit {0})
unfolding check_required check_provided
check_payload i c = do
  check_required c.required_payload_keys i.payload
  check_provided c (Dict.keys i.payload)

unfoldable pub check_contract : ExecutionIntent → IntentSchemaContract → Result Refusal (Unit {0})
unfolding same
check_contract i c =
    if same i.idempotent c.idempotent then check_payload i c else err (idempotency i.idempotent)

abbrev pub check_operation :
    ExecutionIntent → Option IntentSchemaContract → Result Refusal (Unit {0})
check_operation i none = err (unsupported i.adapter i.operation)
check_operation i (some c) = check_contract i c

abbrev pub check_adapter :
    ExecutionIntent → Option (Dict IntentSchemaContract) → Result Refusal (Unit {0})
check_adapter i none = err (unknown_adapter i.adapter)
check_adapter i (some d) = check_operation i (Dict.lookup i.operation d)

unfoldable pub validate_intent : Contracts → ExecutionIntent → Result Refusal (Unit {0})
validate_intent t i =
    if i.authority_origin == "unsafe_runtime"
    then err unsafe_runtime
    else check_adapter i (Dict.lookup i.adapter t)

-- IntentGovernanceLayer.validate_intent
unfoldable pub govern : Contracts → ExecutionIntent → Result Refusal (Unit {0})
govern t i = validate_intent t i >>= λ _. if i.replay_mode then err replay_unsupported else ok tt

abbrev contract :
    String → String → List String → List String → Bool → String → String → IntentSchemaContract
contract a o required allowed idem det origin = record {
  adapter_name = a;
  operation = o;
  required_payload_keys = required;
  allowed_payload_keys = allowed;
  idempotent = idem;
  determinism_class = det;
  authority_origin = origin;
}

-- The registrations of the module, in order.
unfoldable pub bootstrap : List IntentSchemaContract
bootstrap =
    contract "process" "spawn" ("cmd" ∷ []) ("cwd" ∷ "env" ∷ "timeout" ∷ []) false
      "SEMI_DETERMINISTIC" "kernel"
    ∷ contract "process" "kill" ("pid" ∷ []) ("force" ∷ []) true "SEMI_DETERMINISTIC" "kernel"
    ∷ contract "filesystem" "read_file" ("path" ∷ []) ("encoding" ∷ []) true "DETERMINISTIC"
        "kernel"
    ∷ contract "filesystem" "write_file" ("path" ∷ "content" ∷ []) ("encoding" ∷ "append" ∷ [])
        false "DETERMINISTIC" "kernel"
    ∷ contract "filesystem" "mkdir" ("path" ∷ []) ("parents" ∷ "exist_ok" ∷ []) true "DETERMINISTIC"
        "kernel"
    ∷ contract "registry" "get_key" ("path" ∷ "key" ∷ []) [] true "DETERMINISTIC" "kernel"
    ∷ contract "registry" "set_key" ("path" ∷ "key" ∷ "value" ∷ "type" ∷ []) [] false
        "DETERMINISTIC" "kernel"
    ∷ contract "network" "http_get" ("url" ∷ []) ("headers" ∷ "timeout" ∷ []) true
        "SEMI_DETERMINISTIC" "kernel"
    ∷ contract "network" "http_post" ("url" ∷ "body" ∷ []) ("headers" ∷ "timeout" ∷ []) false
        "SEMI_DETERMINISTIC" "kernel"
    ∷ contract "legacy_ui" "click" ("x" ∷ "y" ∷ []) ("button" ∷ "clicks" ∷ []) false
        "NON_DETERMINISTIC" "legacy_bridge"
    ∷ contract "legacy_ui" "type" ("text" ∷ []) ("interval" ∷ []) false "NON_DETERMINISTIC"
        "legacy_bridge"
    ∷ []

-- The registrations of core/adapters/filesystem_adapter.py, with the default arguments.
unfoldable pub filesystem_adapter : List IntentSchemaContract
filesystem_adapter =
    contract "filesystem" "read" ("path" ∷ []) ("encoding" ∷ []) true "SEMI_DETERMINISTIC" "kernel"
    ∷ contract "filesystem" "write" ("path" ∷ "content" ∷ []) ("encoding" ∷ "mode" ∷ []) false
        "SEMI_DETERMINISTIC" "kernel"
    ∷ contract "filesystem" "delete" ("path" ∷ []) ("recursive" ∷ []) true "SEMI_DETERMINISTIC"
        "kernel"
    ∷ contract "filesystem" "mkdir" ("path" ∷ []) ("parents" ∷ "exist_ok" ∷ []) true
        "SEMI_DETERMINISTIC" "kernel"
    ∷ []

unfoldable pub register_all : List IntentSchemaContract → Contracts → Contracts
register_all [] t = t
register_all (c ∷ cs) t = register_all cs (register c t)
