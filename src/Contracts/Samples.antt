-- ===== src/Contracts/Samples.antt =====
-- Intents against the contracts of the repository.
use novamind.Prelude.{◌≡◌, refl, ◌↔◌, false, none, [], ◌∷◌}
use novamind.Prelude.Dict
use novamind.Prelude.Result.{ok, err}
use novamind.Contracts.Admits.{IsAdmitted, validate_intent_iff}
use novamind.Contracts.{
  Value, ExecutionIntent, IntentSchemaContract, Contracts, Refusal, validate_intent, bootstrap,
  filesystem_adapter, register_all, register, check_contract, check_payload, check_required,
  check_provided, same, govern,
}

abbrev contracts : Contracts
contracts = register_all filesystem_adapter (register_all bootstrap [])

abbrev write : ExecutionIntent
write = record {
  adapter = "filesystem";
  operation = "write";
  idempotent = false;
  payload = ("path", Value.text "/tmp/a") ∷ ("content", Value.text "hi") ∷ [];
  intent_id = "i";
  agent_id = "A";
  authority_origin = "kernel";
  principal = none;
  replay_mode = false;
}

validate_intent_iff_example :
    (validate_intent contracts write ≡ ok tt)
    ↔ ((c : IntentSchemaContract) × IsAdmitted contracts write c)
validate_intent_iff_example = validate_intent_iff contracts write

admitted : govern contracts write ≡ ok tt
unfolding govern validate_intent register_all register bootstrap filesystem_adapter check_contract
    check_payload check_required check_provided same Dict.lookup Dict.insert Dict.has Dict.keys
admitted = refl

-- The contract of the bootstrap has another name for the operation, which no worker lane has.
unsupported :
    validate_intent (register_all bootstrap []) write
    ≡ err (Refusal.unsupported "filesystem" "write")
unfolding validate_intent register_all register bootstrap Dict.lookup Dict.insert
unsupported = refl

unauthorized :
    validate_intent contracts (record write { payload = ("owner", Value.text "A") ∷ write.payload })
    ≡ err (Refusal.unauthorized_key "owner")
unfolding validate_intent register_all register bootstrap filesystem_adapter check_contract
    check_payload check_required check_provided same Dict.lookup Dict.insert Dict.has Dict.keys
unauthorized = refl
