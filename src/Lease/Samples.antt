-- ===== src/Lease/Samples.antt =====
-- A broker at work, and the theorems at concrete inputs.
use novamind.Prelude.{ℕ, ◌+◌, ◌<◌, ◌≡◌, refl, none, some, List, [], ◌∷◌, arith}
use novamind.Prelude.Dict
use novamind.Lease.{
  Request, Broker, Op, request, revokes, sweep, file_write, is_valid, issue, step, request_lease,
  revoke_lease, validate_lease, expire_expired_leases, run, check_command,
}
use novamind.Lease.Lifetime.{Spares, refused_for_good}
use novamind.Lease.Binding.{Grants, validate-request}

abbrev write_request : Request
write_request = record {
  task_id = "t1";
  capabilities = file_write ∷ [];
  allowed_paths = "C:/out" ∷ [];
  allowed_commands = [];
  allowed_hosts = [];
  budget = none;
  duration = 60;
  intent_id = some "i1";
  principal = "user";
  agent_id = "a1";
}

abbrev issued : Broker
issued = (request_lease 100 "L1" write_request []).1

abbrev later_calls : List (ℕ × Op)
later_calls =
    (120, sweep) ∷ (130, request "L2" write_request) ∷ (140, revokes "L2") ∷ (150, sweep) ∷ []

later_calls-Spares : Spares "L1" later_calls
later_calls-Spares = (tt, (refl, (tt, (tt, tt))))

program : Unit {0}
unfolding run step request_lease validate_lease Dict.insert Dict.lookup Dict.modify Dict.map_values
    Dict.has expire_expired_leases revoke_lease is_valid issue
program = tt

held : validate_lease 159 "L1" (run later_calls issued) ≡ some (issue 100 "L1" write_request)
unfolding program
held = refl

over : validate_lease 160 "L1" issued ≡ none
unfolding program
over = refl

refused_for_good_example : validate_lease 170 "L1" (run later_calls issued) ≡ none
refused_for_good_example =
    refused_for_good 160 170 "L1" later_calls issued over later_calls-Spares (omega arith)

validate-request_example :
    Grants 100 write_request (issue 100 "L1" write_request) × (159 < 100 + 60)
validate-request_example =
    validate-request 100 159 "L1" write_request later_calls [] (issue 100 "L1" write_request)
      later_calls-Spares held

swept : (expire_expired_leases 200 issued).0 ≡ 1
unfolding program
swept = refl

-- `cmd.split()[0]` on a command of blanks: IndexError.
blank_command : check_command (λ s. []) (λ s. s) (issue 100 "L1" write_request) "  " ≡ none
unfolding check_command issue
blank_command = refl
