-- ===== src/Lease.antt =====
-- core/runtime/capability_broker.py: time-bound capability leases and the broker that issues them.
-- `time.monotonic()` is an argument, in ticks of the clock; `uuid.uuid4()` is the argument
-- `lease_id` of a request. A lease is shared between the broker's dict and the caller, so an
-- assignment to its field is a change of the entry in the dict.
pub mod Lifetime
pub mod Binding
mod Samples
use text.Mathlib.Text.{starts_with}
use novamind.Prelude.{
  ℕ, suc, ◌+◌, String, Bool, true, false, not, ◌&&◌, ◌||◌, Option, none, some, List, [], ◌∷◌, ltb,
  ◌==◌, any, contains, if◌then◌else◌,
}
use novamind.Prelude.Dict
use novamind.Prelude.Dict.{Dict}

pub data Capability : Type 0 where
  process_spawn process_signal file_read file_write file_delete file_move : Capability
  directory_list network_connect network_bind powershell_execute : Capability
  gui_input registry_write : Capability

abbrev pub cap_value : Capability → String
cap_value process_spawn = "PROCESS_SPAWN"
cap_value process_signal = "PROCESS_SIGNAL"
cap_value file_read = "FILE_READ"
cap_value file_write = "FILE_WRITE"
cap_value file_delete = "FILE_DELETE"
cap_value file_move = "FILE_MOVE"
cap_value directory_list = "DIRECTORY_LIST"
cap_value network_connect = "NETWORK_CONNECT"
cap_value network_bind = "NETWORK_BIND"
cap_value powershell_execute = "POWERSHELL_EXECUTE"
cap_value gui_input = "GUI_INPUT"
cap_value registry_write = "REGISTRY_WRITE"

-- The limits are whole numbers of their units.
pub record ResourceBudget : Type 0 where
  pub max_cpu_seconds : ℕ
  pub max_memory_mb : ℕ
  pub max_subprocesses : ℕ
  pub max_threads : ℕ
  pub max_duration_seconds : ℕ
  pub max_file_descriptors : ℕ

abbrev pub default_budget : ResourceBudget
default_budget = record {
  max_cpu_seconds = 30;
  max_memory_mb = 512;
  max_subprocesses = 5;
  max_threads = 10;
  max_duration_seconds = 60;
  max_file_descriptors = 20;
}

pub record ExecutionLease : Type 0 where
  pub lease_id : String
  pub task_id : String
  pub capabilities : List Capability
  pub allowed_paths : List String
  pub allowed_commands : List String
  pub allowed_hosts : List String
  pub resource_budget : ResourceBudget
  pub expiration : ℕ
  pub revoked : Bool
  pub intent_id : Option String
  pub principal : String
  pub agent_id : String
  pub lifecycle_state : String
  pub created_at : ℕ
  pub released_at : Option ℕ

unfoldable pub is_valid : ℕ → ExecutionLease → Bool
is_valid now l = not l.revoked && (l.lifecycle_state == "ACTIVE" && ltb now l.expiration)

unfoldable pub check_capability : ExecutionLease → Capability → Bool
check_capability l c = any (λ d. cap_value d == cap_value c) l.capabilities

-- `os.path.normpath`, `str.split` and `str.lower` are Python's.
module _ (normpath : String → String) where
  unfoldable pub check_path : ExecutionLease → String → Bool
  check_path l path =
      if contains l.allowed_paths "*"
      then true
      else any (λ p. starts_with (normpath path) (normpath p)) l.allowed_paths

module _ (split : String → List String) (lower : String → String) where
  -- `cmd.split()[0]`, which raises IndexError on an empty list
  abbrev first_word : List String → Option String
  first_word [] = none
  first_word (w ∷ _) = some (lower w)

  unfoldable pub check_command : ExecutionLease → String → Option Bool
  check_command l cmd =
      if contains l.allowed_commands "*"
      then some true
      else elim (if cmd == "" then some "" else first_word (split cmd)) [
        | none ↦ none
        | some base ↦ some (any (λ a. base == lower a) l.allowed_commands)
      ]

unfoldable pub check_intent_id : ExecutionLease → String → Bool
check_intent_id l id = elim l.intent_id [ none ↦ false | some i ↦ i == id ]

unfoldable pub check_principal : ExecutionLease → String → Bool
check_principal l p = l.principal == p

unfoldable pub check_agent : ExecutionLease → String → Bool
check_agent l a = l.agent_id == a

unfoldable pub is_terminal : ExecutionLease → Bool
is_terminal l = contains ("COMPLETED" ∷ "FAILED" ∷ "CANCELLED" ∷ "ORPHANED" ∷ []) l.lifecycle_state

unfoldable pub terminalize : ℕ → String → ExecutionLease → ExecutionLease
terminalize now final_state l = record l { lifecycle_state = final_state; released_at = some now }

-- The arguments of `request_lease`; a list that is left out or None is [].
pub record Request : Type 0 where
  pub task_id : String
  pub capabilities : List Capability
  pub allowed_paths : List String
  pub allowed_commands : List String
  pub allowed_hosts : List String
  pub budget : Option ResourceBudget
  pub duration : ℕ
  pub intent_id : Option String
  pub principal : String
  pub agent_id : String

abbrev pub or_default : Option ResourceBudget → ResourceBudget
or_default none = default_budget
or_default (some b) = b

abbrev pub Broker : Type 0
Broker = Dict ExecutionLease

unfoldable pub issue : ℕ → String → Request → ExecutionLease
issue now id r = record {
  lease_id = id;
  task_id = r.task_id;
  capabilities = r.capabilities;
  allowed_paths = r.allowed_paths;
  allowed_commands = r.allowed_commands;
  allowed_hosts = r.allowed_hosts;
  resource_budget = or_default r.budget;
  expiration = now + r.duration;
  revoked = false;
  intent_id = r.intent_id;
  principal = r.principal;
  agent_id = r.agent_id;
  lifecycle_state = "ACTIVE";
  created_at = now;
  released_at = none;
}

unfoldable pub request_lease : ℕ → String → Request → Broker → ExecutionLease × Broker
unfolding issue
request_lease now id r b = (issue now id r, Dict.insert id (issue now id r) b)

abbrev pub revoke : ExecutionLease → ExecutionLease
revoke l = record l { revoked = true; lifecycle_state = "REVOKED" }

unfoldable pub revoke_lease : String → Broker → Bool × Broker
revoke_lease id b = if Dict.has id b then (true, Dict.modify id revoke b) else (false, b)

abbrev pub when_valid : ℕ → Option ExecutionLease → Option ExecutionLease
when_valid now none = none
when_valid now (some l) = if is_valid now l then some l else none

unfoldable pub validate_lease : ℕ → String → Broker → Option ExecutionLease
unfolding is_valid
validate_lease now id b = when_valid now (Dict.lookup id b)

unfoldable pub terminalize_lease : ℕ → String → String → Broker → Bool × Broker
terminalize_lease now id final_state b =
    if Dict.has id b then (true, Dict.modify id (terminalize now final_state) b) else (false, b)

unfoldable pub get_lease : String → Broker → Option ExecutionLease
get_lease id b = Dict.lookup id b

unfoldable pub lease_ids_for_intent : String → Broker → List String
lease_ids_for_intent intent [] = []
lease_ids_for_intent intent ((lid, l) ∷ b) =
    let rest = lease_ids_for_intent intent b in
    if check_intent_id l intent then lid ∷ rest else rest

-- The test of the sweep.
abbrev pub due : ℕ → ExecutionLease → Bool
due now l = ltb l.expiration now && l.lifecycle_state == "ACTIVE"

abbrev pub expire : ℕ → ExecutionLease → ExecutionLease
expire now l = if due now l then record l { lifecycle_state = "EXPIRED" } else l

abbrev pub count_due : ℕ → Broker → ℕ
count_due now [] = 0
count_due now ((lid, l) ∷ b) = let n = count_due now b in if due now l then suc n else n

unfoldable pub expire_expired_leases : ℕ → Broker → ℕ × Broker
expire_expired_leases now b = (count_due now b, Dict.map_values (expire now) b)

-- The calls that change the broker, each with the clock's reading.
pub data Op : Type 0 where
  request : String → Request → Op
  revokes : String → Op
  terminalizes : String → String → Op
  sweep : Op

unfoldable pub step : ℕ → Op → Broker → Broker
unfolding request_lease revoke_lease terminalize_lease expire_expired_leases
step now (request id r) b = (request_lease now id r b).1
step now (revokes id) b = (revoke_lease id b).1
step now (terminalizes id final_state) b = (terminalize_lease now id final_state b).1
step now sweep b = (expire_expired_leases now b).1

unfoldable pub run : List (ℕ × Op) → Broker → Broker
run [] b = b
run ((now, op) ∷ ops) b = run ops (step now op b)
