-- ===== src/Dispatch/Durable.antt =====
-- What is in the journal and in the broker before an effect is requested.
use novamind.Prelude.{
  ℕ, String, ◌≡◌, refl, sym, ap, ◌∙◌, Bool, Option, none, some, List, [], ◌∷◌, ◌++◌, append_assoc,
  if◌then◌else◌, eq_refl, arith, true, Bool-cases, inl, inr, ◌==◌,
}
use mathlib.Core.Path.{subst}
use novamind.Prelude.Dict
use novamind.Prelude.Dict.{lookup-remove}
use novamind.Prelude.Result.{Result, ok, err, ok-injective}
use novamind.Intent.{State, new}
use novamind.Intent.State.{queued, dispatched, running}
use novamind.Lease.{Broker, Capability, ExecutionLease, issue, request_lease, validate_lease}
use novamind.Lease.Binding.{validate-request_now}
use novamind.Contracts.{Value, ExecutionIntent}
use novamind.Journal.{Write, Contract, Kernel, Line, entry, machine_of, or_new}
use novamind.Journal.Faithful.{made}
use novamind.Journal.Recovery.{no_contract}
use novamind.Dispatch.Context.{
  ExecutionState, Event, Fault, Store, Config, path_of, text_of, DispatchContext, M, transition,
  emit, bind_result, new_context,
}
use novamind.Dispatch.Context.Lane.{worker}
use novamind.Dispatch.Execute.{capability_of}
use novamind.Dispatch.Prepare.{
  contract_of, journal_rejection, journal_start, record_start, start, acquire, after_check, prepare,
  expected_digest, check, lane_of, lease_request, digest_of_content, paths_of,
}
use novamind.Dispatch.Triple.{
  Leaves, Leaves-map, Leaves-bind, Leaves-lift, InState, transition-Leaves, emit-Leaves,
}

abbrev Any : Fault → Store → Type 0
Any e w = Unit

-- The records of a start: QUEUED and RUNNING hold the contract.
abbrev pub start_records : String → Contract → List Line
start_records id p =
    entry (made id queued p)
    ∷ entry (made id dispatched no_contract)
    ∷ entry (made id running p)
    ∷ []

three :
    (ls : List Line) (a b c : Line) → ((ls ++ a ∷ []) ++ b ∷ []) ++ c ∷ [] ≡ ls ++ a ∷ b ∷ c ∷ []
three ls a b c =
    append_assoc (ls ++ a ∷ []) (b ∷ []) (c ∷ []) ∙ append_assoc ls (a ∷ []) (b ∷ c ∷ [])

-- The file and the broker so far; the machine of the intent is of its id.
abbrev SoFar : String → List Line → Broker → Store → Type 0
SoFar id ls b w =
    (w.kernel.lines ≡ ls) × (w.broker ≡ b) × ((machine_of id w.kernel.machines).intent_id ≡ id)

module _ (works : ℕ → Write) (ctx : DispatchContext) where
  abbrev id_of : String
  id_of = ctx.intent.intent_id

  -- A transition that returns adds its record.
  adds :
      {A : Type 0} (R : A → Store → Type 0) (t : State) (p : Contract) (ls : List Line) (b : Broker)
      (w : Store) (f : Unit {0} → M A)
      → SoFar id_of ls b w
      → ((v : Store)
          → SoFar id_of (ls ++ entry (made id_of t p) ∷ []) b v
          → InState id_of t v
          → Leaves R Any (f tt v))
      → Leaves R Any (bind_result (transition works id_of t p w) f)
  adds R t p ls b w f (lines, broker, same) g =
      Leaves-bind R Any (transition works id_of t p w) f
        (Leaves-map (transition works id_of t p w) (transition-Leaves works id_of t p w)
          (λ _ _ m. m) (λ _ _ _. tt))
        (λ _ v (now, written, kept, named).
          g v
            ((
              written
                  ∙ ap
                      (λ l.
                        l ++ entry (made (machine_of id_of w.kernel.machines).intent_id t p) ∷ [])
                      lines
                  ∙ ap (λ j. ls ++ entry (made j t p) ∷ []) same,
              kept ∙ broker,
              named ∙ same,
            ))
            now)

  tells :
      {A : Type 0} (R : A → Store → Type 0) (e : Event) (ls : List Line) (b : Broker) (w : Store)
      (f : Unit {0} → M A)
      → SoFar id_of ls b w
      → ((v : Store) → SoFar id_of ls b v → Leaves R Any (f tt v))
      → Leaves R Any (bind_result (emit works e w) f)
  tells R e ls b w f (lines, broker, same) g =
      Leaves-bind R Any (emit works e w) f
        (Leaves-map (emit works e w) (emit-Leaves works id_of e w) (λ _ _ m. m) (λ _ _ _. tt))
        (λ _ v (kernel, kept). g v (
          (
            ap Kernel.lines kernel ∙ lines,
            kept ∙ broker,
            ap (λ k. (machine_of id_of k.machines).intent_id) kernel ∙ same,
          )))

  abbrev Started : List Line → Broker → DispatchContext → Store → Type 0
  Started ls b x v =
      (x ≡ ctx)
      × InState id_of running v
      × (v.kernel.lines ≡ ls ++ start_records id_of (contract_of ctx))
      × (v.broker ≡ b)

  journal_start-Started :
      (ls : List Line) (b : Broker) (w : Store)
      → SoFar id_of ls b w
      → Leaves (Started ls b) Any (journal_start works ctx w)
  unfolding journal_start
  journal_start-Started ls b w h =
      let p : Contract = contract_of ctx in
      let one : List Line = ls ++ entry (made id_of queued p) ∷ [] in
      let two : List Line = one ++ entry (made id_of dispatched no_contract) ∷ [] in
      adds (Started ls b) queued p ls b w _ h (λ v g _.
        adds (Started ls b) dispatched no_contract one b v _ g (λ u k _.
          tells (Started ls b) (Event.execution id_of ExecutionState.dispatched) two b u _ k (λ x l.
            adds (Started ls b) running p two b x _ l
              (λ y (lines, broker, _) now. (refl, now, lines ∙ three ls _ _ _, broker)))))

  record_start-Started :
      (w : Store) → Leaves (Started w.kernel.lines w.broker) Any (record_start works ctx w)
  unfolding record_start new_context new
  record_start-Started w = journal_start-Started w.kernel.lines w.broker (new_context id_of w).1 (
    refl,
    refl,
    ap (λ o. (or_new id_of o).intent_id) (lookup-remove id_of id_of w.kernel.machines)
        ∙ ap
            (λ b.
              (or_new id_of (if b then none else Dict.lookup id_of w.kernel.machines)).intent_id)
            (eq_refl id_of),
  )

-- What a recovery judges the effect of the intent by: its path, and the digest `d`.
abbrev pub contract_with : ExecutionIntent → Option String → Contract
contract_with i d = record { path = text_of (Dict.lookup "path" i.payload); content_sha256 = d }

-- The digest of the content that is to be written, for an intent that writes a text.
abbrev pub intended :
    (String → Option Value → Result Fault String)
    → Bool
    → Option Value
    → Option Value
    → Result Fault (Option String)
intended sha256 true (some (Value.text t)) encoding = elim (sha256 t encoding) [
  | ok d ↦ ok (some d)
  | err e ↦ err e
]
intended sha256 _ _ encoding = ok none

-- The path, if there is one.
abbrev pub only_target : Option String → List String
only_target none = []
only_target (some p) = if p == "" then [] else p ∷ []

-- The lease is for the intent: for its id, its agent, the path of its payload, and no command or host.
pub record IsFor (i : ExecutionIntent) (l : ExecutionLease) : Type 0 where
  pub intent : l.intent_id ≡ some i.intent_id
  pub agent : l.agent_id ≡ i.agent_id
  pub paths : l.allowed_paths ≡ only_target (text_of (Dict.lookup "path" i.payload))
  pub capabilities :
      l.capabilities
      ≡ (if capability_of i == "filesystem.write" then Capability.file_write ∷ [] else [])
  pub commands : l.allowed_commands ≡ []
  pub hosts : l.allowed_hosts ≡ []

module _ (works : ℕ → Write) (c : Config) (sha256 : String → Option Value → Result Fault String)
    (now : ℕ) (lease_id : String) (i : ExecutionIntent) (w : Store) where
  -- The intent is RUNNING, its three records are in the file, and its lease is in the broker.
  pub record IsDurable (ctx : DispatchContext) (v : Store) : Type 0 where
    pub state : InState i.intent_id running v
    pub intent : ctx.intent ≡ i
    pub digest :
        intended sha256
          (i.operation == "write")
          (Dict.lookup "content" i.payload)
          (Dict.lookup "encoding" i.payload)
        ≡ ok ctx.expected_sha256
    pub lines :
        v.kernel.lines
        ≡ w.kernel.lines ++ start_records i.intent_id (contract_with i ctx.expected_sha256)
    pub named : ctx.lease_id ≡ some lease_id
    pub lease : (l : ExecutionLease) × (validate_lease now lease_id v.broker ≡ some l) × IsFor i l

  content_digest :
      (o encoding : Option Value)
      → digest_of_content works c sha256 now lease_id o encoding ≡ intended sha256 true o encoding
  content_digest none encoding = refl
  content_digest (some (Value.text t)) encoding = refl
  content_digest (some (Value.json t)) encoding = refl

  expected_digest-intended :
      expected_digest works c sha256 now lease_id i
      ≡ intended sha256
          (i.operation == "write")
          (Dict.lookup "content" i.payload)
          (Dict.lookup "encoding" i.payload)
  unfolding expected_digest
  expected_digest-intended = elim (Bool-cases (i.operation == "write")) [
    | inl b ↦
        rw b (content_digest (Dict.lookup "content" i.payload) (Dict.lookup "encoding" i.payload))
    | inr b ↦ rw b refl
  ]

  issued-IsFor : IsFor i (issue now lease_id (lease_request i))
  unfolding issue lease_request
  issued-IsFor = record {
    intent = refl;
    agent = refl;
    paths = targets (path_of i);
    capabilities = refl;
    commands = refl;
    hosts = refl;
  }
    where
      targets : (o : Option String) → paths_of o ≡ only_target o
      targets none = refl
      targets (some p) = refl

  leased : Broker
  leased = (request_lease now lease_id (lease_request i) w.broker).1

  leased-valid : validate_lease now lease_id leased ≡ some (issue now lease_id (lease_request i))
  unfolding leased lease_request
  leased-valid =
      validate-request_now now lease_id lease_id (lease_request i) w.broker (omega arith)
      ∙ ap
          (λ b.
            if b
            then some (issue now lease_id (lease_request i))
            else validate_lease now lease_id w.broker)
          (eq_refl lease_id)

  start-IsDurable :
      lane_of c i ≡ worker → Leaves IsDurable Any (start works c sha256 now lease_id i w)
  unfolding start acquire leased
  start-IsDurable lane = rw lane (
      Leaves-lift IsDurable Any (expected_digest works c sha256 now lease_id i) _
        (record w { broker = leased }) (λ _ _. tt)
        (λ d found.
          let ctx : DispatchContext = record {
            intent = i;
            capability = capability_of i;
            lane = worker;
            expected_sha256 = d;
            lease_id = some lease_id;
          } in
          Leaves-map (record_start works ctx (record w { broker = leased }))
            (record_start-Started works ctx (record w { broker = leased }))
            (λ x v (same, run, lines, broker). record {
              state = run;
              intent = ap DispatchContext.intent same;
              digest =
                  sym expected_digest-intended
                  ∙ found
                  ∙ ap (λ (y : DispatchContext). ok y.expected_sha256) (sym same);
              lines =
                  lines
                  ∙ ap
                      (λ (y : DispatchContext).
                        w.kernel.lines
                        ++ start_records i.intent_id (contract_with i y.expected_sha256))
                      (sym same);
              named = ap DispatchContext.lease_id same;
              lease = (
                issue now lease_id (lease_request i),
                ap (validate_lease now lease_id) broker ∙ leased-valid,
                issued-IsFor,
              );
            })
            (λ _ _ _. tt)))

  after_check-IsDurable :
      (r : Result Fault (Unit {0}))
      → lane_of c i ≡ worker
      → Leaves IsDurable Any (after_check works c sha256 now lease_id i r w)
  unfolding after_check journal_rejection
  after_check-IsDurable (ok _) lane = start-IsDurable lane
  after_check-IsDurable (err e) lane = tt

  -- If `prepare` returns for an intent of the worker lane, then before any frame is sent to the worker
  -- the file ends with the QUEUED, DISPATCHED and RUNNING records of the intent, the first and the last
  -- with the path of the payload and the digest of its content, where it writes a text, the machine is
  -- RUNNING, and the lease of the context is valid in the broker, for the id and the agent of this
  -- intent, its path, the capability of its kind, and no command or host.
  pub prepare-IsDurable :
      (ctx : DispatchContext)
      → lane_of c i ≡ worker
      → (prepare works c sha256 now lease_id i w).0 ≡ ok ctx
      → IsDurable ctx (prepare works c sha256 now lease_id i w).1
  unfolding prepare
  prepare-IsDurable ctx lane =
      of (after_check works c sha256 now lease_id i (check c i) w)
        (after_check-IsDurable (check c i) lane)
    where
      of :
          (r : Result Fault DispatchContext × Store)
          → Leaves IsDurable Any r
          → r.0 ≡ ok ctx
          → IsDurable ctx r.1
      of (ok x, v) h e = subst (λ y. IsDurable y v) (ok-injective e) h
      of (err x, v) h e = cc
