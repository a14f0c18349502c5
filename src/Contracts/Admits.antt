-- ===== src/Contracts/Admits.antt =====
-- Which intents the contracts admit.
use novamind.Prelude.{
  String, ◌≡◌, refl, sym, ap, ◌∙◌, Bool, true, false, ◌&&◌, ◌||◌, Option, some, List, [], ◌∷◌, ◌==◌,
  contains, if◌then◌else◌, arith, eq_iff, ◌↔◌, Bool-cases, Option-cases, inl, inr,
}
use novamind.Prelude.Dict
use novamind.Prelude.Dict.{Dict, lookup-insert, contains-keys}
use novamind.Prelude.Result.{Result, ok, err, ◌>>◌}
use novamind.Contracts.{
  Value, ExecutionIntent, IntentSchemaContract, Contracts, or_empty, register, validate_intent,
  check_required, check_provided, check_contract, check_payload, same, Refusal,
}

-- The contract for an adapter and an operation, if one is registered.
unfoldable pub find : Contracts → String → String → Option IntentSchemaContract
find t a o = Dict.lookup o (or_empty (Dict.lookup a t))

-- The intent does not come from the unsafe runtime, its operation has a contract, it declares the
-- idempotency of that contract, and its payload has the required keys and no others than the
-- required and the allowed ones.
pub record IsAdmitted (t : Contracts) (i : ExecutionIntent) (c : IntentSchemaContract)
    : Type 0 where
  pub origin : (i.authority_origin == "unsafe_runtime") ≡ false
  pub found : find t i.adapter i.operation ≡ some c
  pub idempotency : i.idempotent ≡ c.idempotent
  pub required :
      (k : String) → contains c.required_payload_keys k ≡ true → Dict.has k i.payload ≡ true
  pub allowed :
      (k : String)
      → Dict.has k i.payload ≡ true
      → (contains c.allowed_payload_keys k || contains c.required_payload_keys k) ≡ true

check_required-ok :
    (ks : List String) (p : Dict Value)
    → ((k : String) → contains ks k ≡ true → Dict.has k p ≡ true)
    → check_required ks p ≡ ok tt
unfolding check_required
check_required-ok [] p h = refl
check_required-ok (k ∷ ks) p h =
    let here : Dict.has k p ≡ true = h k (ground (arith, eq_iff k k)) in
    rw here (check_required-ok ks p (λ j e. h j (ground (arith, e))))

required_of :
    (ks : List String) (p : Dict Value)
    → check_required ks p ≡ ok tt
    → (k : String) → contains ks k ≡ true
    → Dict.has k p ≡ true
unfolding check_required
required_of [] p h k e = cc
required_of (j ∷ ks) p h k e = elim (Bool-cases (Dict.has j p)) [
  | inl f ↦ ground (arith, eq_iff j k, required_of ks p (rw f at h) k)
  | inr f ↦ cc (rw f at h)
]

module _ (c : IntentSchemaContract) where
  abbrev admits : String → Bool
  admits k = contains c.allowed_payload_keys k || contains c.required_payload_keys k

  check_provided-ok :
      (ks : List String)
      → ((k : String) → contains ks k ≡ true → admits k ≡ true)
      → check_provided c ks ≡ ok tt
  unfolding check_provided
  check_provided-ok [] h = refl
  check_provided-ok (k ∷ ks) h =
      let here : admits k ≡ true = h k (ground (arith, eq_iff k k)) in
      let rest : check_provided c ks ≡ ok tt =
        check_provided-ok ks (λ j e. h j (ground (arith, e))) in
      ground arith

  provided_of :
      (ks : List String)
      → check_provided c ks ≡ ok tt
      → (k : String) → contains ks k ≡ true
      → admits k ≡ true
  unfolding check_provided
  provided_of [] h k e = cc
  provided_of (j ∷ ks) h k e =
      let rest : check_provided c ks ≡ ok tt → contains ks k ≡ true → admits k ≡ true =
        λ f. provided_of ks f k in
      ground (arith, eq_iff j k, rest)

same_iff : (a b : Bool) → (same a b ≡ true) ↔ (a ≡ b)
unfolding same
same_iff true true = (λ _. refl, λ _. refl)
same_iff false false = (λ _. refl, λ _. refl)
same_iff true false = (λ e. cc, λ e. cc)
same_iff false true = (λ e. cc, λ e. cc)

>>-ok : (a b : Result Refusal (Unit {0})) → (a >> b) ≡ ok tt → (a ≡ ok tt) × (b ≡ ok tt)
>>-ok (ok tt) b h = (refl, h)
>>-ok (err e) b h = cc

module _ (t : Contracts) (i : ExecutionIntent) where
  accept : (c : IntentSchemaContract) → IsAdmitted t i c → validate_intent t i ≡ ok tt
  unfolding validate_intent find check_contract check_payload Dict.lookup
  accept c h = elim (Option-cases (Dict.lookup i.adapter t)) [
    | inl e ↦ cc (rw e at h.found)
    | inr (d, e) ↦
        let found : Dict.lookup i.operation d ≡ some c = rw e at h.found in
        rw (h.origin, e)
          (rw found (
            rw ((same_iff i.idempotent c.idempotent).1 h.idempotency) (
              rw (check_required-ok c.required_payload_keys i.payload h.required) (
                check_provided-ok c (Dict.keys i.payload)
                  (λ k e. h.allowed k (sym (contains-keys k i.payload) ∙ e))))))
  ]

  accepted : validate_intent t i ≡ ok tt → (c : IntentSchemaContract) × IsAdmitted t i c
  unfolding validate_intent find check_contract check_payload
  accepted h = elim (Bool-cases (i.authority_origin == "unsafe_runtime")) [
    | inl e ↦ cc (rw e at h)
    | inr origin ↦ elim (Option-cases (Dict.lookup i.adapter t)) [
      | inl e ↦ cc (rw (origin, e) at h)
      | inr (d, e) ↦ elim (Option-cases (Dict.lookup i.operation d)) [
        | inl f ↦ cc (rw f at (rw (origin, e) at h))
        | inr (c, f) ↦ elim (Bool-cases (same i.idempotent c.idempotent)) [
          | inr g ↦ cc (rw g at (rw f at (rw (origin, e) at h)))
          | inl g ↦
              let (req, prov) =
                >>-ok (check_required c.required_payload_keys i.payload)
                  (check_provided c (Dict.keys i.payload))
                  (rw g at (rw f at (rw (origin, e) at h))) in
              (
                c,
                record {
                  origin = origin;
                  found = rw e f;
                  idempotency = (same_iff i.idempotent c.idempotent).0 g;
                  required = required_of c.required_payload_keys i.payload req;
                  allowed = λ k e.
                      provided_of c (Dict.keys i.payload) prov k (contains-keys k i.payload ∙ e);
                },
              )
        ]
      ]
    ]
  ]

-- An intent passes `validate_intent` in exactly the case that the registry has a contract that
-- admits it: the intent does not come from the unsafe runtime, its adapter and operation are
-- registered, it declares the contract's idempotency, its payload has every required key, and each
-- key of its payload is a required or an allowed one.
pub validate_intent_iff :
    (t : Contracts) (i : ExecutionIntent)
    → (validate_intent t i ≡ ok tt) ↔ ((c : IntentSchemaContract) × IsAdmitted t i c)
validate_intent_iff t i = (accepted t i, λ (c, h). accept t i c h)

-- A registration replaces the contract of its own adapter and operation and no other.
find-register :
    (c : IntentSchemaContract) (t : Contracts) (a o : String)
    → find (register c t) a o
      ≡ (if c.adapter_name == a && c.operation == o then some c else find t a o)
unfolding find register
find-register c t a o =
    let made : Dict IntentSchemaContract =
      Dict.insert c.operation c (or_empty (Dict.lookup c.adapter_name t)) in
    ap (λ x. Dict.lookup o (or_empty x)) (lookup-insert c.adapter_name a made t)
    ∙ (elim (Bool-cases (c.adapter_name == a)) [
      | inr e ↦ rw (e, find) refl
      | inl e ↦
          rw (e, find)
            (lookup-insert c.operation o c (or_empty (Dict.lookup c.adapter_name t))
              ∙ ap
                  (λ x.
                    if c.operation == o then some c else Dict.lookup o (or_empty (Dict.lookup x t)))
                  ((eq_iff c.adapter_name a).0 e))
    ])
