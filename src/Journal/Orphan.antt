-- ===== src/Journal/Orphan.antt =====
-- What `reconcile` does with an intent whose machine is ORPHANED.
use novamind.Prelude.{
  String, ◌≡◌, refl, sym, ap, ◌∙◌, Bool, true, false, Option, none, some, eq_iff, List, [], ◌∷◌,
  ◌++◌, ◌==◌, ◌||◌, if◌then◌else◌, Option-cases, Bool-cases, inl, inr, arith, append_assoc,
}
use novamind.Prelude.Dict
use novamind.Prelude.Result.{ok, err, ok-injective}
use novamind.Intent.{State, value, mem, legal_transitions, Machine, new}
use novamind.Intent.State.{orphaned, running, recovering, reconciled, failed}
use novamind.Journal.Faithful.{Matches, Named, moves-IsFaithful, stepped, made, transition_lem}
use novamind.Journal.Recovery.{
  RecoveryError, no_lineage, not_orphaned, reconcile, settle, judge, judge_on, last_payload,
  is_match,
}
use novamind.Journal.{
  Move, moves, no_kernel, Kernel, machine_of, Contract, Line, entry, Info, analyze_lineage,
  transition_logged, Write, stored, reconstruct,
}

write_lem :
    (m : Machine) (s : State) (p : Contract) (ls : List Line)
    → mem s (legal_transitions m.state) ≡ true
    → transition_logged m s p stored ls ≡ ok (stepped m s, ls ++ entry (made m.intent_id s p) ∷ [])
unfolding transition_logged
write_lem m s p ls e = rw (e, transition_logged) (rw (transition_lem m s e) refl)

orphaned_recovering : mem recovering (legal_transitions orphaned) ≡ true
unfolding legal_transitions
orphaned_recovering = refl

failed_reconciled : failed ≡ reconciled → ⊥
failed_reconciled e = cc

-- Each write succeeds.
abbrev pub always : State → Write
always s = stored

module _ (observe : String → Option String) where
  judge_on-legal :
      (path digest : Option String)
      → mem (judge_on observe path digest) (legal_transitions recovering) ≡ true
  unfolding legal_transitions
  judge_on-legal none digest = refl
  judge_on-legal (some path) none = refl
  judge_on-legal (some path) (some expected) = elim (Bool-cases (path == "" || expected == "")) [
    | inl missing ↦ rw missing refl
    | inr given ↦ rw given (elim (Bool-cases (is_match observe path expected)) [
      | inl same ↦ rw same refl
      | inr other ↦ rw other refl
    ])
  ]

  judge-legal : (c : Contract) → mem (judge observe c) (legal_transitions recovering) ≡ true
  judge-legal c = judge_on-legal c.path c.content_sha256

  settle_lem :
      (c : Contract) (m : Machine) (ls : List Line)
      → m.state ≡ orphaned
      → settle always observe c m ls ≡ (
        ls
            ++ entry (made m.intent_id recovering c)
              ∷ entry (made m.intent_id (judge observe c) (last_payload c))
              ∷ [],
        ok (judge observe c),
      )
  unfolding settle
  settle_lem c m ls orphan =
      let m' : Machine = stepped m recovering in
      let ls' : List Line = ls ++ entry (made m.intent_id recovering c) ∷ [] in
      rw
        (
          write_lem m recovering c ls (rw orphan (orphaned_recovering)),
          write_lem m' (judge observe c) (last_payload c) ls' (judge-legal c),
        )
        (ap (λ x. (x, ok (judge observe c))) (append_assoc ls _ _))

  -- `reconcile` of an intent that the analysis shows ORPHANED.
  reconcile_lem :
      (id : String) (ls : List Line) (i : Info) (m : Machine)
      → (analyze_lineage ls).divergences ≡ 0
      → Dict.lookup id (analyze_lineage ls).intents ≡ some i
      → i.state ≡ value orphaned
      → reconstruct (new id) i.history ≡ ok m
      → m.state ≡ orphaned
      → reconcile always observe id ls ≡ settle always observe i.payload m ls
  unfolding reconcile
  reconcile_lem id ls i m clean found last built orphan =
      rw (clean, found, built, last, orphan, reconcile) refl

  pub reconcile-orphaned :
      (l : List Move) (id : String)
      → Named l
      → (machine_of id (moves l no_kernel).machines).state ≡ orphaned
      → (i : Info) × (Dict.lookup id (analyze_lineage (moves l no_kernel).lines).intents ≡ some i)
        × (reconcile always observe id (moves l no_kernel).lines ≡ (
          (moves l no_kernel).lines
              ++ entry (made id recovering i.payload)
                ∷ entry (made id (judge observe i.payload) (last_payload i.payload))
                ∷ [],
          ok (judge observe i.payload),
        ))
  unfolding new
  reconcile-orphaned l id named orphan =
      let k : Kernel = moves l no_kernel in
      let m : Machine = machine_of id k.machines in
      let (clean, agrees) = moves-IsFaithful l named in
      let (same, match) = agrees id in
      elim (Option-cases (Dict.lookup id (analyze_lineage k.lines).intents)) [
        | inl e ↦
            let fresh : m ≡ new id = rw e at match in
            absurd (created_orphaned (sym (ap Machine.state fresh) ∙ orphan))
        | inr (i, e) ↦
            let (last, built) : Matches id m (some i) = rw e at match in
            (
              i,
              e,
              reconcile_lem id k.lines i m clean e (last ∙ ap value orphan) built orphan
                  ∙ settle_lem i.payload m k.lines orphan
                  ∙ ap
                      (λ j. (
                        k.lines
                            ++ entry (made j recovering i.payload)
                              ∷ entry (made j (judge observe i.payload) (last_payload i.payload))
                              ∷ [],
                        ok (judge observe i.payload),
                      ))
                      same,
            )
      ]
    where
      created_orphaned : (new id).state ≡ orphaned → ⊥
      created_orphaned e = cc

  picked :
      (b c : Bool)
      → (if b then failed else if c then reconciled else failed) ≡ reconciled
      → c ≡ true
  picked true c e = absurd (failed_reconciled e)
  picked false true e = refl
  picked false false e = absurd (failed_reconciled e)

  match_lem :
      (path expected : String)
      → is_match observe path expected ≡ true
      → observe path ≡ some expected
  match_lem path expected h = elim (Option-cases (observe path)) [
    | inl e ↦ absurd (false_true (rw (e, is_match) at h))
    | inr (digest, e) ↦ e ∙ ap some ((eq_iff digest expected).0 (rw (e, is_match) at h))
  ]
    where
      false_true : false ≡ true → ⊥
      false_true e = cc

  judge_on-reconciled :
      (path digest : Option String)
      → judge_on observe path digest ≡ reconciled
      → (p : String) × (path ≡ some p) × (observe p ≡ digest)
  judge_on-reconciled none digest e = absurd (failed_reconciled e)
  judge_on-reconciled (some path) none e = absurd (failed_reconciled e)
  judge_on-reconciled (some path) (some expected) e = (
    path,
    refl,
    match_lem path expected
        (picked (path == "" || expected == "") (is_match observe path expected) e),
  )

  -- `reconcile` of an intent whose machine is ORPHANED, on the file that any calls of `_transition`
  -- left, while each write succeeds, returns RECONCILED only if the first record of the intent has a
  -- path and the digest of the file that exists there. No intent's id is empty, and no
  -- write of those calls that failed left anything in the file.
  pub reconcile-reconciled :
      (l : List Move) (id : String) (ls : List Line)
      → Named l
      → (machine_of id (moves l no_kernel).machines).state ≡ orphaned
      → reconcile always observe id (moves l no_kernel).lines ≡ (ls, ok reconciled)
      → (i : Info) × (path : String) × (Dict.lookup id
            (analyze_lineage (moves l no_kernel).lines).intents
          ≡ some i)
        × (i.payload.path ≡ some path)
        × (observe path ≡ i.payload.content_sha256)
  reconcile-reconciled l id ls named orphan returned =
      let (i, found, result) = reconcile-orphaned l id named orphan in
      let said : judge observe i.payload ≡ reconciled =
        ok-injective (ap (λ r. r.1) (sym result ∙ returned)) in
      let (path, given, same) = judge_on-reconciled i.payload.path i.payload.content_sha256 said in
      (i, path, found, given, same)

  -- `reconcile` of an intent whose machine is in another state than ORPHANED and RUNNING, on the file
  -- that any calls of `_transition` left: it raises, and logs nothing. This is so of RECOVERING too:
  -- a reconciliation that was cut short after its first record is not taken up again. No intent's id
  -- is empty, and no write of those calls that failed left anything in the file.
  pub reconcile-refuses :
      (durable : State → Write) (l : List Move) (id : String) (s : State)
      → Named l
      → (machine_of id (moves l no_kernel).machines).state ≡ s
      → (value s == value orphaned || value s == value running) ≡ false
      → (x : RecoveryError) × (reconcile durable observe id (moves l no_kernel).lines
          ≡ ((moves l no_kernel).lines, err x))
  unfolding reconcile
  reconcile-refuses durable l id s named now other =
      let k : Kernel = moves l no_kernel in
      let (clean, agrees) = moves-IsFaithful l named in
      let (same, match) = agrees id in
      elim (Option-cases (Dict.lookup id (analyze_lineage k.lines).intents)) [
        | inl e ↦ (no_lineage, rw (clean, e, reconcile) refl)
        | inr (i, e) ↦
            let (last, built) : Matches id (machine_of id k.machines) (some i) = rw e at match in
            let at : i.state ≡ value s = last ∙ ap value now in
            let not_running : (value s == value running) ≡ false = ground arith in
            let not_orphan : (value s == value orphaned) ≡ false = ground arith in
            (
              not_orphaned i.state,
              rw (clean, e, built, reconcile) (rw at (rw (not_running, not_orphan) refl)),
            )
      ]
