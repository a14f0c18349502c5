-- ===== src/Guard/Origin.antt =====
-- security/command_guard.py: what makes a guard allow a command of high risk.
use novamind.Prelude.{
  String, ◌≡◌, refl, Bool, true, false, Option, none, some, List, [], ◌∷◌, ◌++◌, Bool-cases, arith,
  any, any-append, leb, ◌⊎◌, inl, inr, ◌==◌, eq_refl,
}
use novamind.Prelude.Dict.{Dict, lookup, remove, lookup-remove}
use novamind.Prelude.Texts.{is_in}
use novamind.Guard.Rules.{Risk, value, is_blacklisted, modifies_protected_path, any_in}
use novamind.Guard.Session.{
  Call, action_checked, command_checked, requested, confirmed_by, allowed, blocked, step, run, Asks,
  request-Asks, check_string-Asks,
}
use novamind.Guard.{
  Python, Entry, CommandGuard, Now, is_confirmed, check_risk, check_string, check_action,
  check_command, confirm_found, confirm_action, add_to_allowlist, add_to_blocklist, new_guard,
  assess_risk, build_command_string,
}

-- The call is a check of the text or a request for it.
abbrev pub asks : String → Call → Bool
asks d (action_checked now agent action ps) = build_command_string agent action ps == d
asks d (command_checked now command) = command == d
asks d (requested now e r) = e == d
asks d (confirmed_by id b) = false
asks d (allowed p) = false
asks d (blocked p) = false

-- What a session granted: a pattern that was added, in lower case, or the text of a request that was
-- approved, which had been asked for before.
pub data Granted (py : Python) (strict : Bool) : List Call → String → Type 0 where
  by_pattern : (p : String) (past : List Call) → Granted py strict (allowed p ∷ past) (py.lower p)
  by_approval :
      (id : String) (past : List Call) (e : Entry)
      → lookup id (run py strict past).pending_confirmations ≡ some e
      → any (asks e.description) past ≡ true
      → Granted py strict (confirmed_by id true ∷ past) e.description
  before :
      (c : Call) (past : List Call) (p : String)
      → Granted py strict past p
      → Granted py strict (c ∷ past) p

asks_head :
    (c : Call) (past : List Call) (command d : String)
    → asks command c ≡ true
    → d ≡ command
    → any (asks d) (c ∷ past) ≡ true
asks_head c past command d self same = rw same rw self refl

lookup_of_remove :
    (i k : String) (e : Entry) (d : Dict Entry)
    → lookup k (remove i d) ≡ some e
    → lookup k d ≡ some e
lookup_of_remove i k e d h = ground (arith, lookup-remove i k d)

snoc-cases :
    (c p : String) (l : List String)
    → any_in (l ++ p ∷ []) c ≡ true
    → (any_in l c ≡ true) ⊎ (is_in p c ≡ true)
snoc-cases c p l h = elim (Bool-cases (any_in l c)) [
  | inl old ↦ inl old
  | inr new ↦ inr (ground (arith, any-append (λ q. is_in q c) l (p ∷ [])))
]

module _ (py : Python) (strict : Bool) where
  abbrev AreAsked : List Call → CommandGuard → Type 0
  AreAsked past g =
      (k : String) (e : Entry)
      → lookup k g.pending_confirmations ≡ some e
      → any (asks e.description) past ≡ true

  Asks-AreAsked :
      (c : Call) (past : List Call) (command : String) (g h : CommandGuard)
      → asks command c ≡ true
      → Asks command g h
      → AreAsked past g
      → AreAsked (c ∷ past) h
  Asks-AreAsked c past command g h self a old k e found = elim (a.pending k e found) [
    | inl was ↦ ground (arith, old k e was)
    | inr same ↦ asks_head c past command e.description self same
  ]

  confirm_found-AreAsked :
      (id : String) (b : Bool) (o : Option Entry) (past : List Call) (g : CommandGuard)
      → AreAsked past g
      → AreAsked past (confirm_found id b o g).1
  unfolding confirm_found
  confirm_found-AreAsked id b none past g old k e found = old k e found
  confirm_found-AreAsked id b (some f) past g old k e found =
      old k e (lookup_of_remove id k e g.pending_confirmations found)

  nothing : AreAsked [] (new_guard strict)
  unfolding lookup
  nothing k e h = ground arith

  run-AreAsked : (past : List Call) → AreAsked past (run py strict past)
  unfolding run step check_action check_command confirm_action add_to_allowlist add_to_blocklist
  run-AreAsked [] = λ k e h. nothing k e h
  run-AreAsked (action_checked now agent action ps ∷ past) =
      Asks-AreAsked (action_checked now agent action ps) past (build_command_string agent action ps)
        _ _ (eq_refl _) (check_string-Asks py now _ _ _) (run-AreAsked past)
  run-AreAsked (command_checked now command ∷ past) =
      Asks-AreAsked (command_checked now command) past command _ _ (eq_refl command)
        (check_string-Asks py now command _ _) (run-AreAsked past)
  run-AreAsked (requested now d r ∷ past) =
      Asks-AreAsked (requested now d r) past d _ _ (eq_refl d) (request-Asks now d r _)
        (run-AreAsked past)
  run-AreAsked (confirmed_by id b ∷ past) = confirm_found-AreAsked id b _ past _ (run-AreAsked past)
  run-AreAsked (allowed p ∷ past) = run-AreAsked past
  run-AreAsked (blocked p ∷ past) = run-AreAsked past

  -- A grant that is in the command.
  abbrev pub Grant : List Call → String → Type 0
  Grant past command = (p : String) × (is_in p command ≡ true) × Granted py strict past p

  Grant-before :
      (c : Call) (past : List Call) (command : String)
      → Grant past command
      → Grant (c ∷ past) command
  Grant-before c past command (p, inside, h) = (p, inside, before c past p h)

  approved-Grant :
      (id : String) (b : Bool) (o : Option Entry) (past : List Call) (command : String)
      → lookup id (run py strict past).pending_confirmations ≡ o
      → (is_confirmed command (run py strict past) ≡ true → Grant past command)
      → is_confirmed command (confirm_found id b o (run py strict past)).1 ≡ true
      → Grant (confirmed_by id b ∷ past) command
  unfolding confirm_found
  approved-Grant id b none past command found old h =
      Grant-before (confirmed_by id b) past command (old h)
  approved-Grant id false (some e) past command found old h =
      Grant-before (confirmed_by id false) past command (old h)
  approved-Grant id true (some e) past command found old h =
      elim (snoc-cases command e.description (run py strict past).session_allowlist h) [
        | inl was ↦ Grant-before (confirmed_by id true) past command (old was)
        | inr new ↦ (e.description, new, by_approval id past e found (run-AreAsked past id e found))
      ]

  run-Grant :
      (past : List Call) (command : String)
      → is_confirmed command (run py strict past) ≡ true
      → Grant past command
  unfolding run step check_action check_command confirm_action add_to_allowlist add_to_blocklist
  run-Grant [] command h = ground arith
  run-Grant (action_checked now agent action ps ∷ past) command h =
      Grant-before _ past command
        (run-Grant past command ((check_string-Asks py now _ _ _).back command h))
  run-Grant (command_checked now c ∷ past) command h =
      Grant-before _ past command
        (run-Grant past command ((check_string-Asks py now c _ _).back command h))
  run-Grant (requested now d r ∷ past) command h =
      Grant-before _ past command (run-Grant past command ((request-Asks now d r _).back command h))
  run-Grant (confirmed_by id b ∷ past) command h =
      approved-Grant id b _ past command refl (run-Grant past command) h
  run-Grant (allowed p ∷ past) command h =
      elim (snoc-cases command (py.lower p) (run py strict past).session_allowlist h) [
        | inl was ↦ Grant-before (allowed p) past command (run-Grant past command was)
        | inr new ↦ (py.lower p, new, by_pattern p past)
      ]
  run-Grant (blocked p ∷ past) command h =
      Grant-before (blocked p) past command (run-Grant past command h)

check_risk-confirmed :
    (py : Python) (now : Now) (command : String) (strict : Bool) (r : Risk) (g : CommandGuard)
    → (check_risk py now command strict r g).is_allowed ≡ true
    → leb 3 (value r) ≡ true
    → is_confirmed command g ≡ true
unfolding check_risk
check_risk-confirmed py now command strict r g h risky = ground arith

-- If a check of a command allows it, then the command is neither blacklisted nor does it modify a protected
-- path, and its risk is below high or it contains what the session granted before: a pattern that was
-- added to the allowlist, or the text of a request that was approved, which was checked or requested
-- before the approval.
pub check-Grant :
    (py : Python) (strict b : Bool) (past : List Call) (now : Now) (command : String)
    → (check_string py now command b (run py strict past)).is_allowed ≡ true
    → (is_blacklisted (py.strip (py.lower command)) ≡ false)
      × (modifies_protected_path (py.strip (py.lower command)) ≡ false)
      × ((leb 3 (value (assess_risk py command)) ≡ false) ⊎ Grant py strict past command)
unfolding check_string
check-Grant py strict b past now command h = (not_blacklisted, not_protected, granted)
  where
    not_blacklisted : is_blacklisted (py.strip (py.lower command)) ≡ false
    not_blacklisted = ground arith

    not_protected : modifies_protected_path (py.strip (py.lower command)) ≡ false
    not_protected = ground arith

    passed :
        (check_risk py now command b (assess_risk py command) (run py strict past)).is_allowed
        ≡ true
    passed = ground arith

    granted : (leb 3 (value (assess_risk py command)) ≡ false) ⊎ Grant py strict past command
    granted = elim (Bool-cases (leb 3 (value (assess_risk py command)))) [
      | inl risky ↦ inr (
          run-Grant py strict past command (check_risk-confirmed py now command b _ _ passed risky))
      | inr calm ↦ inl calm
    ]
