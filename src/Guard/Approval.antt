-- ===== src/Guard/Approval.antt =====
-- security/command_guard.py: what an approval is good for.
use novamind.Prelude.{
  String, ◌≡◌, refl, ap, Bool, true, false, Option, none, some, List, [], ◌∷◌, ◌++◌, arith,
  any-append, eq_refl,
}
use mathlib.Core.Path.{subst}
use mathlib.Core.Option.{some-injective}
use novamind.Prelude.Dict.{Dict, lookup, insert, lookup-insert}
use novamind.Prelude.Texts.{is_in, is_in_refl}
use novamind.Guard.Rules.{
  Risk, is_blacklisted, modifies_protected_path, any_in, confirmation_patterns,
}
use novamind.Guard.Session.{either, Call, command_checked, confirmed_by, step, run, run-keeps}
use novamind.Guard.{
  Python, Entry, CommandGuard, Now, id_of, is_confirmed, approve, Check, confirmation_required,
  stops, check_patterns, check_risk, check_string, check_command, confirm_found, confirm_action,
  request_user_confirmation, refused, strict_confirmation, allowed_at, dangerous_pattern,
  protected_path,
}

stops_none : (py : Python) (cl : String) (ps : List String) → stops py cl true ps ≡ false
unfolding stops
stops_none py cl [] = refl
stops_none py cl (p ∷ ps) = ground (arith, stops_none py cl ps)

-- A confirmed command passes all but the first two tests.
check_string-confirmed :
    (py : Python) (now : Now) (command : String) (strict : Bool) (g : CommandGuard)
    → is_blacklisted (py.strip (py.lower command)) ≡ false
    → modifies_protected_path (py.strip (py.lower command)) ≡ false
    → is_confirmed command g ≡ true
    → (check_string py now command strict g).is_allowed ≡ true
unfolding check_string check_risk check_patterns
check_string-confirmed py now command strict g b m h =
    rw b rw m rw h ground (arith, stops_none py (py.strip (py.lower command)) confirmation_patterns)

-- The id of the moment has a request for the command.
abbrev Pending : Now → String → CommandGuard → Type 0
Pending now command g =
    (e : Entry) × (lookup (id_of now) g.pending_confirmations ≡ some e) × (e.description ≡ command)

lookup-insert_here : (k : String) (e : Entry) (d : Dict Entry) → lookup k (insert k e d) ≡ some e
lookup-insert_here k e d = ground (arith, lookup-insert k k e d, eq_refl k)

request-Pending :
    (now : Now) (command : String) (r : Risk) (g : CommandGuard)
    → Pending now command (request_user_confirmation now command r g)
unfolding request_user_confirmation
request-Pending now command r g =
    (_, lookup-insert_here (id_of now) _ g.pending_confirmations, refl)

-- Only a refusal for the risk has that reason.
abbrev Awaits : Now → String → Risk → Check → Type 0
Awaits now command q c = c.reason ≡ confirmation_required q → Pending now command c.guard

strict-other : (q : Risk) → strict_confirmation ≡ confirmation_required q → ⊥
strict-other q h = ground arith

allowed-other : (q r : Risk) → allowed_at r ≡ confirmation_required q → ⊥
allowed-other q r h = ground arith

dangerous-other : (q : Risk) → dangerous_pattern ≡ confirmation_required q → ⊥
dangerous-other q h = ground arith

protected-other : (q : Risk) → protected_path ≡ confirmation_required q → ⊥
protected-other q h = ground arith

check_patterns-Awaits :
    (py : Python) (now : Now) (command : String) (strict : Bool) (r q : Risk) (g : CommandGuard)
    → Awaits now command q (check_patterns py command strict r g)
unfolding check_patterns
check_patterns-Awaits py now command strict r q g =
    either (Awaits now command q) _ _ _ (λ h. absurd (strict-other q h))
      (λ h. absurd (allowed-other q r h))

check_risk-Awaits :
    (py : Python) (now : Now) (command : String) (strict : Bool) (r q : Risk) (g : CommandGuard)
    → Awaits now command q (check_risk py now command strict r g)
unfolding check_risk
check_risk-Awaits py now command strict r q g =
    either (Awaits now command q) _ _ _ (λ h. request-Pending now command r g)
      (check_patterns-Awaits py now command strict r q g)

check_string-first :
    (py : Python) (now : Now) (command : String) (strict : Bool) (q : Risk) (g : CommandGuard)
    → (check_string py now command strict g).reason ≡ confirmation_required q
    → (is_blacklisted (py.strip (py.lower command)) ≡ false)
      × (modifies_protected_path (py.strip (py.lower command)) ≡ false)
unfolding check_string
check_string-first py now command strict q g h = (not_blacklisted, not_protected)
  where
    not_blacklisted : is_blacklisted (py.strip (py.lower command)) ≡ false
    not_blacklisted = ground arith

    not_protected : modifies_protected_path (py.strip (py.lower command)) ≡ false
    not_protected = ground arith

dangerous-Awaits :
    (now : Now) (command : String) (q : Risk) (g : CommandGuard)
    → Awaits now command q (refused dangerous_pattern g)
dangerous-Awaits now command q g h = absurd (dangerous-other q h)

protected-Awaits :
    (now : Now) (command : String) (q : Risk) (g : CommandGuard)
    → Awaits now command q (refused protected_path g)
protected-Awaits now command q g h = absurd (protected-other q h)

check_string-Awaits :
    (py : Python) (now : Now) (command : String) (strict : Bool) (q : Risk) (g : CommandGuard)
    → Awaits now command q (check_string py now command strict g)
unfolding check_string
check_string-Awaits py now command strict q g =
    search (either (Awaits now command q), dangerous-Awaits, protected-Awaits, check_risk-Awaits)

approve-same : (d : String) (l : List String) → any_in (approve true d l) d ≡ true
approve-same d l = ground (arith, any-append (λ p. is_in p d) l (d ∷ []), is_in_refl d)

approve-is_confirmed :
    (id : String) (o : Option Entry) (e : Entry) (g : CommandGuard)
    → o ≡ some e
    → is_confirmed e.description (confirm_found id true o g).1 ≡ true
unfolding confirm_found
approve-is_confirmed id none e g h = ground arith
approve-is_confirmed id (some f) e g h =
    rw (ap (λ x. x.description) (some-injective f e h))
      (approve-same e.description g.session_allowlist)

-- After the approval of a request for it, a command is confirmed.
confirm-is_confirmed :
    (now : Now) (command : String) (g : CommandGuard)
    → Pending now command g
    → is_confirmed command (confirm_action (id_of now) true g).1 ≡ true
unfolding confirm_action
confirm-is_confirmed now command g (e, found, same) =
    subst (λ d. is_confirmed d (confirm_action (id_of now) true g).1 ≡ true) same
      (approve-is_confirmed (id_of now) _ e g found)

-- If a command is refused because its risk needs a confirmation, and the request that this check leaves
-- is approved next, then the command is allowed by every later check, whatever calls come in between.
pub check-approved :
    (py : Python) (strict : Bool) (past later : List Call) (now next : Now) (command : String)
    (q : Risk)
    → (check_command py now command (run py strict past)).0.reason ≡ confirmation_required q
    → (check_command py next command (
        run py strict (
          later
          ++ confirmed_by (id_of now) true ∷ command_checked now command ∷ past))).0.is_allowed
      ≡ true
unfolding check_command run step
check-approved py strict past later now next command q h =
    check_string-confirmed py next command _ _ first.0 first.1 (
      run-keeps py strict later (confirmed_by (id_of now) true ∷ command_checked now command ∷ past)
        command (confirm-is_confirmed now command _ (check_string-Awaits py now command _ q _ h)))
  where
    first :
        (is_blacklisted (py.strip (py.lower command)) ≡ false)
        × (modifies_protected_path (py.strip (py.lower command)) ≡ false)
    first = check_string-first py now command _ q _ h
