-- ===== src/Guard/Session.antt =====
-- security/command_guard.py: the calls on a CommandGuard, and what they do to its allowlist.
use novamind.Prelude.{
  String, ◌≡◌, Bool, true, false, Option, none, some, List, [], ◌∷◌, ◌++◌, arith, any-append,
  Bool-cases, ◌⊎◌, sym, ap, ◌∙◌, not, ◌&&◌, leb, ◌==◌, inl, inr, if◌then◌else◌,
}
use novamind.Prelude.Dict.{Dict, lookup, lookup-insert}
use novamind.Prelude.Texts.{is_in}
use mathlib.Core.Option.{some-injective}
use novamind.Guard.Rules.{Risk, value, any_in}
use novamind.Guard.{
  Python, Entry, CommandGuard, new_guard, Now, request_user_confirmation, confirm_found,
  confirm_action, add_to_allowlist, add_to_blocklist, is_confirmed, approve, Check, check_patterns,
  check_risk, check_string, Value, build_command_string, check_action, check_command, id_of,
  refused, confirmation_required,
}

pub data Call : Type 0 where
  action_checked : Now → String → String → Dict Value → Call
  command_checked : Now → String → Call
  requested : Now → String → Risk → Call
  confirmed_by : String → Bool → Call
  allowed blocked : String → Call

unfoldable pub step : Python → Call → CommandGuard → CommandGuard
step py (action_checked now agent action ps) g = (check_action py now agent action ps g).guard
step py (command_checked now command) g = (check_command py now command g).0.guard
step py (requested now d r) g = request_user_confirmation now d r g
step py (confirmed_by id b) g = (confirm_action id b g).1
step py (allowed p) g = add_to_allowlist py p g
step py (blocked p) g = add_to_blocklist py p g

-- The guard after the calls of a session, the last of which stands first.
unfoldable pub run : Python → Bool → List Call → CommandGuard
run py strict [] = new_guard strict
run py strict (c ∷ past) = step py c (run py strict past)

-- What a check or a request on a command may change: it confirms nothing, and a request that is
-- pending afterwards was so before, or it is for the command.
pub record Asks (command : String) (g h : CommandGuard) : Type 0 where
  pub forth : (c : String) → is_confirmed c g ≡ true → is_confirmed c h ≡ true
  pub back : (c : String) → is_confirmed c h ≡ true → is_confirmed c g ≡ true
  pub pending :
      (k : String) (e : Entry)
      → lookup k h.pending_confirmations ≡ some e
      → (lookup k g.pending_confirmations ≡ some e) ⊎ (e.description ≡ command)

Asks-refl : (command : String) (g : CommandGuard) → Asks command g g
Asks-refl command g = record { forth = λ c h. h; back = λ c h. h; pending = λ k e h. inl h }

one_of_insert :
    (i k : String) (v e : Entry) (d : Dict Entry)
    → (if i == k then some v else lookup k d) ≡ some e
    → (lookup k d ≡ some e) ⊎ (e.description ≡ v.description)
one_of_insert i k v e d h = elim (Bool-cases (i == k)) [
  | inl here ↦ inr (sym (ap (λ x. x.description) (some-injective _ _ (at_here here))))
  | inr other ↦ inl (at_other other)
]
  where
    at_here : (i == k) ≡ true → some v ≡ some e
    at_here b = rw b at h

    at_other : (i == k) ≡ false → lookup k d ≡ some e
    at_other b = rw b at h

pub request-Asks :
    (now : Now) (command : String) (r : Risk) (g : CommandGuard)
    → Asks command g (request_user_confirmation now command r g)
unfolding request_user_confirmation
request-Asks now command r g = record {
  forth = λ c h. h;
  back = λ c h. h;
  pending = λ k e h. one_of_insert (id_of now) k _ e _ (sym (lookup-insert (id_of now) k _ _) ∙ h);
}

pub either : {A : Type 0} (P : A → Type 0) (b : Bool) (x y : A) → P x → P y → P (if b then x else y)
either P true x y p q = p
either P false x y p q = q

abbrev AsksCheck : String → CommandGuard → Check → Type 0
AsksCheck command g r = Asks command g r.guard

check_patterns-Asks :
    (py : Python) (command : String) (strict : Bool) (r : Risk) (g : CommandGuard)
    → AsksCheck command g (check_patterns py command strict r g)
unfolding check_patterns
check_patterns-Asks py command strict r g =
    either (AsksCheck command g) _ _ _ (Asks-refl command g) (Asks-refl command g)

check_risk-Asks :
    (py : Python) (now : Now) (command : String) (strict : Bool) (r : Risk) (g : CommandGuard)
    → AsksCheck command g (check_risk py now command strict r g)
unfolding check_risk
check_risk-Asks py now command strict r g =
    either (AsksCheck command g) (leb 3 (value r) && not (is_confirmed command g))
      (refused (confirmation_required r) (request_user_confirmation now command r g))
      (check_patterns py command strict r g) (request-Asks now command r g)
      (check_patterns-Asks py command strict r g)

pub check_string-Asks :
    (py : Python) (now : Now) (command : String) (strict : Bool) (g : CommandGuard)
    → AsksCheck command g (check_string py now command strict g)
unfolding check_string
check_string-Asks py now command strict g =
    search (either (AsksCheck command g), Asks-refl, check_risk-Asks)

approve-Forth :
    (b : Bool) (d c : String) (l : List String)
    → any_in l c ≡ true
    → any_in (approve b d l) c ≡ true
approve-Forth true d c l h = ground (arith, any-append (λ p. is_in p c) l (d ∷ []))
approve-Forth false d c l h = h

confirm_found-keeps :
    (id : String) (b : Bool) (o : Option Entry) (g : CommandGuard) (c : String)
    → is_confirmed c g ≡ true
    → is_confirmed c (confirm_found id b o g).1 ≡ true
unfolding confirm_found
confirm_found-keeps id b none g c h = h
confirm_found-keeps id b (some e) g c h = approve-Forth b e.description c g.session_allowlist h

-- A command that is confirmed stays so.
pub step-keeps :
    (py : Python) (call : Call) (g : CommandGuard) (c : String)
    → is_confirmed c g ≡ true
    → is_confirmed c (step py call g) ≡ true
unfolding step check_action check_command confirm_action add_to_allowlist add_to_blocklist
step-keeps py (action_checked now agent action ps) g c h =
    (check_string-Asks py now (build_command_string agent action ps) g.strict_mode g).forth c h
step-keeps py (command_checked now command) g c h =
    (check_string-Asks py now command g.strict_mode g).forth c h
step-keeps py (requested now d r) g c h = (request-Asks now d r g).forth c h
step-keeps py (confirmed_by id b) g c h =
    confirm_found-keeps id b (lookup id g.pending_confirmations) g c h
step-keeps py (allowed p) g c h =
    ground (arith, any-append (λ q. is_in q c) g.session_allowlist (py.lower p ∷ []))
step-keeps py (blocked p) g c h = h

pub run-keeps :
    (py : Python) (strict : Bool) (later past : List Call) (c : String)
    → is_confirmed c (run py strict past) ≡ true
    → is_confirmed c (run py strict (later ++ past)) ≡ true
unfolding run
run-keeps py strict [] past c h = h
run-keeps py strict (x ∷ later) past c h =
    step-keeps py x (run py strict (later ++ past)) c (run-keeps py strict later past c h)
