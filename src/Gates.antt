-- ===== src/Gates.antt =====
-- gates.py: the per-tool gates of a surface, in their fixed order. `Rate` is the rate limiter.
pub mod Rate
pub mod Table
pub mod Confirm
pub mod Visibility
use beherouter.Prelude.{
  ℕ, String, Bool, true, false, ◌&&◌, ◌||◌, not, Option, none, some, List, [], ◌∷◌, Dict, lookup,
  elem, is_nil, if◌then◌else◌,
}
use beherouter.Data.{Value, str}
use beherouter.Errors.{
  Exc, Result, ok, raise, bare, tag, reasons, auth_error, timeout_error, mcp_error, value_error,
}
use beherouter.Identity.{Host, RequestIdentity, truthy, check_roles}
use beherouter.Models.{ToolDescriptor}

-- `ToolRoleGate`: the roles that each gated tool requires.
pub record ToolRoleGate : Type 0 where
  pub surface : String
  pub tools : Dict (List String)
  pub roles_claim : String

abbrev unauthenticated : Exc
unauthenticated = tag (bare auth_error) "unauthenticated" []

abbrev check_required :
    Host → ToolRoleGate → RequestIdentity → Option (List String) → Result (Unit {0})
check_required host g req none = ok tt
check_required host g req (some []) = ok tt
check_required host g req (some (r ∷ rs)) =
    if req.shared || not (truthy req.subject)
    then raise unauthenticated
    else check_roles host (r ∷ rs) g.roles_claim req.claims

-- `ToolRoleGate.check`, and the gate as a stage; `req` is the live request.
unfoldable pub check_tool : Host → ToolRoleGate → RequestIdentity → String → Result (Unit {0})
unfolding tag reasons
check_tool host g req name = check_required host g req (lookup name g.tools)

abbrev pub succeeds : Result (Unit {0}) → Bool
succeeds (ok _) = true
succeeds (raise _) = false

-- `ToolRoleGate.visible`: a gate that cannot be evaluated hides the tool.
pub tool_visible : Host → ToolRoleGate → RequestIdentity → String → Bool
tool_visible host g req name = succeeds (check_tool host g req name)

pub record ConfirmGate : Type 0 where
  pub surface : String
  pub exempt : List String

abbrev pub is_not_false : Option Bool → Bool
is_not_false (some false) = false
is_not_false _ = true

-- `ConfirmGate.applies`: mutating, or not known to be read-only.
unfoldable pub applies : ConfirmGate → ToolDescriptor → Bool
applies g d = is_not_false d.mutating && not (elem d.name g.exempt)

-- What an elicitation gives: the action with its data, or no answer.
pub data Answer : Type 0 where
  accept : Option Value → Answer
  decline cancel : Answer

abbrev refuse : String → Exc
refuse confirmation =
    tag (bare auth_error) "confirmation_required" (("confirmation", str confirmation) ∷ [])

abbrev is_yes : Answer → Bool
is_yes (accept (some (Value.bool b))) = b
is_yes _ = false

-- The handlers of the elicitation, and the test of its answer.
abbrev judge : Result Answer → Result (Unit {0})
judge (raise timeout_error) = raise (refuse "timeout")
judge (raise mcp_error) = raise (refuse "unsupported")
judge (raise value_error) = raise (refuse "declined")
judge (raise e) = raise e
judge (ok answer) = if is_yes answer then ok tt else raise (refuse "declined")

-- The stage. `can_elicit` is what the client says that it can do, `elicited` what its user answers.
unfoldable pub confirm : ConfirmGate → Bool → Result Answer → ToolDescriptor → Result (Unit {0})
unfolding tag reasons applies
confirm g can_elicit elicited d =
    if applies g d
    then (if can_elicit then judge elicited else raise (refuse "unsupported"))
    else ok tt

-- `Gates`, beside its stages: what a surface asks them.
pub record Gates : Type 0 where
  pub roles : Option ToolRoleGate
  pub hide : Bool
  pub confirm_gate : Option ConfirmGate

unfoldable pub visible : Host → Gates → RequestIdentity → String → Bool
unfolding tool_visible
visible host g req name = elim g.roles [
  | none ↦ true
  | some roles ↦ not g.hide || tool_visible host roles req name
]

unfoldable pub check_visible : Host → Gates → RequestIdentity → String → Result (Unit {0})
check_visible host g req name = elim g.roles [
  | none ↦ ok tt
  | some roles ↦ if g.hide then check_tool host roles req name else ok tt
]

unfoldable pub requires_confirmation : Gates → ToolDescriptor → Bool
unfolding applies
requires_confirmation g d = elim g.confirm_gate [ none ↦ false | some c ↦ applies c d ]
