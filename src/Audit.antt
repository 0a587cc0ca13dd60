-- ===== src/Audit.antt =====
-- audit.py: the caller of a call, and the audit line. The time and the JSON print are left out.
use beherouter.Prelude.{
  ℕ, String, Bool, true, false, Option, none, some, List, [], ◌∷◌, Dict, ◌===◌, put, if◌then◌else◌,
}
use beherouter.Data.{Value, int, float, str}
use beherouter.Identity.{Host, claim_at}
use beherouter.Identity.Request.{AccessToken, shared_client_id, identity_from_token}
use beherouter.Outcomes.{Outcome}

pub record Caller : Type 0 where
  pub auth : String
  pub sub : Option String
  pub claims : Dict String

-- `isinstance(value, (str, int, float)) and not isinstance(value, bool)`
abbrev is_scalar : Value → Bool
is_scalar (str _) = true
is_scalar (int _) = true
is_scalar (float _) = true
is_scalar _ = false

-- The loop of `caller_from_token` over the configured names.
pick : Host → AccessToken → List String → Dict String → Dict String
pick host token [] picked = picked
pick host token (name ∷ names) picked =
    pick host token names (picked_with (claim_at token.claims name))
  where
    picked_with : Option Value → Dict String
    picked_with none = picked
    picked_with (some v) = if is_scalar v then put name (host.show v) picked else picked

unfoldable pub caller_from_token : Host → Option AccessToken → List String → Caller
unfolding pick
caller_from_token host none names = record { auth = "none"; sub = none; claims = [] }
caller_from_token host (some token) names =
    if token.client_id === shared_client_id
    then record { auth = "shared"; sub = none; claims = [] }
    else record {
      auth = "oidc";
      sub = (identity_from_token host token []).subject;
      claims = pick host token names [];
    }

-- What the line of one call says.
pub record AuditLine : Type 0 where
  pub call_id : String
  pub surface : String
  pub tool : String
  pub inner_tool : Option String
  pub caller : Caller
  pub outcome : Outcome
  pub latency_ms : ℕ

-- `emit`: this line before the earlier ones, if the audit is on.
abbrev pub emit : Bool → AuditLine → List AuditLine → List AuditLine
emit audited line lines = if audited then line ∷ lines else lines
