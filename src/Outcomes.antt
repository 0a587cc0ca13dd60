-- ===== src/Outcomes.antt =====
-- outcomes.py: how a call ended, classified once. The texts of messages are left out, and what
-- the package beheaxi says of a class (`AxiError.envelope`, `ExitCode.INTERNAL`) is a parameter.
pub mod Reasons
pub mod Payload
use beherouter.Prelude.{
  ℕ, String, Bool, Option, none, some, [], ◌∷◌, List, Dict, lookup, has, elem, select_keys,
  if◌then◌else◌,
}
use beherouter.Data.{Value, ℤ, str, int}
use beherouter.Errors.{
  ErrorClass, auth_error, not_found, unavailable, usage_error, AxiError, Exc, axi, reasons,
}

pub data Phase : Type 0 where
  gate prepare execute : Phase

pub record Outcome : Type 0 where
  pub kind : String
  pub reason : Option String
  pub status : Option ℤ

abbrev pub ok_outcome : Outcome
ok_outcome = record { kind = "ok"; reason = none; status = none }

-- How an error with no known reason is read, by the phase that it was raised in.
pub untagged : ErrorClass → Phase → String
untagged auth_error gate = "unauthenticated"
untagged _ gate = "identity_unavailable"
untagged not_found prepare = "unknown_tool"
untagged usage_error prepare = "bad_arguments"
untagged _ prepare = "backend_unavailable"
untagged unavailable execute = "backend_unavailable"
untagged usage_error execute = "backend_rejected"
untagged not_found execute = "backend_rejected"
untagged auth_error execute = "backend_rejected"
untagged _ execute = "internal"

-- `reason in REASONS`, for what the context holds under "reason".
abbrev pub known : Option Value → Option String
known (some (str r)) = if has r reasons then some r else none
known _ = none

abbrev pub or_else : Option String → String → String
or_else (some r) d = r
or_else none d = d

-- `REASONS[reason]`; every reason that `classify` looks up is there.
abbrev pub kind_of : String → String
kind_of r = or_else (lookup r reasons) "internal"

-- `status if isinstance(status, int) and not isinstance(status, bool) else None`
abbrev pub status_of : Option Value → Option ℤ
status_of (some (int n)) = some n
status_of _ = none

abbrev reason_of : AxiError → Phase → String
reason_of e phase = or_else (known (lookup "reason" e.context)) (untagged e.cls phase)

unfoldable pub classify : Exc → Phase → Outcome
unfolding untagged
classify (axi e) phase = record {
  kind = kind_of (reason_of e phase);
  reason = some (reason_of e phase);
  status = status_of (lookup "status" e.context);
}
classify _ phase = record { kind = "internal"; reason = some "internal"; status = none }

abbrev pub context_keys : List String
context_keys =
    "required_roles" ∷ "missing_roles" ∷ "expected_audience" ∷ "suggestions" ∷ "status" ∷ "limit_s"
    ∷ "retry_after_s" ∷ "limit" ∷ "confirmation" ∷ "scope" ∷ []

pub record ErrorMeta : Type 0 where
  pub type : String
  pub code : ℕ
  pub reason : Option String
  pub context : Dict Value  -- empty where the source leaves the key out

-- The `_meta` of the error result that a client receives.
module _ (envelope : ErrorClass → String × ℕ) (internal_code : ℕ) where
  unfoldable pub error_result : Exc → Outcome → ErrorMeta
  error_result (axi e) outcome = record {
    type = (envelope e.cls).0;
    code = (envelope e.cls).1;
    reason = outcome.reason;
    context = select_keys (λ k. elem k context_keys) e.context;
  }
  error_result _ outcome = record {
    type = "internal";
    code = internal_code;
    reason = some "internal";
    context = [];
  }
