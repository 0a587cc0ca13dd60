-- ===== src/Pipeline/Timeout.antt =====
-- A backend that does not answer within the limit of its surface.
use beherouter.Prelude.{ℕ, ◌≡◌, refl, ap, Option, some, map, lookup}
use beherouter.Data.{Value, Fields, float, nanos, pos}
use beherouter.Errors.{AxiError, Exc, Result, ok, raise, axi, tag, reasons, set_defaults}
use beherouter.Identity.Policy.{CallIdentity}
use beherouter.Models.{ToolDescriptor}
use beherouter.Outcomes.{Phase, Outcome, classify, error_result}
use beherouter.Pipeline.Scope.{CallScope}
use beherouter.Pipeline.{Site, CallPipeline, run_stages, identity_of, active, run_execute}

-- What a call that was cut off at `limit` gives: an error that the outcome calls a timeout, whatever the
-- phase it is classified in, and that tells the client the limit.
pub record IsTimeout (site : Site) (limit : ℕ) (answer : Result Value) : Type 0 where
  pub error : AxiError
  pub raised : answer ≡ raise (axi error)
  pub kind : (phase : Phase) → (classify (axi error) phase).kind ≡ "timeout"
  pub told :
      (o : Outcome)
      → lookup "limit_s" (error_result site.envelope site.internal_code (axi error) o).context
        ≡ some (float (nanos (pos limit)))

-- Where the per-tool stages let a call through and its identity is made, but the executor is cut off
-- at the limit of the surface, the call ends as a timeout, and the client is told the limit.
pub run_execute-IsTimeout :
    {W : Type 0} (site : Site) (p : CallPipeline W) (scope : CallScope) (d : ToolDescriptor)
    (args : Fields) (w w' : W) (ident : Option CallIdentity) (limit : ℕ)
    → p.call_timeout ≡ some limit
    → run_stages (map (λ s. s (record scope { phase = Phase.gate }) d args) p.tool_stages) w
      ≡ (ok tt, w')
    → identity_of site (active p) ≡ ok ident
    → (p.executor (some limit) d.verb args ident w').0 ≡ raise Exc.timeout_error
    → IsTimeout site limit (run_execute site p scope d args w).0
unfolding run_execute classify error_result tag reasons set_defaults
run_execute-IsTimeout site p scope d args w w' ident limit limited staged made late =
    rw (ap (λ x. x.0) staged, made, ap (λ x. x.1) staged, limited, late, run_execute)
      (record { error = _; raised = refl; kind = λ phase. refl; told = λ o. refl })
