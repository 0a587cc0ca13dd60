-- ===== src/Outcomes/Payload.antt =====
-- What of an error reaches the client.
use beherouter.Prelude.{ℕ, String, ◌≡◌, none, elem, lookup, lookup-select_keys, if◌then◌else◌}
use beherouter.Errors.{ErrorClass, AxiError, axi}
use beherouter.Outcomes.{Outcome, context_keys, error_result}

-- The context that a client receives holds what the error has under an allowed key, unchanged, and
-- nothing under any other key: neither the reason's own entry nor one that a raiser adds later.
pub error_result-context :
    (envelope : ErrorClass → String × ℕ) (code : ℕ) (e : AxiError) (o : Outcome) (k : String)
    → lookup k (error_result envelope code (axi e) o).context
      ≡ (if elem k context_keys then lookup k e.context else none)
unfolding error_result
error_result-context envelope code e o k = lookup-select_keys (λ j. elem j context_keys) k e.context
