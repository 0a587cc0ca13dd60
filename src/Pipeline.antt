-- ===== src/Pipeline.antt =====
-- pipeline.py: the one path that every call of a published tool goes through. `W` is the world that
-- stages, the catalogue and the backend read and change.
pub mod Scope
pub mod Timeout
pub mod Gated
pub mod Stopped
pub mod Reached
pub mod Recorded
use beherouter.Prelude.{
  ℕ, String, Bool, is_empty, Option, none, some, List, [], ◌∷◌, ◌++◌, keys, sorted_set, map,
  if◌then◌else◌,
}
use beherouter.Data.{Value, Fields, float, nanos, pos}
use beherouter.Errors.{
  ErrorClass, Exc, Result, ok, raise, bare, tag, reasons, unavailable, cancelled, timeout_error,
}
use beherouter.Identity.{Host, RequestIdentity}
use beherouter.Identity.Policy.{
  IdentityPolicy, CallIdentity, IdentityMap, PendingExchange, resolve, guard, enabled,
}
use beherouter.Audit.{Caller}
use beherouter.Models.{ToolDescriptor}
use beherouter.Outcomes.{gate, prepare, execute, ok_outcome, classify, ErrorMeta, error_result}
use beherouter.Pipeline.Scope.{CallScope, Trace, record_call}

-- What a call ends with: a value, or the result that says that it failed.
pub data Reply : Type 0 where
  value : Value → Reply
  failed : ErrorMeta → Reply

abbrev pub Stage : Type 0 → Type 0
Stage W = CallScope → W → Result (Unit {0}) × W

abbrev pub ToolStage : Type 0 → Type 0
ToolStage W = CallScope → ToolDescriptor → Fields → W → Result (Unit {0}) × W

-- `executor.run` under a limit: it gives `timeout_error` where it was cut off.
abbrev pub Executor : Type 0 → Type 0
Executor W = Option ℕ → String → Fields → Option CallIdentity → W → Result Value × W

-- A tool's `work(scope)`: it gives its result, names the inner tool, reads or changes the world (the
-- catalogue), or calls the backend by `scope.execute` and goes on with what that gives.
pub data Work (W : Type 0) : Type 0 where
  finish : Result Value → Work W
  name_inner : String → Work W → Work W
  effect : (W → W) → (W → Work W) → Work W
  call : ToolDescriptor → Fields → (Result Value → Work W) → Work W

-- What the surroundings of a call give: the host, the identity map, the live request, and the
-- envelope of an error.
pub record Site : Type 0 where
  pub host : Host
  pub map_env : Option String
  pub identity_map : IdentityMap
  pub live : List String → RequestIdentity
  pub envelope : ErrorClass → String × ℕ
  pub internal_code : ℕ

pub record CallPipeline (W : Type 0) : Type 0 where
  pub surface : String
  pub executor : Executor W
  pub policy : Option IdentityPolicy
  pub call_timeout : Option ℕ  -- in nanoseconds
  pub audited : Bool
  pub stages : List (Stage W)
  pub tool_stages : List (ToolStage W)

-- `active`: the policy, if it is configured and enabled.
abbrev pub active : {W : Type 0} → CallPipeline W → Option IdentityPolicy
active p = elim p.policy [ none ↦ none | some q ↦ if enabled q then some q else none ]

-- `for stage in stages: await stage(...)`
unfoldable pub run_stages :
    {W : Type 0} → List (W → Result (Unit {0}) × W) → W → Result (Unit {0}) × W
run_stages [] w = (ok tt, w)
run_stages (s ∷ ss) w =
    let (r, w') = s w in elim r [ ok _ ↦ run_stages ss w' | raise e ↦ (raise e, w') ]

abbrev pub identity_of : Site → Option IdentityPolicy → Result (Option CallIdentity)
identity_of site none = ok none
identity_of site (some q) = resolve site.host site.map_env site.identity_map site.live q

-- The names of what is forwarded, never a value.
abbrev keys_of : Option IdentityPolicy → Option CallIdentity → List String → List String
keys_of (some q) (some ident) _ =
    sorted_set (
      keys ident.headers ++ keys ident.env ++ keys ident.credentials ++ pending_names ident.pending)
  where
    pending_names : Option PendingExchange → List String
    pending_names none = []
    pending_names (some _) = q.header ∷ []
keys_of _ _ old = old

abbrev timed_out : ℕ → Exc
timed_out limit = tag (bare unavailable) "timeout" (("limit_s", float (nanos (pos limit))) ∷ [])

-- `except TimeoutError`, where there is a limit.
abbrev pub answered : Option ℕ → Result Value → Result Value
answered none r = r
answered (some limit) (raise timeout_error) = raise (timed_out limit)
answered (some limit) r = r

-- `_execute`: what the call gives, with the scope and the world that it leaves.
unfoldable pub run_execute :
    {W : Type 0}
    → Site
    → CallPipeline W
    → CallScope
    → ToolDescriptor
    → Fields
    → W
    → Result Value × CallScope × W
unfolding run_stages tag reasons
run_execute site p scope d args w =
    let gated = record scope { phase = gate } in
    let (r, w') = run_stages (map (λ s. s gated d args) p.tool_stages) w in
    elim r [
      | raise e ↦ (raise e, gated, w')
      | ok _ ↦ elim (identity_of site (active p)) [
        | raise e ↦ (raise e, gated, w')
        | ok ident ↦
            let (answer, w'') = p.executor p.call_timeout d.verb args ident w' in
            (
              answered p.call_timeout answer,
              record gated {
                phase = execute;
                identity_keys = keys_of (active p) ident scope.identity_keys;
              },
              w'',
            )
      ]
    ]

-- A `work(scope)`, with every `scope.execute` in it.
unfoldable pub run_work :
    {W : Type 0} → Site → CallPipeline W → Work W → CallScope → W → Result Value × CallScope × W
unfolding run_execute
run_work site p (finish r) scope w = (r, scope, w)
run_work site p (name_inner n k) scope w =
    run_work site p k (record scope { inner_tool = some n }) w
run_work site p (effect f k) scope w = run_work site p (k w) scope (f w)
run_work site p (call d args k) scope w =
    let (r, scope', w') = run_execute site p scope d args w in run_work site p (k r) scope' w'

abbrev pub guarded : Site → Option IdentityPolicy → Result (Unit {0})
guarded site none = ok tt
guarded site (some q) = guard site.host site.map_env site.identity_map site.live q

-- The `try` of `run`: the guard, the stages, and the work.
unfoldable pub attempt :
    {W : Type 0} → Site → CallPipeline W → Work W → CallScope → W → Result Value × CallScope × W
unfolding run_work
attempt site p work scope w = elim (guarded site (active p)) [
  | raise e ↦ (raise e, scope, w)
  | ok _ ↦
      let (r, w') = run_stages (map (λ s. s scope) p.stages) w in
      elim r [
        | raise e ↦ (raise e, scope, w')
        | ok _ ↦ run_work site p work (record scope { phase = prepare }) w'
      ]
]

abbrev mode_of : Option IdentityPolicy → String
mode_of none = ""
mode_of (some q) = q.mode

-- `except Exception`, which a cancellation passes by, and `_record`.
unfoldable pub settle :
    {W : Type 0}
    → Site
    → CallPipeline W
    → ℕ
    → Result Value
    → CallScope
    → Trace
    → Result Reply × Trace
unfolding record_call classify error_result
settle site p seconds (ok v) scope t =
    (ok (value v), record_call p.audited (mode_of (active p)) scope ok_outcome none seconds t)
settle site p seconds (raise cancelled) scope t = (raise cancelled, t)
settle site p seconds (raise e) scope t =
    let outcome = classify e scope.phase in
    (
      ok (failed (error_result site.envelope site.internal_code e outcome)),
      record_call p.audited (mode_of (active p)) scope outcome (some e) seconds t,
    )

abbrev pub new_scope : {W : Type 0} → CallPipeline W → String → String → Caller → CallScope
new_scope p tool call_id caller = record {
  surface = p.surface;
  tool = tool;
  call_id = call_id;
  caller = caller;
  phase = gate;
  inner_tool = none;
  identity_keys = [];
}

-- `run`, for a call that took `seconds` (in nanoseconds).
unfoldable pub run :
    {W : Type 0}
    → Site
    → CallPipeline W
    → ℕ
    → String
    → String
    → Caller
    → Work W
    → W
    → Trace
    → Result Reply × W × Trace
unfolding attempt settle
run site p seconds tool call_id caller work w t =
    let (r, scope, w') = attempt site p work (new_scope p tool call_id caller) w in
    let (reply, t') = settle site p seconds r scope t in (reply, w', t')
