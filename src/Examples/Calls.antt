-- ===== src/Examples/Calls.antt =====
-- Calls of the tool `crm_find`.
use beherouter.Prelude.{ℕ, ◌+◌, true, ◌≡◌, refl, ◌⊎◌, none, some, [], ◌∷◌}
use beherouter.Data.{Value, str, end}
use beherouter.Errors.{Exc, ok, raise, cancelled}
use beherouter.Outcomes.{ErrorMeta}
use beherouter.KillSwitch.{KillState, disabled, parse_state, as_json}
use beherouter.KillSwitch.Cache.{KillSwitch, state, fresh}
use beherouter.Pipeline.Scope.{CallScope}
use beherouter.Pipeline.{
  CallPipeline, Work, finish, name_inner, call, failed, run, run_execute, run_stages, new_scope,
}
use beherouter.Identity.Policy.{
  resolve, authorise, materialise, material, gate, enabled, wanted_headers,
}
use beherouter.Identity.{check_roles}
use beherouter.Gates.{ToolRoleGate, ConfirmGate, accept}
use beherouter.Gates.Rate.{RateLimiter}
use beherouter.Pipeline.Gated.{
  Visit, GateState, gates_run, RolePasses, RatePasses, gates_run-in_order,
}
use beherouter.Pipeline.Recorded.{IsRecorded, run-IsRecorded}
use beherouter.Pipeline.Reached.{IsServed, run_execute-IsServed}
use beherouter.Pipeline.Stopped.{kill_stage, run_stopped}
use beherouter.Examples.Data.{site, ann, policy, caller, find, untouched, file_of, host}

-- The world counts the calls that reached the backend.
abbrev pub pipeline : CallPipeline ℕ
pipeline = record {
  surface = "crm";
  executor = λ limit verb args ident w. (ok (str "found"), w + 1);
  policy = some policy;
  call_timeout = none;
  audited = true;
  stages = [];
  tool_stages = [];
}

abbrev work : Work ℕ
work = name_inner "crm_find" (call find end (λ r. finish r))

run-IsRecorded_example :
    let (reply, _, t') =
      run (site ann) pipeline 5_000_000 "run_tool" "id-1" caller work 0 untouched in
    ((reply ≡ raise cancelled) × (t' ≡ untouched))
    ⊎ IsRecorded true "run_tool" "id-1" caller 5_000_000 reply untouched t'
run-IsRecorded_example =
    run-IsRecorded (site ann) pipeline 5_000_000 "run_tool" "id-1" caller work 0 untouched

abbrev scope : CallScope
scope = new_scope pipeline "crm_find" "id-1" caller

served : (run_execute (site ann) pipeline scope find end 0).0 ≡ ok (str "found")
unfolding run_execute run_stages resolve authorise materialise material gate enabled wanted_headers
    check_roles
served = refl

run_execute-IsServed_example : IsServed (site ann) pipeline scope find end 0 (str "found")
run_execute-IsServed_example =
    run_execute-IsServed (site ann) pipeline scope find end 0 (str "found") served

-- A pipeline that asks the kill switch.
abbrev watched : Value → CallPipeline (KillSwitch × ℕ)
watched v = record {
  surface = "crm";
  executor = λ limit verb args ident (ks, n). (ok (str "found"), (ks, n + 1));
  policy = none;
  call_timeout = none;
  audited = true;
  stages = kill_stage (file_of v) ∷ [];
  tool_stages = [];
}

abbrev watched_work : Work (KillSwitch × ℕ)
watched_work = call find end (λ r. finish r)

abbrev stopping : KillState
stopping = record { all = none; surfaces = ("crm", end) ∷ []; subjects = [] }

is_read : (state fresh (file_of (as_json stopping))).answer ≡ ok stopping
unfolding state parse_state as_json
is_read = refl

is_stopped : disabled stopping "crm" ≡ some "surface"
unfolding disabled
is_stopped = refl

run_stopped_example :
    let p = watched (as_json stopping) in
    let (reply, w', _) =
      run (site ann) p 1_000_000 "crm_find" "id-2" caller watched_work (fresh, 0) untouched in
    ((m : ErrorMeta) × (reply ≡ ok (failed m)) × (m.reason ≡ some "surface_disabled"))
    × (w' ≡ ((state fresh (file_of (as_json stopping))).switch, 0))
run_stopped_example =
    run_stopped (site ann) (watched (as_json stopping)) (file_of (as_json stopping)) [] 1_000_000
      "crm_find" "id-2" caller watched_work fresh 0 untouched stopping "surface" refl refl is_read
      is_stopped

-- A caller without the role, at a surface with all three gates.
abbrev visit : Visit
visit = record {
  host = host;
  request = ann;
  caller = caller;
  limit = "2/1s";
  now = 5;
  can_elicit = true;
  elicited = ok (accept (some (Value.bool true)));
}

abbrev pub admins_only : ToolRoleGate
admins_only = record {
  surface = "crm";
  tools = ("crm_find", "admin" ∷ []) ∷ [];
  roles_claim = "roles";
}

abbrev limiter : RateLimiter
limiter = record { calls = 2; per = 1_000_000_000; burst = 2; buckets = []; swept = none }

abbrev asks_all : ConfirmGate
asks_all = record { surface = "crm"; exempt = [] }

abbrev at_gates : GateState
at_gates = record { limiter = limiter; questions = 0 }

gates_run-in_order_example :
    let s' = (gates_run visit find (some admins_only) (some limiter) (some asks_all) at_gates).1 in
    ((s'.limiter ≡ limiter) ⊎ RolePasses visit find (some admins_only))
    × ((s'.questions ≡ 0)
        ⊎ (RolePasses visit find (some admins_only) × RatePasses visit (some limiter) at_gates))
gates_run-in_order_example =
    gates_run-in_order visit find (some admins_only) (some limiter) (some asks_all) at_gates

-- A backend that never answers within its 30 seconds.
abbrev slow : CallPipeline ℕ
slow = record pipeline {
  executor = λ limit verb args ident w. (raise Exc.timeout_error, w + 1);
  policy = none;
  call_timeout = some 30_000_000_000;
}

no_stage : run_stages {W = ℕ} [] 0 ≡ (ok tt, 0)
unfolding run_stages
no_stage = refl
