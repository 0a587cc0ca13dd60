-- ===== src/Pipeline/Gated.antt =====
-- The per-tool stages of gates.py, as the pipeline runs them, in the order of `gates_from_entry`.
use beherouter.Prelude.{
  ℕ, ◌+◌, String, ◌≡◌, ◌⊎◌, inl, inr, refl, Bool, ◌&&◌, Option, none, some, map, if◌then◌else◌,
}
use beherouter.Errors.{Result, ok, Result-cases}
use beherouter.Identity.{Host, RequestIdentity}
use beherouter.Audit.{Caller}
use beherouter.Models.{ToolDescriptor}
use beherouter.Gates.{ToolRoleGate, ConfirmGate, Answer, check_tool, confirm, applies}
use beherouter.Gates.Rate.{RateLimiter}
use beherouter.Gates.Rate as Rate
use beherouter.Gates.Table.{Stage, role_stage, rate_stage, confirm_stage, stages_of}
use beherouter.Pipeline.{run_stages}

-- What a call meets: its live request, its caller, the time, and the client that may be asked.
pub record Visit : Type 0 where
  pub host : Host
  pub request : RequestIdentity
  pub caller : Caller
  pub limit : String
  pub now : ℕ
  pub can_elicit : Bool
  pub elicited : Result Answer

-- The limiter of the surface, and how many questions its users were asked.
pub record GateState : Type 0 where
  pub limiter : RateLimiter
  pub questions : ℕ

abbrev asked : Bool → ℕ → ℕ
asked b n = if b then n + 1 else n

-- One stage: `ToolRoleGate.__call__`, `RateLimiter.__call__` (on the limiter as it is by then) and
-- `ConfirmGate.__call__`.
unfoldable pub run_gate : Visit → ToolDescriptor → Stage → GateState → Result (Unit {0}) × GateState
run_gate v d (role_stage g) s = (check_tool v.host g v.request d.name, s)
run_gate v d (rate_stage _) s =
    let (r, limiter) = Rate.stage v.limit v.caller v.now s.limiter in
    (r, record s { limiter = limiter })
run_gate v d (confirm_stage g) s = (
  confirm g v.can_elicit v.elicited d,
  record s { questions = asked (applies g d && v.can_elicit) s.questions },
)

abbrev pub gates_run :
    Visit
    → ToolDescriptor
    → Option ToolRoleGate
    → Option RateLimiter
    → Option ConfirmGate
    → GateState
    → Result (Unit {0}) × GateState
gates_run v d roles limiter gate s =
    run_stages (map (run_gate v d) (stages_of roles limiter gate)) s

-- The role gate, if there is one, lets the call through.
abbrev pub RolePasses : Visit → ToolDescriptor → Option ToolRoleGate → Type 0
RolePasses v d none = Unit {0}
RolePasses v d (some g) = check_tool v.host g v.request d.name ≡ ok tt

-- The limiter, if there is one, has a token.
abbrev pub RatePasses : Visit → Option RateLimiter → GateState → Type 0
RatePasses v none s = Unit {0}
RatePasses v (some _) s = (Rate.stage v.limit v.caller v.now s.limiter).0 ≡ ok tt

asked_after_rate :
    (v : Visit) (d : ToolDescriptor) (limiter : Option RateLimiter) (gate : Option ConfirmGate)
    (s : GateState)
    → ((gates_run v d none limiter gate s).1.questions ≡ s.questions) ⊎ RatePasses v limiter s
unfolding run_stages run_gate
asked_after_rate v d none gate s = inr tt
asked_after_rate v d (some l) gate s =
    elim (Result-cases (Rate.stage v.limit v.caller v.now s.limiter).0) [
      | inl (u, passed) ↦ inr passed
      | inr (e, refused) ↦ inl (rw (refused, run_stages) refl)
    ]

-- The order of the gates: a call that the role gate refuses leaves every bucket as it was, and a user
-- is asked a question only for a call that the role gate and the limiter let through.
pub gates_run-in_order :
    (v : Visit) (d : ToolDescriptor) (roles : Option ToolRoleGate) (limiter : Option RateLimiter)
    (gate : Option ConfirmGate) (s : GateState)
    → let s' = (gates_run v d roles limiter gate s).1 in
      ((s'.limiter ≡ s.limiter) ⊎ RolePasses v d roles)
      × ((s'.questions ≡ s.questions) ⊎ (RolePasses v d roles × RatePasses v limiter s))
unfolding run_stages run_gate
gates_run-in_order v d none limiter gate s = (
  inr tt,
  elim (asked_after_rate v d limiter gate s) [
    | inl same ↦ inl same
    | inr passed ↦ inr (tt, passed)
  ],
)
gates_run-in_order v d (some g) limiter gate s =
    elim (Result-cases (check_tool v.host g v.request d.name)) [
      | inr (e, refused) ↦
          (inl (rw (refused, run_stages) refl), inl (rw (refused, run_stages) refl))
      | inl (u, passed) ↦ (
        inr passed,
        elim (asked_after_rate v d limiter gate s) [
          | inl same ↦ inl (rw (passed, run_stages) same)
          | inr rate ↦ inr (passed, rate)
        ],
      )
    ]
