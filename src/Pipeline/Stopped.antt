-- ===== src/Pipeline/Stopped.antt =====
-- The pipeline of a surface that asks the kill switch before anything else: `stages` begins with the
-- kill switch's stage, as the gateway builds it. The world is the switch, and the rest `B`.
use beherouter.Prelude.{ℕ, String, ◌≡◌, refl, ap, true, none, some, List, ◌∷◌, map}
use beherouter.Errors.{Exc, ok, raise, tag, reasons, set_defaults}
use beherouter.Audit.{Caller}
use beherouter.KillSwitch.{KillState, disabled}
use beherouter.KillSwitch.Cache.{KillSwitch, File, state}
use beherouter.KillSwitch.Stage.{verdict, surface_disabled, caller_blocked, blocked}
use beherouter.KillSwitch.Stage as KillStage
use beherouter.Outcomes.{ErrorMeta, classify, error_result}
use beherouter.Pipeline.Scope.{CallScope, Trace, LogLine, record_call}
use beherouter.Pipeline.{
  Site, CallPipeline, Work, failed, Stage, run_stages, active, attempt, new_scope, settle, run,
}

-- `stage_for(killswitch, surface)`, in the world that has the switch.
unfoldable pub kill_stage : {B : Type 0} → File → Stage (KillSwitch × B)
unfolding KillStage.stage
kill_stage file scope (ks, b) =
    let (r, ks') = KillStage.stage file scope.surface scope.caller ks in (r, (ks', b))

attempt_first :
    {W : Type 0} (site : Site) (p : CallPipeline W) (first : Stage W) (rest : List (Stage W))
    (work : Work W) (scope : CallScope) (w w' : W) (e : Exc)
    → active p ≡ none
    → p.stages ≡ first ∷ rest
    → first scope w ≡ (raise e, w')
    → attempt site p work scope w ≡ (raise e, scope, w')
unfolding attempt run_stages
attempt_first site p first rest work scope w w' e off begins refused =
    let stopped : run_stages (map (λ s. s scope) p.stages) w ≡ (raise e, w') =
      rw begins (rw (ap (λ x. x.0) refused, ap (λ x. x.1) refused, run_stages) refl) in
    rw (off, ap (λ x. x.0) stopped, ap (λ x. x.1) stopped, attempt) refl

kill_stage_stopped :
    {B : Type 0} (file : File) (scope : CallScope) (ks : KillSwitch) (b : B) (st : KillState)
    (which : String)
    → (state ks file).answer ≡ ok st
    → disabled st scope.surface ≡ some which
    → kill_stage file scope (ks, b) ≡ (raise (surface_disabled which), ((state ks file).switch, b))
unfolding kill_stage verdict
kill_stage_stopped file scope ks b st which read stop = rw (read, stop, kill_stage, verdict) refl

kill_stage-blocked :
    {B : Type 0} (file : File) (scope : CallScope) (ks : KillSwitch) (b : B) (st : KillState)
    → (state ks file).answer ≡ ok st
    → disabled st scope.surface ≡ none
    → blocked st scope.caller ≡ true
    → kill_stage file scope (ks, b) ≡ (raise caller_blocked, ((state ks file).switch, b))
unfolding kill_stage verdict
kill_stage-blocked file scope ks b st read on is_blocked =
    rw (read, on, is_blocked, kill_stage, verdict) refl

-- On a surface with no policy that is on and with the kill switch's stage first: if the switch
-- reads a state in which the surface is stopped, a call is refused as `surface_disabled`, and
-- nothing but that reading has happened: the stages behind it, the tool and the backend were not
-- reached.
pub run_stopped :
    {B : Type 0} (site : Site) (p : CallPipeline (KillSwitch × B)) (file : File)
    (rest : List (Stage (KillSwitch × B))) (seconds : ℕ) (tool call_id : String) (caller : Caller)
    (work : Work (KillSwitch × B)) (ks : KillSwitch) (b : B) (t : Trace) (st : KillState)
    (which : String)
    → active p ≡ none
    → p.stages ≡ kill_stage file ∷ rest
    → (state ks file).answer ≡ ok st
    → disabled st p.surface ≡ some which
    → let (reply, w', _) = run site p seconds tool call_id caller work (ks, b) t in
      ((m : ErrorMeta) × (reply ≡ ok (failed m)) × (m.reason ≡ some "surface_disabled"))
      × (w' ≡ ((state ks file).switch, b))
unfolding run settle classify error_result tag reasons set_defaults
run_stopped site p file rest seconds tool call_id caller work ks b t st which off begins read stop =
    rw
      (
        attempt_first site p (kill_stage file) rest work (new_scope p tool call_id caller) (ks, b) _
            _ off begins
            (kill_stage_stopped file (new_scope p tool call_id caller) ks b st which read stop),
        run,
      )
      ((_, refl, refl), refl)

-- On a surface with no policy that is on and with the kill switch's stage first: if the switch
-- reads a state in which the surface is not stopped and the caller is blocked, the caller is told
-- so, nothing behind the stage is reached, and their subject, which is what the kill switch's file
-- holds, is not in the log line of the call.
pub run-blocked_hidden :
    {B : Type 0} (site : Site) (p : CallPipeline (KillSwitch × B)) (file : File)
    (rest : List (Stage (KillSwitch × B))) (seconds : ℕ) (tool call_id : String) (caller : Caller)
    (work : Work (KillSwitch × B)) (ks : KillSwitch) (b : B) (t : Trace) (st : KillState)
    → active p ≡ none
    → p.stages ≡ kill_stage file ∷ rest
    → (state ks file).answer ≡ ok st
    → disabled st p.surface ≡ none
    → blocked st caller ≡ true
    → let (reply, w', t') = run site p seconds tool call_id caller work (ks, b) t in
      ((m : ErrorMeta) × (reply ≡ ok (failed m)) × (m.reason ≡ some "caller_blocked"))
      × (w' ≡ ((state ks file).switch, b))
      × ((l : LogLine) × (t'.log ≡ l ∷ t.log) × (l.subject ≡ none) × (l.outcome ≡ "refused"))
unfolding run settle classify error_result tag reasons set_defaults record_call
run-blocked_hidden site p file rest seconds tool call_id caller work ks b t st off begins read on
      is_blocked =
    rw
      (
        attempt_first site p (kill_stage file) rest work (new_scope p tool call_id caller) (ks, b) _
            _ off begins
            (kill_stage-blocked file (new_scope p tool call_id caller) ks b st read on is_blocked),
        run,
      )
      ((_, refl, refl), refl, (_, refl, refl, refl))
