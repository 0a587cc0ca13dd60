-- ===== src/Pipeline/Recorded.antt =====
-- What a call leaves behind: one observation, one audit line and one log line, of one kind.
use beherouter.Prelude.{
  ℕ, String, ◌≡◌, ◌≢◌, refl, subst, ◌∙◌, Bool, true, not, ◌&&◌, Option, none, some, [], ◌∷◌, map,
  Dict, lookup, arith, ◌===◌, ◌⊎◌, inl, inr, eq_iff, if◌then◌else◌,
}
use beherouter.Data.{Value, Fields}
use beherouter.Errors.{Exc, Result, ok, raise, cancelled, reasons}
use beherouter.Audit.{Caller, AuditLine}
use beherouter.Models.{ToolDescriptor}
use beherouter.Outcomes.{Phase, Outcome, ErrorMeta, classify}
use beherouter.Outcomes.Reasons.{classify-IsKnown}
use beherouter.Pipeline.Scope.{CallScope, Trace, Observation, LogLine, record_call}
use beherouter.Pipeline.{
  Site, CallPipeline, Work, finish, name_inner, effect, call, Reply, value, failed, run_stages,
  run_execute, run_work, attempt, new_scope, settle, run,
}

-- No value of a table is the text `s`.
lacks : String → Dict String → Bool
lacks s [] = true
lacks s ((k, v) ∷ d) = not (v === s) && lacks s d

lookup-lacks : (s k v : String) (d : Dict String) → lacks s d ≡ true → lookup k d ≡ some v → v ≢ s
unfolding lacks
lookup-lacks s k v [] h l = cc
lookup-lacks s k v ((j, w) ∷ d) h l = λ e. ground (arith, eq_iff w s, lookup-lacks s k v d)

classify_not_ok : (e : Exc) (phase : Phase) → (classify e phase).kind ≢ "ok"
unfolding reasons lacks
classify_not_ok e phase =
    let (r, _, l) = classify-IsKnown e phase in
    lookup-lacks "ok" r (classify e phase).kind reasons refl l

-- What of a scope no work changes.
head : CallScope → String × String × String × Caller
head s = (s.surface, s.tool, s.call_id, s.caller)

run_execute-head :
    {W : Type 0} (site : Site) (p : CallPipeline W) (scope : CallScope) (d : ToolDescriptor)
    (args : Fields) (w : W)
    → head (run_execute site p scope d args w).1 ≡ head scope
unfolding run_execute head
run_execute-head site p scope d args w = ground arith

run_work-head :
    {W : Type 0} (site : Site) (p : CallPipeline W) (work : Work W) (scope : CallScope) (w : W)
    → head (run_work site p work scope w).1 ≡ head scope
unfolding run_work head
run_work-head site p (finish r) scope w = refl
run_work-head site p (name_inner n k) scope w = run_work-head site p k _ w
run_work-head site p (effect f k) scope w = run_work-head site p (k w) scope (f w)
run_work-head site p (call d args k) scope w =
    run_work-head site p (k (run_execute site p scope d args w).0) _ _
    ∙ run_execute-head site p scope d args w

attempt-head :
    {W : Type 0} (site : Site) (p : CallPipeline W) (work : Work W) (scope : CallScope) (w : W)
    → head (attempt site p work scope w).1 ≡ head scope
unfolding attempt head
attempt-head site p work scope w = ground (
  arith,
  run_work-head site p work (record scope { phase = Phase.prepare })
      (run_stages (map (λ s. s scope) p.stages) w).1,
)

-- The reply to a call and what it left behind tell the same story.
pub record IsRecorded (audited : Bool) (tool call_id : String) (caller : Caller) (seconds : ℕ)
    (reply : Result Reply) (t t' : Trace) : Type 0 where
  pub kind : String
  pub answer :
      ((v : Value) × (reply ≡ ok (value v)) × (kind ≡ "ok"))
      ⊎ ((m : ErrorMeta) × (reply ≡ ok (failed m)) × (kind ≢ "ok"))
  pub observed :
      (o : Observation) × (t'.observed ≡ o ∷ t.observed) × (o.kind ≡ kind) × (o.seconds ≡ seconds)
  pub log :
      (l : LogLine) × (t'.log ≡ l ∷ t.log)
      × (l.outcome ≡ kind)
      × (l.tool ≡ tool)
      × (l.call_id ≡ call_id)
  pub audit :
      (a : AuditLine) × (t'.audit ≡ (if audited then a ∷ t.audit else t.audit))
      × (a.outcome.kind ≡ kind)
      × (a.tool ≡ tool)
      × (a.call_id ≡ call_id)
      × (a.caller ≡ caller)

record_call-IsRecorded :
    (audited : Bool) (mode : String) (s : CallScope) (o : Outcome) (f : Option Exc) (seconds : ℕ)
    (t : Trace) (reply : Result Reply)
    → ((v : Value) × (reply ≡ ok (value v)) × (o.kind ≡ "ok"))
      ⊎ ((m : ErrorMeta) × (reply ≡ ok (failed m)) × (o.kind ≢ "ok"))
    → IsRecorded audited s.tool s.call_id s.caller seconds reply t
        (record_call audited mode s o f seconds t)
unfolding record_call
record_call-IsRecorded audited mode s o f seconds t reply h = record {
  kind = o.kind;
  answer = h;
  observed = (_, refl, refl, refl);
  log = (_, refl, refl, refl, refl);
  audit = (_, refl, refl, refl, refl, refl);
}

settle-IsRecorded :
    {W : Type 0} (site : Site) (p : CallPipeline W) (seconds : ℕ) (r : Result Value) (s : CallScope)
    (t : Trace)
    → let (reply, t') = settle site p seconds r s t in
      ((reply ≡ raise cancelled) × (t' ≡ t))
      ⊎ IsRecorded p.audited s.tool s.call_id s.caller seconds reply t t'
unfolding settle
settle-IsRecorded site p seconds (ok v) s t =
    inr (record_call-IsRecorded p.audited _ s _ none seconds t _ (inl (v, refl, refl)))
settle-IsRecorded site p seconds (raise cancelled) s t = inl (refl, refl)
settle-IsRecorded site p seconds (raise e) s t = inr (
    record_call-IsRecorded p.audited _ s _ (some e) seconds t _
      (inr (_, refl, classify_not_ok e s.phase)))

-- A call that is not cancelled is answered, never raised, and leaves exactly one observation, one
-- log line and, if the audit is on, one audit line. All bear one kind, which is "ok" exactly when the
-- answer is a value; the observation bears the duration of the call, the two lines its tool and its id,
-- and the audit line its caller. Of a cancelled call nothing is left. So for every work, stage, policy
-- and backend.
pub run-IsRecorded :
    {W : Type 0} (site : Site) (p : CallPipeline W) (seconds : ℕ) (tool call_id : String)
    (caller : Caller) (work : Work W) (w : W) (t : Trace)
    → let (reply, _, t') = run site p seconds tool call_id caller work w t in
      ((reply ≡ raise cancelled) × (t' ≡ t))
      ⊎ IsRecorded p.audited tool call_id caller seconds reply t t'
unfolding run head
run-IsRecorded site p seconds tool call_id caller work w t =
    let (r, scope, w') = attempt site p work (new_scope p tool call_id caller) w in
    let same : head scope ≡ head (new_scope p tool call_id caller) = attempt-head site p work _ w in
    let (reply, t') = settle site p seconds r scope t in
    subst
      (λ h.
        ((reply ≡ raise cancelled) × (t' ≡ t))
        ⊎ IsRecorded p.audited h.1 h.2 h.3 seconds reply t t')
      same (settle-IsRecorded site p seconds r scope t)
