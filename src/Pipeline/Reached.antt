-- ===== src/Pipeline/Reached.antt =====
-- What stands between a call and the backend.
use beherouter.Prelude.{
  ℕ, ◌≡◌, refl, sym, ap, ◌∙◌, true, not, Option, none, some, map, arith, is_some, is_empty, inl,
  inr,
}
use beherouter.Data.{Value, Fields}
use beherouter.Errors.{Exc, Result, ok, raise, Result-cases}
use beherouter.Models.{ToolDescriptor}
use beherouter.Identity.Policy.{IdentityPolicy, CallIdentity, resolve, enabled, wanted_headers}
use beherouter.Identity.Policy.Gate.{Passes}
use beherouter.Identity.Policy.Complete.{authorise-Passes}
use beherouter.Outcomes.{Phase}
use beherouter.Pipeline.Scope.{CallScope}
use beherouter.Pipeline.{Site, CallPipeline, run_stages, identity_of, active, answered, run_execute}

-- What had to succeed before the backend gave `v`.
pub record IsServed {W : Type 0} (site : Site) (p : CallPipeline W) (scope : CallScope)
    (d : ToolDescriptor) (args : Fields) (w : W) (v : Value) : Type 0 where
  pub reached : W
  pub staged :
      run_stages (map (λ s. s (record scope { phase = Phase.gate }) d args) p.tool_stages) w
      ≡ (ok tt, reached)
  pub identity : Option CallIdentity
  pub made : identity_of site (active p) ≡ ok identity
  pub gave : (p.executor p.call_timeout d.verb args identity reached).0 ≡ ok v
  pub passes :
      (q : IdentityPolicy)
      → active p ≡ some q
      → Passes site.host q (site.live (wanted_headers q))
        × (is_some identity ≡ not (is_empty q.mode))

unit_is : (u : Unit {0}) → u ≡ tt
unit_is tt = refl

active-enabled :
    {W : Type 0} (p : CallPipeline W) (q : IdentityPolicy) → active p ≡ some q → enabled q ≡ true
active-enabled p q h = ground arith

identity_of-Passes :
    (site : Site) (q : IdentityPolicy) (r : Option CallIdentity)
    → enabled q ≡ true
    → identity_of site (some q) ≡ ok r
    → Passes site.host q (site.live (wanted_headers q)) × (is_some r ≡ not (is_empty q.mode))
unfolding resolve
identity_of-Passes site q r e h =
    authorise-Passes site.host site.map_env site.identity_map q (site.live (wanted_headers q)) r
      (ground arith)

ok≢raise : {A : Type 0} {a : A} {e : Exc} → ok a ≡ raise e → ⊥
ok≢raise h = cc

answered-ok : (limit : Option ℕ) (r : Result Value) (v : Value) → answered limit r ≡ ok v → r ≡ ok v
answered-ok none r v h = h
answered-ok (some l) (ok _) v h = h
answered-ok (some l) (raise Exc.timeout_error) v h = absurd (ok≢raise (sym h))
answered-ok (some l) (raise e) v h = h

-- The backend answers a call only after every per-tool stage let it through and the identity was
-- made; with a policy that is on, only for a caller who passes its gate, with an identity exactly when
-- the policy has a mode.
pub run_execute-IsServed :
    {W : Type 0} (site : Site) (p : CallPipeline W) (scope : CallScope) (d : ToolDescriptor)
    (args : Fields) (w : W) (v : Value)
    → (run_execute site p scope d args w).0 ≡ ok v
    → IsServed site p scope d args w v
unfolding run_execute
run_execute-IsServed site p scope d args w v h =
    let staged =
      run_stages (map (λ s. s (record scope { phase = Phase.gate }) d args) p.tool_stages) w in
    elim (Result-cases staged.0) [
      | inr (e, refused) ↦ absurd (ground arith)
      | inl (u, passed) ↦ elim (Result-cases (identity_of site (active p))) [
        | inr (e, refused) ↦ absurd (ground arith)
        | inl (ident, made) ↦ record {
          reached = staged.1;
          staged = ap (λ r. (r, staged.1)) (passed ∙ ap ok (unit_is u));
          identity = ident;
          made = made;
          gave = answered-ok p.call_timeout _ v (rw (passed, made, run_execute) at h);
          passes = λ q on. identity_of-Passes site q ident (active-enabled p q on) (rw on at made);
        }
      ]
    ]
