-- ===== src/Auth/Counted.antt =====
-- The refusals that are counted.
pub mod Quiet
use beherouter.Prelude.{
  String, ◌≡◌, refl, ap, ◌∙◌, subst, Bool, true, false, Option, none, some, List, [], ◌∷◌, ◌++◌,
  Dict, elem, is_some, ◌===◌, if◌then◌else◌, arith,
}
use beherouter.Errors.{Exc, Result, ok, raise, >>=-eq-ok}
use beherouter.Identity.Request.{AccessToken}
use beherouter.Auth.{
  Slot, AuthState, Verifier, Verdict, Jwt, Text, OidcConfig, or_next, opened, slot_of, reason_or,
  noted, closed, seen, auth_mode, from_env, oidc_config, reason_of, log_line, log_all,
  shared_verifier, jwt_verifier, any_verifier, observed, build_verifier, shared_only, oidc_only,
  either,
}
use beherouter.Auth.Counted.Quiet.{
  reasons, is_known, IsQuiet, AllQuiet, shared-AllQuiet, jwt-AllQuiet, either-AllQuiet,
}

-- What the observer leaves: the refusals that were counted, and the reason in a slot that was open.
pub record IsCounted (s : AuthState) (x : Verdict) : Type 0 where
  pub accepted : (found : AccessToken) → x.0 ≡ ok (some found) → x.1.rejections ≡ s.rejections
  pub failed : (e : Exc) → x.0 ≡ raise e → x.1.rejections ≡ s.rejections
  pub refused :
      x.0 ≡ ok none
      → (reason : String) × (elem reason reasons ≡ true)
        × (x.1.rejections ≡ s.rejections ++ ((reason, (slot_of s.slot).surface) ∷ []))
        × (is_some s.slot ≡ true → (slot_of x.1.slot).reason ≡ some reason)

opened-surface : (o : Option Slot) → (opened o).surface ≡ (slot_of o).surface
opened-surface none = refl
opened-surface (some slot) = refl

opened-known : (o : Option Slot) → is_known (opened o).reason ≡ true
opened-known none = refl
opened-known (some slot) = refl

reason_or-known : (o : Option String) → is_known o ≡ true → elem (reason_or o) reasons ≡ true
reason_or-known none k = refl
reason_or-known (some r) k = k

noted_there :
    (o : Option Slot) (r : String) (slot : Slot)
    → is_some o ≡ true
    → (slot_of (closed o (noted (some r) (some slot)))).reason ≡ some r
noted_there none r slot h = cc
noted_there (some _) r slot h = refl

refusal :
    (s t : AuthState)
    → IsQuiet (opened s.slot) s t
    → (reason : String) × (elem reason reasons ≡ true)
      × ((seen s.slot (ok none, t)).1.rejections
          ≡ s.rejections ++ ((reason, (slot_of s.slot).surface) ∷ []))
      × (is_some s.slot ≡ true → (slot_of (seen s.slot (ok none, t)).1.slot).reason ≡ some reason)
refusal s t q =
    let (slot, e, f, k) = q.left in
    (
      reason_or slot.reason,
      reason_or-known slot.reason k,
      rw (e, q.uncounted)
          (ap (λ x. s.rejections ++ ((reason_or slot.reason, x) ∷ [])) (f ∙ opened-surface s.slot)),
      λ h. rw e (noted_there s.slot (reason_or slot.reason) slot h),
    )

seen-IsCounted :
    (s : AuthState) (x : Verdict) → IsQuiet (opened s.slot) s x.1 → IsCounted s (seen s.slot x)
seen-IsCounted s (ok (some found), t) q = record {
  accepted = λ f h. q.uncounted;
  failed = λ e h. cc;
  refused = λ h. cc;
}
seen-IsCounted s (raise e, t) q = record {
  accepted = λ f h. cc;
  failed = λ e h. q.uncounted;
  refused = λ h. cc;
}
seen-IsCounted s (ok none, t) q = record {
  accepted = λ f h. cc;
  failed = λ e h. cc;
  refused = λ h. refusal s t q;
}

observed-IsCounted :
    (v : Verifier)
    → AllQuiet v
    → (token : String) (s : AuthState) → IsCounted s (observed v token s)
unfolding observed
observed-IsCounted v q token s =
    let inner =
      q token (opened s.slot) (record s { slot = some (opened s.slot) }) refl
        (opened-known s.slot) in
    seen-IsCounted s (v token (record s { slot = some (opened s.slot) }))
      (record { uncounted = inner.uncounted; left = inner.left })

ok-AllQuiet : (x v : Verifier) → AllQuiet x → ◌≡◌ {A = Result Verifier} (ok x) (ok v) → AllQuiet v
ok-AllQuiet x v q h = subst (λ u. AllQuiet u) {x = x} (ok_eq x v h) q
  where
    ok_eq : (x v : Verifier) → ◌≡◌ {A = Result Verifier} (ok x) (ok v) → x ≡ v
    ok_eq x v h = cc h

module _ (t : Text) (jwt : OidcConfig → Jwt) (strict : Bool) (env : Dict String) where
  mode-AllQuiet :
      (v : Verifier) (sh oi : Bool)
      → (if sh
          then shared_only t jwt strict env
          else if oi
          then oidc_only t jwt strict env
          else either t jwt strict env)
        ≡ ok v
      → AllQuiet v
  mode-AllQuiet v true oi h =
      let (e, _, g) = >>=-eq-ok (from_env strict env) _ h in
      ok-AllQuiet (shared_verifier e) v (shared-AllQuiet e) g
  mode-AllQuiet v false true h =
      let (c, _, g) = >>=-eq-ok (oidc_config t env) _ h in
      ok-AllQuiet (jwt_verifier (jwt c)) v (jwt-AllQuiet (jwt c)) g
  mode-AllQuiet v false false h =
      let (e, _, g) = >>=-eq-ok (from_env strict env) _ h in
      let (c, _, g') = >>=-eq-ok (oidc_config t env) _ g in
      ok-AllQuiet (any_verifier (shared_verifier e ∷ jwt_verifier (jwt c) ∷ [])) v
        (either-AllQuiet (shared_verifier e) (jwt_verifier (jwt c)) (shared-AllQuiet e)
          (jwt-AllQuiet (jwt c)))
        g'

  -- Around every verifier that is built, a token that is refused is counted once, however many verifiers
  -- it went through, under a known reason and the request's surface, and an open slot then holds that
  -- reason. A token that is accepted, or whose check raises, is not counted.
  pub observed-counts :
      (v : Verifier)
      → build_verifier t jwt strict env ≡ ok v
      → (token : String) (s : AuthState) → IsCounted s (observed v token s)
  unfolding build_verifier
  observed-counts v h token s =
      let (mode, _, k) = >>=-eq-ok (auth_mode t env) _ h in
      observed-IsCounted v (mode-AllQuiet v (mode === "shared") (mode === "oidc") k) token s
