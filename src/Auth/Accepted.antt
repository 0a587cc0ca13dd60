-- ===== src/Auth/Accepted.antt =====
-- Which tokens the gateway accepts.
pub mod Modes
use beherouter.Prelude.{
  String, ◌≡◌, refl, ap, sym, ◌∙◌, Bool, true, false, not, ◌&&◌, Option, none, some, [], ◌∷◌, Dict,
  is_empty, ◌===◌, if◌then◌else◌, arith, eq_iff, Bool-cases, inl, inr,
}
use beherouter.Errors.{Exc, Result, ok, raise, ◌>>=◌, type_error, >>=-eq-ok}
use beherouter.Digest.{is_ascii, compare_digest}
use beherouter.Identity.Request.{AccessToken}
use beherouter.Auth.{
  AuthState, Verifier, Verdict, or_next, shared_only, oidc_only, either, Jwt, Text, OidcConfig, var,
  auth_mode, from_env, oidc_config, token_ok, shared_verifier, jwt_verifier, any_verifier,
  build_verifier, shared_token, some_text,
}
use beherouter.Auth.Accepted.Modes.{
  secret, is_shared, by_jwt, expected, from_env-eq_ok, shared-found, needed, shared-raises,
  jwt-found, either-found,
}

module _ (t : Text) (jwt : OidcConfig → Jwt) (strict : Bool) (env : Dict String) where
  same_verifier :
      (x v : Verifier) (token : String) (s : AuthState)
      → ◌≡◌ {A = Result Verifier} (ok x) (ok v)
      → (v token s).0 ≡ (x token s).0
  same_verifier x v token s h = cc h

  module _ (v : Verifier) (mode token : String) (s : AuthState) (a : is_ascii token ≡ true)
      (b : is_ascii (secret t jwt strict env) ≡ true) where
    in_mode :
        (sh oi : Bool)
        → (mode === "shared") ≡ sh
        → (mode === "oidc") ≡ oi
        → (if sh
            then shared_only t jwt strict env
            else if oi
            then oidc_only t jwt strict env
            else either t jwt strict env)
          ≡ ok v
        → (v token s).0 ≡ (
            if not oi && is_shared t jwt strict env token
            then ok (some (shared_token token))
            else if sh
            then ok none
            else by_jwt t jwt strict env token)
    in_mode true true m n h =
        absurd
          (ground (arith, m, n, eq_iff mode "shared", eq_iff mode "oidc", eq_iff "shared" "oidc"))
    in_mode true false m n h =
        let (e, f, g) = >>=-eq-ok (from_env strict env) _ h in
        same_verifier (shared_verifier e) v token s g
        ∙ ap (λ x. x.0) (shared-found t jwt strict env e token s f a b)
        ∙ ground arith
    in_mode false true m n h =
        let (c, f, g) = >>=-eq-ok (oidc_config t env) _ h in
        same_verifier (jwt_verifier (jwt c)) v token s g ∙ jwt-found t jwt strict env c token s f
    in_mode false false m n h =
        let (e, f, g) = >>=-eq-ok (from_env strict env) _ h in
        let (c, f', g') = >>=-eq-ok (oidc_config t env) _ g in
        same_verifier (any_verifier (shared_verifier e ∷ jwt_verifier (jwt c) ∷ [])) v token s g'
        ∙ either-found t jwt strict env e c token s f f' a b

  -- The verifier of a mode.
  abbrev of_mode : String → Result Verifier
  of_mode mode =
      if mode === "shared"
      then shared_only t jwt strict env
      else if mode === "oidc"
      then oidc_only t jwt strict env
      else either t jwt strict env

  picked :
      (v : Verifier) (mode : String)
      → auth_mode t env ≡ ok mode
      → build_verifier t jwt strict env ≡ ok v
      → of_mode mode ≡ ok v
  unfolding build_verifier
  picked v mode m h = ap (λ r. r >>= of_mode) (sym m) ∙ h

  -- Where the mode has the shared token, what is built begins with its verifier.
  first_of :
      (v : Verifier) (mode : String) (token : String) (s : AuthState)
      → (mode === "oidc") ≡ false
      → of_mode mode ≡ ok v
      → (e : Option String) × (from_env strict env ≡ ok e)
        × ((x : Exc) → shared_verifier e token s ≡ (raise x, s) → (v token s).0 ≡ raise x)
  first_of v mode token s n h = of_first (mode === "shared") (mode === "oidc") n h
    where
      of_first :
          (sh oi : Bool)
          → oi ≡ false
          → (if sh
              then shared_only t jwt strict env
              else if oi
              then oidc_only t jwt strict env
              else either t jwt strict env)
            ≡ ok v
          → (e : Option String) × (from_env strict env ≡ ok e)
            × ((x : Exc) → shared_verifier e token s ≡ (raise x, s) → (v token s).0 ≡ raise x)
      of_first sh true n h = cc
      of_first true false n h =
          let (e, f, g) = >>=-eq-ok (from_env strict env) _ h in
          (e, f, λ x r. same_verifier (shared_verifier e) v token s g ∙ ap (λ y. y.0) r)
      of_first false false n h =
          let (e, f, g) = >>=-eq-ok (from_env strict env) _ h in
          let (c, _, g') = >>=-eq-ok (oidc_config t env) _ g in
          (
            e,
            f,
            λ x r.
                same_verifier (any_verifier (shared_verifier e ∷ jwt_verifier (jwt c) ∷ [])) v token
                  s g'
                ∙ (unfold any_verifier in
                    ap (λ y. (or_next y (any_verifier (jwt_verifier (jwt c) ∷ []) token)).0) r),
          )

  build_verifier-expected :
      (v : Verifier) (mode : String)
      → auth_mode t env ≡ ok mode
      → build_verifier t jwt strict env ≡ ok v
      → (token : String) (s : AuthState) → is_ascii token ≡ true
      → is_ascii (secret t jwt strict env) ≡ true
      → (v token s).0 ≡ expected t jwt strict env mode token
  build_verifier-expected v mode m h token s a b =
      in_mode v mode token s a b (mode === "shared") (mode === "oidc") refl refl (picked v mode m h)

  build_verifier-strict :
      (v : Verifier) (mode : String)
      → strict ≡ true
      → auth_mode t env ≡ ok mode
      → (mode === "oidc") ≡ false
      → build_verifier t jwt strict env ≡ ok v
      → is_empty (secret t jwt strict env) ≡ false
  build_verifier-strict v mode st m n h =
      let (e, f, _) =
        first_of v mode "" (record { slot = none; rejections = []; logged = [] }) n
          (picked v mode m h) in
      needed t jwt strict env e st f

  build_verifier-raises :
      (v : Verifier) (mode : String) (token : String) (s : AuthState)
      → auth_mode t env ≡ ok mode
      → (mode === "oidc") ≡ false
      → build_verifier t jwt strict env ≡ ok v
      → is_empty (secret t jwt strict env) ≡ false
      → is_empty token ≡ false
      → (is_ascii (secret t jwt strict env) && is_ascii token) ≡ false
      → (v token s).0 ≡ raise type_error
  build_verifier-raises v mode token s m n h full given a =
      let (e, f, raises) = first_of v mode token s n (picked v mode m h) in
      raises type_error (shared-raises t jwt strict env e token s f full given a)

  -- Every verifier that is built says of an ASCII token what its mode says of it, if the shared token is
  -- ASCII: the shared token is accepted where the mode has it, and any other is as the JWT verifier
  -- says where the mode has that, and refused otherwise. A gateway that must have a shared token does
  -- not boot without one where its mode uses it. There a token is not refused but raises a `TypeError`
  -- if it or the shared one is not ASCII and neither is empty.
  pub build_verifier-IsExact :
      (v : Verifier) (mode : String)
      → auth_mode t env ≡ ok mode
      → build_verifier t jwt strict env ≡ ok v
      → ((token : String) (s : AuthState)
          → is_ascii token ≡ true
          → is_ascii (secret t jwt strict env) ≡ true
          → (v token s).0 ≡ expected t jwt strict env mode token)
        × (strict ≡ true → (mode === "oidc") ≡ false → is_empty (secret t jwt strict env) ≡ false)
        × ((token : String) (s : AuthState)
            → (mode === "oidc") ≡ false
            → is_empty (secret t jwt strict env) ≡ false
            → is_empty token ≡ false
            → (is_ascii (secret t jwt strict env) && is_ascii token) ≡ false
            → (v token s).0 ≡ raise type_error)
  build_verifier-IsExact v mode m h = (
    build_verifier-expected v mode m h,
    λ st n. build_verifier-strict v mode st m n h,
    λ token s n full given a. build_verifier-raises v mode token s m n h full given a,
  )
