-- ===== src/Auth/Accepted/Modes.antt =====
-- auth.py: what a mode says of a token, and the verifiers that it is built of.
use beherouter.Prelude.{
  String, ◌≡◌, refl, ap, ◌∙◌, Bool, true, false, not, ◌&&◌, Option, none, some, [], ◌∷◌, Dict,
  is_empty, ◌===◌, if◌then◌else◌, arith, eq_iff, Bool-cases, inl, inr,
}
use beherouter.Errors.{Result, ok, raise, type_error}
use beherouter.Digest.{is_ascii, compare_digest}
use beherouter.Identity.Request.{AccessToken}
use beherouter.Auth.{
  AuthState, Verdict, or_next, Jwt, Text, OidcConfig, var, from_env, oidc_config, token_ok,
  shared_verifier, jwt_verifier, any_verifier, shared_token, some_text,
}

module _ (t : Text) (jwt : OidcConfig → Jwt) (strict : Bool) (env : Dict String) where
  abbrev pub secret : String
  secret = var "BEHEROUTER_GATEWAY_TOKEN" env

  -- Whether a token is the gateway's shared one.
  abbrev pub is_shared : String → Bool
  is_shared token = not (is_empty secret) && not (is_empty token) && (token === secret)

  abbrev pub by_jwt : String → Result (Option AccessToken)
  by_jwt token = elim (oidc_config t env) [ ok c ↦ (jwt c).found token | raise e ↦ raise e ]

  -- What a mode says of a token: the shared one is accepted where the mode has it, any other is as the
  -- JWT verifier says where the mode has that.
  abbrev pub expected : String → String → Result (Option AccessToken)
  expected mode token =
      if not (mode === "oidc") && is_shared token
      then ok (some (shared_token token))
      else if mode === "shared"
      then ok none
      else by_jwt token

  pub from_env-eq_ok : (e : Option String) → from_env strict env ≡ ok e → e ≡ some_text secret
  unfolding from_env
  from_env-eq_ok e h = ground (arith, h)

  token_ok-is_shared :
      (token : String)
      → is_ascii token ≡ true
      → is_ascii secret ≡ true
      → token_ok (some_text secret) token ≡ ok (is_shared token)
  unfolding token_ok compare_digest
  token_ok-is_shared token a b = elim (Bool-cases (is_empty secret)) [
    | inl e ↦ rw e refl
    | inr e ↦ rw (e, a, b) (ground (arith, eq_iff token secret, eq_iff secret token))
  ]

  pub shared-found :
      (e : Option String) (token : String) (s : AuthState)
      → from_env strict env ≡ ok e
      → is_ascii token ≡ true
      → is_ascii secret ≡ true
      → shared_verifier e token s
        ≡ (ok (if is_shared token then some (shared_token token) else none), s)
  unfolding shared_verifier
  shared-found e token s h a b = rw (from_env-eq_ok e h, token_ok-is_shared token a b) refl

  pub needed :
      (e : Option String) → strict ≡ true → from_env strict env ≡ ok e → is_empty secret ≡ false
  unfolding from_env
  needed e st h = ground (arith, st, h)

  pub shared-raises :
      (e : Option String) (token : String) (s : AuthState)
      → from_env strict env ≡ ok e
      → is_empty secret ≡ false
      → is_empty token ≡ false
      → (is_ascii secret && is_ascii token) ≡ false
      → shared_verifier e token s ≡ (raise type_error, s)
  unfolding shared_verifier token_ok compare_digest
  shared-raises e token s h full given a = rw (from_env-eq_ok e h) (ground (arith, full, given, a))

  pub jwt-found :
      (c : OidcConfig) (token : String) (s : AuthState)
      → oidc_config t env ≡ ok c
      → (jwt_verifier (jwt c) token s).0 ≡ by_jwt token
  unfolding jwt_verifier
  jwt-found c token s h = rw (h, by_jwt) refl

  pub either-found :
      (e : Option String) (c : OidcConfig) (token : String) (s : AuthState)
      → from_env strict env ≡ ok e
      → oidc_config t env ≡ ok c
      → is_ascii token ≡ true
      → is_ascii secret ≡ true
      → (any_verifier (shared_verifier e ∷ jwt_verifier (jwt c) ∷ []) token s).0
        ≡ (if is_shared token then ok (some (shared_token token)) else by_jwt token)
  unfolding any_verifier
  either-found e c token s h k a b =
      ap (λ x. (or_next x (any_verifier (jwt_verifier (jwt c) ∷ []) token)).0)
        (shared-found e token s h a b)
      ∙ second (is_shared token)
    where
      last :
          (x : Verdict) → x.0 ≡ by_jwt token → (or_next x (any_verifier [] token)).0 ≡ by_jwt token
      last (ok none, s') h = h
      last (ok (some found), s') h = h
      last (raise x, s') h = h

      second :
          (yes' : Bool)
          → (or_next
              (ok (if yes' then some (shared_token token) else none), s)
              (any_verifier (jwt_verifier (jwt c) ∷ []) token)).0
            ≡ (if yes' then ok (some (shared_token token)) else by_jwt token)
      second true = refl
      second false = last (jwt_verifier (jwt c) token s) (jwt-found c token s k)
