-- ===== src/Examples/Auth.antt =====
-- A gateway of the mode "both", whose shared token is "secret".
use beherouter.Prelude.{
  String, ℕ, ◌≡◌, refl, Bool, true, false, ◌&&◌, none, some, Option, List, [], ◌∷◌, Dict, map, all,
  select, is_empty, ◌===◌, split_at,
}
use beherouter.Errors.{ok, raise, type_error}
use beherouter.Digest.{is_ascii}
use beherouter.Auth.{
  Text, Jwt, OidcConfig, AuthState, Verifier, auth_mode, from_env, oidc_config, build_verifier,
  observed, any_verifier, shared_verifier, jwt_verifier,
}
use beherouter.Auth.Accepted.{build_verifier-IsExact}
use beherouter.Auth.Accepted.Modes.{expected, secret}
use beherouter.Auth.Counted.{IsCounted, observed-counts}
use beherouter.Auth.Middleware.{
  Message, start, body, rewrite, is_told, send_all, expired_body, challenge,
}
use beherouter.Auth.Middleware.Told.{
  passes, is_body, is_kept, is_replaced, new_headers, send_all-IsTold,
}

abbrev plain : Text
plain = record { strip = λ s. s; lower = λ s. s }

-- Every JWT has expired.
abbrev expired : OidcConfig → Jwt
expired c = record { found = λ token. ok none; lines = λ token. (false, "token expired") ∷ [] }

abbrev env : Dict String
env =
    ("BEHEROUTER_AUTH_MODE", "both")
    ∷ ("BEHEROUTER_GATEWAY_TOKEN", "secret")
    ∷ ("BEHEROUTER_OIDC_ISSUER", "issuer")
    ∷ ("BEHEROUTER_OIDC_AUDIENCE", "crm")
    ∷ ("BEHEROUTER_OIDC_JWKS_URI", "https://keys")
    ∷ []

abbrev config : OidcConfig
config = record {
  issuer = "issuer";
  audiences = "crm" ∷ [];
  jwks_uri = "https://keys";
  required_scopes = [];
}

abbrev both : Verifier
both = any_verifier (shared_verifier (some "secret") ∷ jwt_verifier (expired config) ∷ [])

mode_both : auth_mode plain env ≡ ok "both"
unfolding auth_mode
mode_both = refl

built : build_verifier plain expired true env ≡ ok both
unfolding build_verifier auth_mode from_env oidc_config split_at
built = refl

build_verifier-IsExact_example :
    ((token : String) (s : AuthState)
      → is_ascii token ≡ true
      → is_ascii (secret plain expired true env) ≡ true
      → (both token s).0 ≡ expected plain expired true env "both" token)
    × (◌≡◌ {A = Bool} true true
        → ◌≡◌ {A = Bool} ("both" === "oidc") false
        → is_empty (secret plain expired true env) ≡ false)
    × ((token : String) (s : AuthState)
        → ("both" === "oidc") ≡ false
        → is_empty (secret plain expired true env) ≡ false
        → is_empty token ≡ false
        → (is_ascii (secret plain expired true env) && is_ascii token) ≡ false
        → (both token s).0 ≡ raise type_error)
build_verifier-IsExact_example =
    build_verifier-IsExact plain expired true env both "both" mode_both built

abbrev asked : AuthState
asked = record {
  slot = some (record { surface = "crm"; reason = none });
  rejections = [];
  logged = [];
}

observed-counts_example : IsCounted asked (observed both "stale" asked)
observed-counts_example = observed-counts plain expired true env both built "stale" asked

send_all-IsTold_example :
    ((ms : List (Option String × Message))
      → all (passes (λ s. s)) ms ≡ true
      → send_all (λ s. s) false ms ≡ map (λ p. p.1) ms)
    × ((r : Option String) (status : ℕ) (headers : List (String × String))
          (ms : List (Option String × Message))
        → is_told r status ≡ true
        → all (is_body (λ s. s)) ms ≡ true
        → (h : List (String × String)) × (send_all (λ s. s) false ((r, start status headers) ∷ ms)
            ≡ start status h ∷ body expired_body ∷ [])
          × (select (is_kept (λ s. s)) h ≡ select (is_kept (λ s. s)) headers)
          × (select (is_replaced (λ s. s)) h
              ≡ new_headers (λ s. s) (rewrite (λ s. s) headers challenge).0))
send_all-IsTold_example = send_all-IsTold (λ s. s) refl refl refl
