-- ===== src/Auth.antt =====
-- auth.py: the gateway's verifiers of tokens, and why a token was refused. FastMCP's verifier of JWTs is
-- an argument: what it finds, and the lines that it logs. The environment is an argument, and so are
-- `str.strip` and the split at commas (`Host` has `str.lower`). `Middleware` is the rewriting of a 401.
pub mod Accepted
pub mod Counted
pub mod Middleware
use beherouter.Prelude.{
  String, Bool, true, false, not, ◌&&◌, ◌||◌, Option, none, some, List, [], ◌∷◌, ◌++◌, Dict, lookup,
  elem, select, map, is_empty, is_nil, is_some, behind, split_at, ◌===◌, if◌then◌else◌,
}
use beherouter.Data.{Fields, end}
use beherouter.Errors.{Exc, Result, ok, raise, ◌>>=◌, ◌>>◌, check, require, fail, usage_error}
use beherouter.Digest.{compare_digest}
use beherouter.Identity.{Host}
use beherouter.Identity.Request.{AccessToken, shared_client_id}

-- The slot of a request, which `_SLOT` holds.
pub record Slot : Type 0 where
  pub surface : String
  pub reason : Option String

-- The slot of the request, if one is open; the refusals that were counted, by reason and surface; and
-- the lines that were logged, each with whether it is a warning.
pub record AuthState : Type 0 where
  pub slot : Option Slot
  pub rejections : List (String × String)
  pub logged : List (Bool × String)

-- `verify_token`
abbrev pub Verifier : Type 0
Verifier = String → AuthState → Result (Option AccessToken) × AuthState

-- `needle in text`
pub contains : String → String → Bool
contains n String.[] = is_empty n
contains n (String.◌∷◌ c s) = is_some (behind n (String.◌∷◌ c s)) || contains n s

abbrev log_reasons : Dict String
log_reasons =
    ("token expired", "expired")
    ∷ ("issuer mismatch", "issuer")
    ∷ ("audience mismatch", "audience")
    ∷ ("missing required scopes", "scope")
    ∷ []

abbrev first_in : String → Dict String → Option String
first_in text [] = none
first_in text ((needle, r) ∷ more) =
    let rest = first_in text more in if contains needle text then some r else rest

-- `_RejectionLog._reason`
unfoldable pub reason_of : String → Option String
unfolding contains
reason_of text = first_in text log_reasons

abbrev pub noted : Option String → Option Slot → Option Slot
noted (some r) (some slot) = some (record slot { reason = some r })
noted _ slot = slot

abbrev is_expired : Option String → Bool
is_expired none = false
is_expired (some r) = r === "expired"

-- A line of the JWT verifier, which is a warning or for information.
unfoldable pub log_line : Bool × String → AuthState → AuthState
log_line (warning, text) s =
    let reason = reason_of text in
    record s {
      slot = noted reason s.slot;
      logged = s.logged ++ ((warning || is_expired reason, text) ∷ []);
    }

abbrev pub log_all : List (Bool × String) → AuthState → AuthState
log_all [] s = s
log_all (line ∷ lines) s = log_all lines (log_line line s)

-- What FastMCP's `JWTVerifier` makes of a token.
pub record Jwt : Type 0 where
  pub found : String → Result (Option AccessToken)
  pub lines : String → List (Bool × String)

-- `GatewayJWTVerifier`
unfoldable pub jwt_verifier : Jwt → Verifier
unfolding log_line
jwt_verifier jwt token s = (jwt.found token, log_all (jwt.lines token) s)

-- `token_ok`
unfoldable pub token_ok : Option String → String → Result Bool
token_ok none presented = ok false
token_ok (some expected) presented =
    if is_empty expected || is_empty presented then ok false else compare_digest expected presented

abbrev pub shared_token : String → AccessToken
shared_token token = record { client_id = shared_client_id; token = token; claims = end }

-- `SharedTokenVerifier.verify_token`
unfoldable pub shared_verifier : Option String → Verifier
unfolding token_ok
shared_verifier expected token s =
    (token_ok expected token >>= (λ same. ok (if same then some (shared_token token) else none)), s)

abbrev pub Verdict : Type 0
Verdict = Result (Option AccessToken) × AuthState

abbrev pub or_next : Verdict → (AuthState → Verdict) → Verdict
or_next (ok none, s) next = next s
or_next (ok (some found), s) next = (ok (some found), s)
or_next (raise e, s) next = (raise e, s)

-- `CompositeVerifier.verify_token`
unfoldable pub any_verifier : List Verifier → Verifier
any_verifier [] token s = (ok none, s)
any_verifier (v ∷ vs) token s = or_next (v token s) (any_verifier vs token)

abbrev pub opened : Option Slot → Slot
opened none = record { surface = ""; reason = none }
opened (some slot) = record slot { reason = none }

abbrev pub slot_of : Option Slot → Slot
slot_of none = record { surface = ""; reason = none }
slot_of (some slot) = slot

abbrev pub reason_or : Option String → String
reason_or none = "invalid"
reason_or (some r) = r

-- The slot that was open before stays so, with what was noted in it.
abbrev pub closed : Option Slot → Option Slot → Option Slot
closed none slot = none
closed (some _) slot = slot

abbrev pub counted : Slot → AuthState → AuthState
counted slot s = record s {
  rejections = s.rejections ++ ((reason_or slot.reason, slot.surface) ∷ []);
}

-- What the observer makes of a verdict, where this slot was open before.
abbrev pub seen : Option Slot → Verdict → Verdict
seen slot (raise e, t) = (raise e, record t { slot = closed slot t.slot })
seen slot (ok (some found), t) = (ok (some found), record t { slot = closed slot t.slot })
seen slot (ok none, t) = (
  ok none,
  counted (slot_of t.slot)
      (record t { slot = closed slot (noted (some (reason_or (slot_of t.slot).reason)) t.slot) }),
)

-- `ObservedVerifier.verify_token`
unfoldable pub observed : Verifier → Verifier
observed inner token s = seen s.slot (inner token (record s { slot = some (opened s.slot) }))

-- The environment: unset reads as empty.
abbrev pub var : String → Dict String → String
var k env = elim (lookup k env) [ none ↦ "" | some s ↦ s ]

abbrev or_else : String → String → String
or_else s d = if is_empty s then d else s

pub record Text : Type 0 where
  pub strip : String → String
  pub lower : String → String

abbrev auth_modes : List String
auth_modes = "shared" ∷ "oidc" ∷ "both" ∷ []

unfoldable pub auth_mode : Text → Dict String → Result String
auth_mode t env =
    let mode = t.lower (t.strip (or_else (var "BEHEROUTER_AUTH_MODE" env) "shared")) in
    if elem mode auth_modes then ok mode else fail usage_error

abbrev pub some_text : String → Option String
some_text s = if is_empty s then none else some s

-- `SharedTokenVerifier.from_env`: the expected token.
unfoldable pub from_env : Bool → Dict String → Result (Option String)
from_env strict env =
    let token = some_text (var "BEHEROUTER_GATEWAY_TOKEN" env) in
    elim token [ none ↦ (if strict then fail usage_error else ok none) | some s ↦ ok (some s) ]

pub record OidcConfig : Type 0 where
  pub issuer : String
  pub audiences : List String
  pub jwks_uri : String
  pub required_scopes : List String

-- `[s.strip() for s in text.split(",") if s.strip()]`
abbrev pub items : Text → String → List String
items t s = map t.strip (select (λ x. not (is_empty (t.strip x))) (split_at b',' s))

-- `oidc_verifier`: its settings. An audience that holds no name gives an `IndexError`, a `KeyError` here.
unfoldable pub oidc_config : Text → Dict String → Result OidcConfig
oidc_config t env = do
  require (not (is_empty (var "BEHEROUTER_OIDC_ISSUER" env)))
  require (not (is_empty (var "BEHEROUTER_OIDC_AUDIENCE" env)))
  require (not (is_empty (var "BEHEROUTER_OIDC_JWKS_URI" env)))
  let audiences = items t (var "BEHEROUTER_OIDC_AUDIENCE" env)
  check (not (is_nil audiences)) Exc.key_error
  ok (record {
    issuer = var "BEHEROUTER_OIDC_ISSUER" env;
    audiences = audiences;
    jwks_uri = var "BEHEROUTER_OIDC_JWKS_URI" env;
    required_scopes = items t (var "BEHEROUTER_OIDC_REQUIRED_SCOPES" env);
  })

module _ (t : Text) (jwt : OidcConfig → Jwt) (strict : Bool) (env : Dict String) where
  abbrev pub shared_only : Result Verifier
  shared_only = do expected ← from_env strict env; ok (shared_verifier expected)

  abbrev pub oidc_only : Result Verifier
  oidc_only = do c ← oidc_config t env; ok (jwt_verifier (jwt c))

  abbrev pub either : Result Verifier
  either = do
    expected ← from_env strict env
    c ← oidc_config t env
    ok (any_verifier (shared_verifier expected ∷ jwt_verifier (jwt c) ∷ []))

  -- `build_verifier`, given what a JWT verifier with some settings makes of tokens.
  unfoldable pub build_verifier : Result Verifier
  unfolding auth_mode from_env oidc_config
  build_verifier = do
    mode ← auth_mode t env
    if mode === "shared" then shared_only else if mode === "oidc" then oidc_only else either

-- `roles_claim`
pub roles_claim : Text → Dict String → String
roles_claim t env = t.strip (var "BEHEROUTER_OIDC_ROLES_CLAIM" env)
