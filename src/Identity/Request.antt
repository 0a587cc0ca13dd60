-- ===== src/Identity/Request.antt =====
-- identity.py: the live request as a `RequestIdentity`. FastMCP's request context is a parameter:
-- the headers that `get_http_headers` gives (in lower case) and the verified token, if there is one.
pub mod AllowList
use beherouter.Prelude.{
  String, Bool, true, false, Option, none, some, List, [], ◌∷◌, Dict, lookup, elem, map,
  select_keys, ◌===◌, if◌then◌else◌,
}
use beherouter.Data.{Value, Fields, end, to_dict, is_true}
use beherouter.Identity.{Host, RequestIdentity}

-- FastMCP's `AccessToken`.
pub record AccessToken : Type 0 where
  pub client_id : String
  pub token : String
  pub claims : Fields

abbrev pub shared_client_id : String
shared_client_id = "beherouter-shared"

abbrev subject_claims : List String
subject_claims = "sub" ∷ "preferred_username" ∷ "email" ∷ []

-- The first of the claims that names the caller.
pub subject_of : Host → List String → Dict Value → Option String
subject_of host [] claims = none
subject_of host (name ∷ names) claims = elim (lookup name claims) [
  | none ↦ subject_of host names claims
  | some v ↦
      (let later = subject_of host names claims in if is_true v then some (host.show v) else later)
]

unfoldable pub identity_from_token : Host → AccessToken → Dict String → RequestIdentity
unfolding subject_of
identity_from_token host token headers = record {
  shared = token.client_id === shared_client_id;
  subject = subject_of host subject_claims (to_dict token.claims);
  claims = token.claims;
  raw_token = some token.token;
  headers = headers;
}

abbrev of_token : Host → Option AccessToken → Dict String → RequestIdentity
of_token host none headers = record {
  shared = false;
  subject = none;
  claims = end;
  raw_token = none;
  headers = headers;
}
of_token host (some token) headers = identity_from_token host token headers

-- The headers that are wanted and no others.
unfoldable pub request_identity :
    Host → Dict String → Option AccessToken → List String → RequestIdentity
unfolding identity_from_token
request_identity host sent token wanted =
    let lowered = map host.lower wanted in
    of_token host token (select_keys (λ k. elem k lowered) sent)
