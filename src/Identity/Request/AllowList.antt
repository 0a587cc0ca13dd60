-- ===== src/Identity/Request/AllowList.antt =====
-- Only the headers that a surface maps can reach its backend.
use beherouter.Prelude.{
  String, ◌≡◌, ap, fun_ext, Option, none, some, Dict, lookup, elem, map, select_keys,
  lookup-select_keys, arith, if◌then◌else◌, true, Bool,
}
use beherouter.Errors.{ok}
use beherouter.Identity.{Host, RequestIdentity}
use beherouter.Identity.Request.{AccessToken, identity_from_token, request_identity}
use beherouter.Identity.Policy.{
  IdentityPolicy, IdentityMap, wanted_headers, client_header, collect, material, materialise,
  authorise, resolve, enabled, claim, header_text,
}

-- The two sets of headers agree on the names that the surface maps.
abbrev pub AgreeOn : Host → IdentityPolicy → Dict String → Dict String → Type 0
AgreeOn host p sent sent' =
    (k : String)
    → elem k (map host.lower (wanted_headers p)) ≡ true
    → lookup k sent ≡ lookup k sent'

with_headers : RequestIdentity → Dict String → RequestIdentity
with_headers req d = record req { headers = d }

module _ (host : Host) (env : Option String) (cf : IdentityMap) (p : IdentityPolicy)
    (req : RequestIdentity) (d d' : Dict String)
    (same : (k : String) → lookup k d ≡ lookup k d') where
  collect-same :
      collect (client_header host (record req { headers = d })) p.map
      ≡ collect (client_header host (record req { headers = d' })) p.map
  unfolding client_header
  collect-same = ap (λ f. collect f p.map) (fun_ext λ name. ap header_text (same (host.lower name)))

  authorise-same :
      authorise host env cf p (record req { headers = d })
      ≡ authorise host env cf p (record req { headers = d' })
  unfolding authorise materialise material claim
  authorise-same = rw collect-same

module _ (host : Host) (p : IdentityPolicy) (sent sent' : Dict String)
    (agree : AgreeOn host p sent sent') where
  wanted : String → Bool
  wanted k = elem k (map host.lower (wanted_headers p))

  select-same :
      (k : String) → lookup k (select_keys wanted sent) ≡ lookup k (select_keys wanted sent')
  unfolding wanted
  select-same k =
      ground (arith, lookup-select_keys wanted k sent, lookup-select_keys wanted k sent', agree k)

-- What a client sends in a header that the surface does not map has no influence on the identity
-- that its call is served with, nor on whether it is served: two requests with the same token whose
-- headers agree on the mapped names give the same result.
pub resolve-allow_list :
    (host : Host) (env : Option String) (cf : IdentityMap) (p : IdentityPolicy)
    (token : Option AccessToken) (sent sent' : Dict String)
    → AgreeOn host p sent sent'
    → resolve host env cf (request_identity host sent token) p
      ≡ resolve host env cf (request_identity host sent' token) p
unfolding resolve request_identity identity_from_token wanted
resolve-allow_list host env cf p token sent sent' h =
    ap (λ r. if enabled p then r else ok none) (of_token-same token)
  where
    live : Option AccessToken → Dict String → RequestIdentity
    live t d = request_identity host d t (wanted_headers p)

    of_token-same :
        (t : Option AccessToken)
        → authorise host env cf p (live t sent) ≡ authorise host env cf p (live t sent')
    of_token-same none =
        authorise-same host env cf p (live none sent) _ _ (select-same host p sent sent' h)
    of_token-same (some t) =
        authorise-same host env cf p (live (some t) sent) _ _ (select-same host p sent sent' h)
