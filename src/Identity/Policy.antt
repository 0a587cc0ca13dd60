-- ===== src/Identity/Policy.antt =====
-- identity.py: `IdentityPolicy`, one surface's rule. Nothing here reads the request but through the
-- `RequestIdentity` that it is given; `resolve` and `guard` make that one (`request_identity`).
pub mod Gate
pub mod Complete
use beherouter.Prelude.{
  zero, all, String, Bool, true, false, ◌&&◌, ◌||◌, not, Option, none, some, List, [], ◌∷◌, ◌++◌,
  Dict, lookup, elem, keys, put, sorted_set, map, is_empty, is_some, is_nil, ◌===◌, if◌then◌else◌,
}
use Prim.Native.String.{◌++◌ as ◌+++◌}
use beherouter.Data.{
  Value, null, bool, int, float, str, arr, obj, pos, nanos, to_list, to_dict, of_names,
}
use beherouter.Errors.{
  Exc, Result, ok, raise, ◌>>=◌, ◌>>◌, check, fail, bare, tag, reasons, axi, auth_error,
  usage_error, unavailable, type_error,
}
use beherouter.Identity.{Host, RequestIdentity, truthy, check_roles}

pub record ExchangeConfig : Type 0 where
  pub token_url : String
  pub client_id : String
  pub client_secret : String
  pub audience : List String
  pub resource : List String
  pub scope : String
  pub subject_token_type : String
  pub client_auth : String

-- The call of `exchanged_headers` that `settle` makes.
pub record PendingExchange : Type 0 where
  pub surface : String
  pub config : ExchangeConfig
  pub subject_token : String
  pub header : String
  pub prefix : String
  pub subject : String

pub record CallIdentity : Type 0 where
  pub subject : String
  pub headers : Dict String
  pub env : Dict String
  pub credentials : Dict String
  pub cache_key : String
  pub pending : Option PendingExchange

pub record IdentityPolicy : Type 0 where
  pub surface : String
  pub mode : String
  pub target : String
  pub map : Dict String
  pub header : String
  pub prefix : String
  pub exchange : Option ExchangeConfig
  pub key : String
  pub path : Option String
  pub require_roles : List String
  pub roles_claim : String
  pub audiences : List String
  pub hide_tools : Bool

-- `{**d, **e}`
abbrev pub merge {ℓ} : {V : Type ℓ} → Dict V → Dict V → Dict V
merge d [] = d
merge d ((k, v) ∷ e) = merge (put k v d) e

-- Runs a pending exchange; anything else passes through untouched.
pub settle : (PendingExchange → Result (Dict String)) → CallIdentity → Result CallIdentity
settle exchanged ident = elim ident.pending [
  | none ↦ ok ident
  | some p ↦ do
    headers ← exchanged p
    ok (record ident { headers = merge ident.headers headers; pending = none })
]

abbrev key_parts : List String → Dict String → String
key_parts [] material = ""
key_parts (name ∷ names) material = elim (lookup name material) [
  | none ↦ key_parts names material
  | some v ↦ "\0" +++ name +++ "\0" +++ v +++ key_parts names material
]

-- The digest of a caller and their material, the names in order.
pub material_key : Host → String → Dict String → String
material_key host subject material =
    host.sha256 (subject +++ key_parts (sorted_set (keys material)) material)

unfoldable pub enabled : IdentityPolicy → Bool
enabled p = not (is_empty p.mode) || not (is_nil p.require_roles) || not (is_nil p.audiences)

unfoldable pub hides_listing : IdentityPolicy → Bool
hides_listing p = p.hide_tools && (not (is_nil p.require_roles) || not (is_nil p.audiences))

abbrev values : Dict String → List String
values [] = []
values ((_, v) ∷ d) = v ∷ values d

-- The client headers that the policy reads: an allow-list.
unfoldable pub wanted_headers : IdentityPolicy → List String
wanted_headers p = if p.mode === "client" then sorted_set (values p.map) else []

-- The texts of `held`. A value that Python can make no set of raises a `TypeError`.
abbrev is_hashable : Value → Bool
is_hashable (arr _) = false
is_hashable (obj _) = false
is_hashable _ = true

abbrev texts : List Value → List String
texts [] = []
texts (str s ∷ vs) = s ∷ texts vs
texts (_ ∷ vs) = texts vs

pub audience_claim : Option Value → Result (List String)
audience_claim none = ok []
audience_claim (some null) = ok []
audience_claim (some (str s)) = ok (s ∷ [])
audience_claim (some (arr vs)) = do
  check (all is_hashable (to_list vs)) type_error
  ok (texts (to_list vs))
audience_claim (some (obj fs)) = ok (keys (to_dict fs))
audience_claim (some (bool false)) = ok []
audience_claim (some (int (pos zero))) = ok []
audience_claim (some (float (nanos (pos zero)))) = ok []
audience_claim (some _) = raise type_error

abbrev pub meets : List String → List String → Bool
meets [] audiences = false
meets (s ∷ ss) audiences = elem s audiences || meets ss audiences

check_audience : IdentityPolicy → RequestIdentity → Result (Unit {0})
unfolding tag reasons audience_claim
check_audience p req = do
  held ← audience_claim (lookup "aud" (to_dict req.claims))
  check (meets held p.audiences) (
      tag (bare auth_error) "wrong_audience"
        (("expected_audience", arr (of_names p.audiences)) ∷ []))

abbrev when : Bool → Result (Unit {0}) → Result (Unit {0})
when true m = m
when false m = ok tt

abbrev pub verified : RequestIdentity → Bool
verified req = not req.shared && truthy req.subject

-- The refusal half: no material is made.
unfoldable pub gate : Host → IdentityPolicy → RequestIdentity → Result (Unit {0})
unfolding check_audience
gate host p req = do
  check (verified req) (axi (bare auth_error))
  when (not (is_nil p.audiences)) (check_audience p req)
  when (not (is_nil p.require_roles)) (check_roles host p.require_roles p.roles_claim req.claims)

-- `str(value)` of a claim that is there and not empty.
abbrev claim_text : Host → Option Value → Result String
claim_text host none = fail auth_error
claim_text host (some null) = fail auth_error
claim_text host (some (str s)) = if is_empty s then fail auth_error else ok (host.show (str s))
claim_text host (some v) = ok (host.show v)

unfoldable pub claim : Host → RequestIdentity → String → Result String
claim host req name = claim_text host (lookup name (to_dict req.claims))

abbrev pub header_text : Option String → Result String
header_text none = fail auth_error
header_text (some v) = if is_empty v then fail auth_error else ok v

unfoldable pub client_header : Host → RequestIdentity → String → Result String
client_header host req name = header_text (lookup (host.lower name) req.headers)

-- `{key: f(source) for key, source in map.items()}`; the first refusal ends it.
pub collect : (String → Result String) → Dict String → Result (Dict String)
collect f [] = ok []
collect f ((key, source) ∷ d) = do v ← f source; rest ← collect f d; ok ((key, v) ∷ rest)

abbrev or_refuse : Option String → Result String
or_refuse none = fail auth_error
or_refuse (some v) = ok v

-- The identity map as one call finds it: the file, read by `credentials_for`.
abbrev pub IdentityMap : Type 0
IdentityMap = String → String → String → String → Result (Dict String)

abbrev pub or_empty : Option String → String
or_empty none = ""
or_empty (some s) = s

-- `self.path or os.environ.get(DEFAULT_MAP_VAR) or ""`
pub map_path : Option String → IdentityPolicy → Result String
map_path env p =
    let path = if truthy p.path then or_empty p.path else or_empty env in
    if is_empty path then fail unavailable else ok path

abbrev pub no_material : String → CallIdentity
no_material subject = record {
  subject = subject;
  headers = [];
  env = [];
  credentials = [];
  cache_key = "";
  pending = none;
}

module _ (host : Host) (env : Option String) (credentials_for : IdentityMap) where
  pub by_lookup : IdentityPolicy → RequestIdentity → Result (Dict String)
  unfolding map_path claim
  by_lookup p req = do
    path ← map_path env p
    key ← claim host req p.key
    found ← credentials_for path p.surface key p.key
    collect (λ source. or_refuse (lookup source found)) p.map

  -- `_material`: what the mode makes of the caller.
  unfoldable pub material : IdentityPolicy → RequestIdentity → Result (Dict String)
  unfolding by_lookup
  material p req =
      if p.mode === "bearer"
      then (do
        check (truthy req.raw_token) (axi (bare auth_error))
        ok ((p.header, p.prefix +++ or_empty req.raw_token) ∷ []))
      else if p.mode === "claims"
      then collect (claim host req) p.map
      else if p.mode === "client"
      then collect (client_header host req) p.map
      else if p.mode === "lookup"
      then by_lookup p req
      else fail usage_error

  pub pending_exchange : IdentityPolicy → RequestIdentity → Result CallIdentity
  unfolding material_key
  pending_exchange p req = do
    check (p.target === "header") (axi (bare usage_error))
    config ← elim p.exchange [ none ↦ fail usage_error | some c ↦ ok c ]
    check (truthy req.raw_token) (axi (bare auth_error))
    let subject = or_empty req.subject
    let token = or_empty req.raw_token
    ok (record (no_material subject) {
      cache_key = material_key host subject (("subject_token", host.sha256 token) ∷ []);
      pending = some (record {
        surface = p.surface;
        config = config;
        subject_token = token;
        header = p.header;
        prefix = p.prefix;
        subject = subject;
      });
    })

  -- The material in the slot of the target (`_SLOTS`).
  pub into_slot : String → CallIdentity → Dict String → Result CallIdentity
  into_slot target ident m =
      if target === "header"
      then ok (record ident { headers = m })
      else if target === "env"
      then ok (record ident { env = m })
      else if target === "credential"
      then ok (record ident { credentials = m })
      else fail usage_error

  unfoldable pub materialise : IdentityPolicy → RequestIdentity → Result CallIdentity
  unfolding into_slot pending_exchange material_key
  materialise p req = do
    check (verified req) (axi (bare auth_error))
    if p.mode === "exchange" then pending_exchange p req else do
      m ← material p req
      let subject = or_empty req.subject
      into_slot p.target (record (no_material subject) { cache_key = material_key host subject m })
          m

  -- `none`: the surface is gated and forwards nothing.
  unfoldable pub authorise : IdentityPolicy → RequestIdentity → Result (Option CallIdentity)
  unfolding gate
  authorise p req = do
    gate host p req
    if is_empty p.mode then ok none else do ident ← materialise p req; ok (some ident)

  -- `live` is `request_identity`, which reads the request and keeps the wanted headers.
  module _ (live : List String → RequestIdentity) where
    unfoldable pub resolve : IdentityPolicy → Result (Option CallIdentity)
    unfolding authorise enabled wanted_headers
    resolve p = if enabled p then authorise p (live (wanted_headers p)) else ok none

    unfoldable pub guard : IdentityPolicy → Result (Unit {0})
    unfolding gate enabled
    guard p = if enabled p then gate host p (live []) else ok tt
