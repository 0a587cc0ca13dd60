-- ===== src/Consent.antt =====
-- plugins/calendar/consent.py: one user's OAuth grant and the identity map that it is written to. This
-- file holds the providers and what a surface's entry says of the grant; the texts of hints are left
-- out. The children are the actions and the map's file (`Disk`), its writer (`Writer`), the redirect
-- and the exchange of the code (`Code`), and the two operations (`Grant`).
pub mod Disk
pub mod Format
pub mod Writer
pub mod Code
pub mod Grant
pub mod Atomic
pub mod Kept
pub mod Redirected
pub mod Removed
pub mod Revoked
pub mod Values
pub mod Stored
pub mod Served
use beherouter.Prelude.{
  String, Bool, true, false, Option, none, some, List, [], ◌∷◌, Dict, lookup, has, is_empty, ◌===◌,
  if◌then◌else◌,
}
use beherouter.Data.{Value, str, obj, to_dict, get, is_true}
use beherouter.Errors.{
  Result, ok, raise, ◌>>=◌, ◌>>◌, require, fail, usage_error, value_error, type_error,
}
use beherouter.Registry.{RegistryEntry}

pub record ConsentProvider : Type 0 where
  pub name : String
  pub authorize_url : String
  pub token_url : String
  pub scope : String
  pub authorize_params : Dict String
  pub needs_client_secret : Bool
  pub scope_on_exchange : Bool
  pub revoke_url : Option String

abbrev pub google : ConsentProvider
google = record {
  name = "google";
  authorize_url = "https://accounts.google.com/o/oauth2/v2/auth";
  token_url = "https://oauth2.googleapis.com/token";
  scope = "https://www.googleapis.com/auth/calendar";
  authorize_params = ("access_type", "offline") ∷ ("prompt", "consent") ∷ [];
  needs_client_secret = true;
  scope_on_exchange = false;
  revoke_url = some "https://oauth2.googleapis.com/revoke";
}

abbrev pub microsoft : ConsentProvider
microsoft = record {
  name = "microsoft";
  authorize_url = "https://login.microsoftonline.com/consumers/oauth2/v2.0/authorize";
  token_url = "https://login.microsoftonline.com/consumers/oauth2/v2.0/token";
  scope = "offline_access Calendars.ReadWrite";
  authorize_params = [];
  needs_client_secret = false;
  scope_on_exchange = true;
  revoke_url = none;
}

unfoldable pub providers : Dict ConsentProvider
providers = ("gcal", google) ∷ ("m365", microsoft) ∷ []

pub record ConsentTarget : Type 0 where
  pub surface : String
  pub provider : ConsentProvider
  pub map_path : String
  pub key_claim : Value
  pub names : Dict String

abbrev provider_of : Value → Result ConsentProvider
provider_of (str s) = elim (lookup s providers) [ none ↦ fail usage_error | some p ↦ ok p ]
provider_of _ = fail usage_error

-- `dict(value or {})`. A list of pairs, which `dict` would take, is a `ValueError` here.
abbrev table_in : Value → Result (Dict Value)
table_in (obj fs) = ok (to_dict fs)
table_in v = if is_true v then raise value_error else ok []

abbrev is_lookup : Value → Bool
is_lookup (str s) = s === "lookup"
is_lookup _ = false

-- `a or b or c or ""`, and `Path` of it.
abbrev path_of : String → Value → String → Result String
path_of given (str s) default =
    if is_empty given then (if is_empty s then ok default else ok s) else ok given
path_of given v default =
    if is_empty given then (if is_true v then raise type_error else ok default) else ok given

-- One of `_GRANT_NAMES` in the surface's map. A name there that is no text is a `TypeError` here;
-- Python finds it out when it writes the map.
abbrev name_in : Option Value → Result (Option String)
name_in none = ok none
name_in (some (str s)) = ok (some s)
name_in (some _) = raise type_error

abbrev named : String → Option String → Dict String → Dict String
named k none d = d
named k (some n) d = (k, n) ∷ d

abbrev key_of : Option Value → Value
key_of none = str "sub"
key_of (some v) = v

unfoldable pub grant_names_in : Dict Value → Result (Dict String)
grant_names_in mapping = do
  token ← name_in (lookup "refresh_token" mapping)
  id ← name_in (lookup "client_id" mapping)
  secret ← name_in (lookup "client_secret" mapping)
  ok (named "refresh_token" token (named "client_id" id (named "client_secret" secret [])))

-- `default` is the variable of the environment, empty where it is unset.
unfoldable pub resolve_target : RegistryEntry → String → String → Result ConsentTarget
unfolding providers grant_names_in
resolve_target e identity_map default = do
  provider ← provider_of e.plugin
  identity ← table_in (get "identity" e.body)
  require (is_lookup (get "mode" identity))
  mapping ← table_in (get "map" identity)
  require (has "refresh_token" mapping)
  path ← path_of identity_map (get "path" identity) default
  require (if is_empty path then false else true)
  names ← grant_names_in mapping
  ok (record {
    surface = e.name;
    provider = provider;
    map_path = path;
    key_claim = key_of (lookup "key" identity);
    names = names;
  })
