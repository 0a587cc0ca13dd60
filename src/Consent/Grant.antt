-- ===== src/Consent/Grant.antt =====
-- The two operations of the calendar consent, and `run`, which chooses between them. What other
-- processes do to the map while the user is in the browser is an argument, and so is what they do
-- while a token is revoked; the browser itself and what is printed are left out.
use Prim.Native.Char.{code}
use beherouter.Prelude.{
  ℕ, String, Bool, false, not, ◌&&◌, ◌||◌, Option, none, some, List, [], ◌∷◌, ◌++◌, Dict, lookup,
  put, keys, is_empty, is_some, ◌⊎◌, inl, inr, sorted_set, ◌==◌, if◌then◌else◌,
}
use beherouter.Data.{Value, str, to_dict, obj, get, is_true}
use beherouter.Errors.{
  ◌>>=◌ as ◌>>>=◌, axi, bare, Result, ok, raise, fail, check, usage_error, not_found, type_error,
  key_error,
}
use beherouter.Identity.{Host}
use beherouter.Registry.{RegistryEntry}
use beherouter.Envexpand.{Surroundings, expand}
use beherouter.Consent.{ConsentProvider, ConsentTarget, resolve_target}
use beherouter.Consent.Disk.{Toml, File, Action, done, ◌>>=◌, ◌>>◌, return, lift}
use beherouter.Consent.Writer.{Process, check_writable, upsert_subject, read_subject, remove_names}
use beherouter.Consent.Code.{
  Http, Drawn, Round, Answer, unreachable, response, post, obtain_refresh_token,
}

-- The options of the command. `secret_file` is what the file of the client secret reads as, stripped,
-- if one is given.
pub record Options : Type 0 where
  pub identity_map : String
  pub client_id : String
  pub secret_file : Option (Result String)

-- `_read_secret_file`
abbrev read_secret : Result String → Result Value
read_secret (ok s) = if is_empty s then fail usage_error else ok (str s)
read_secret (raise e) = raise e

-- `entry.env or {}`, of which `get` is called: an `AttributeError` is a `TypeError` here.
abbrev env_of : Value → Result (Dict Value)
env_of (obj fs) = ok (to_dict fs)
env_of v = if is_true v then raise type_error else ok []

-- The value of one name in what `expand` makes of it alone.
abbrev sole : Result (Dict Value) → Result Value
sole (raise e) = raise e
sole (ok []) = raise key_error
sole (ok ((_, v) ∷ _)) = ok v

-- `_from_entry`
pub from_entry : Surroundings → RegistryEntry → String → Result Value
from_entry at e name = env_of (get "env" e.body) >>>= (λ env.
    let raw = get name env in
    if is_true raw then sole (expand at ((name, raw) ∷ [])) else fail usage_error)

-- A credential that is no text, which a form would be made of, is a `TypeError` here.
abbrev text_value : Value → Result String
text_value (str s) = ok s
text_value _ = raise type_error

abbrev secret_of :
    Surroundings → RegistryEntry → ConsentProvider → Option (Result String) → Result (Option String)
secret_of at e provider given =
    if provider.needs_client_secret
    then (elim given [ none ↦ from_entry at e "client_secret" | some r ↦ read_secret r ])
      >>>= (λ v. text_value v >>>= (λ s. ok (some s)))
    else elim given [ none ↦ ok none | some _ ↦ fail usage_error ]

-- `client_credentials`
unfoldable pub client_credentials :
    Surroundings → RegistryEntry → ConsentProvider → Options → Result (String × Option String)
unfolding from_entry
client_credentials at e provider options =
    ((if is_empty options.client_id
        then from_entry at e "client_id"
        else ok (str options.client_id))
      >>>= text_value)
    >>>= (λ id. secret_of at e provider options.secret_file >>>= (λ secret. ok (id, secret)))

abbrev put_secret : Option String → Dict String → Dict String
put_secret none d = d
put_secret (some s) d = if is_empty s then d else d ++ (("client_secret", s) ∷ [])

abbrev pub granted_of : String → String → Option String → Dict String
granted_of token id secret = put_secret secret (("refresh_token", token) ∷ ("client_id", id) ∷ [])

-- `{target.names[name]: granted[name] for name in target.names if name in granted}`
abbrev pub values_of : Dict String → Dict String → Dict String → Dict String
values_of [] granted values = values
values_of ((logical, name) ∷ names) granted values =
    values_of names granted
      (elim (lookup logical granted) [ none ↦ values | some v ↦ put name v values ])

pub record Granted : Type 0 where
  pub surface : String
  pub subject : String
  pub key_claim : Value
  pub identity_map : String
  pub names_written : List String

-- `"@" in subject`
has_at : String → Bool
has_at String.[] = false
has_at (String.◌∷◌ c s) = (code c == b'@') || has_at s

pub hint_of : String → Option String
unfolding has_at
hint_of subject = if has_at subject then some subject else none

pub record Revoked : Type 0 where
  pub surface : String
  pub subject : String
  pub identity_map : String
  pub names_removed : List String
  pub upstream : String

-- What the process, the provider and the user bring into a grant: the random texts, the answers of the
-- provider's endpoints, the listener's address and the rounds of its loop, and what other processes do
-- to the map before the redirect comes.
pub record Setting (T : Toml) : Type 0 where
  pub host : Host
  pub at : Surroundings
  pub process : Process
  pub drawn : Drawn
  pub http : Http
  pub redirect_uri : String
  pub rounds : List Round
  pub default_map : String
  pub meanwhile : Option (File T) → Option (File T)

module _ {T : Toml} (s : Setting T) where
  abbrev pub others : Action T (Unit {0})
  others w = (done tt, record w { map = s.meanwhile w.map })

  -- The end of `grant`, behind the browser.
  unfoldable pub store : ConsentTarget → String → String × Option String → String → Action T Granted
  store target subject client token = do
    others
    let values = values_of target.names (granted_of token client.0 client.1) []
    upsert_subject s.process subject values
    return (record {
      surface = target.surface;
      subject = subject;
      key_claim = target.key_claim;
      identity_map = target.map_path;
      names_written = sorted_set (keys values);
    })

  -- The token of a grant.
  unfoldable pub token_for : ConsentTarget → String → ℕ → String × Option String → Action T String
  token_for target subject timeout client =
      obtain_refresh_token s.http s.drawn target.provider client.0 client.1 s.redirect_uri s.rounds
        timeout (hint_of subject)

  -- `grant`
  unfoldable pub grant : RegistryEntry → String → Options → ℕ → Action T Granted
  unfolding token_for store
  grant e subject options timeout = do
    lift (check (not (is_empty subject)) (axi (bare usage_error)))
    target ← lift (resolve_target e options.identity_map s.default_map)
    check_writable
    client ← lift (client_credentials s.at e target.provider options)
    token ← token_for target subject timeout client
    store target subject client token

  abbrev upstream_of : Answer → String
  upstream_of unreachable = "unreachable"
  upstream_of (response status json) =
      if status == 200 then "revoked" else if status == 400 then "already_invalid" else "failed"

  -- `_revoke_upstream`; the class of the failure and the status are left out of its answer.
  unfoldable pub revoke_upstream : ConsentProvider → String → Action T String
  revoke_upstream provider token w = elim provider.revoke_url [
    | none ↦ (done "not_supported", w)
    | some url ↦
        (do answer ← post s.http url (("token", token) ∷ []); return (upstream_of answer)) w
  ]

  abbrev pub found : Option String → Result String
  found none = fail not_found
  found (some token) = ok token

  abbrev pub refresh_name : Dict String → Result String
  refresh_name names = elim (lookup "refresh_token" names) [
    | none ↦ raise key_error
    | some n ↦ ok n
  ]

  -- The end of `revoke`, for the token that the map holds.
  unfoldable pub take_back : ConsentTarget → String → String → String → Action T Revoked
  unfolding revoke_upstream
  take_back target subject name token = do
    upstream ← revoke_upstream target.provider token
    others
    removed ← remove_names s.process subject (name ∷ [])
    return (record {
      surface = target.surface;
      subject = subject;
      identity_map = target.map_path;
      names_removed = removed;
      upstream = upstream;
    })

  -- `revoke`
  unfoldable pub revoke : RegistryEntry → String → Options → Action T Revoked
  unfolding take_back
  revoke e subject options = do
    lift (check (not (is_empty subject)) (axi (bare usage_error)))
    target ← lift (resolve_target e options.identity_map s.default_map)
    check_writable
    current ← read_subject s.process s.host subject
    name ← lift (refresh_name target.names)
    token ← lift (found (lookup name current))
    take_back target subject name token

  abbrev no_client : Options → Bool
  no_client options = is_empty options.client_id && not (is_some options.secret_file)

  -- `run`, for a registry that is loaded: the grant, or its revocation.
  unfoldable pub run :
      Dict RegistryEntry → String → String → Options → Bool → ℕ → Action T (Granted ⊎ Revoked)
  run registry surface subject options revoke_grant timeout = elim (lookup surface registry) [
    | none ↦ lift (fail not_found)
    | some e ↦
        if revoke_grant
        then (do
          lift (check (no_client options) (axi (bare usage_error)))
          r ← revoke e subject options
          return (inr r))
        else (do
          lift (check (not (timeout == 0)) (axi (bare usage_error)))
          g ← grant e subject options timeout
          return (inl g))
  ]
