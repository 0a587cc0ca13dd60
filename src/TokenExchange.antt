-- ===== src/TokenExchange.antt =====
-- tokenexchange.py: `TokenExchanger`, the cache of issued tokens and the exchanges in flight. A step is
-- what happens between two awaits: a call asks for a token, an exchange ends. The clock counts
-- nanoseconds; a key is the digest of the surface and the subject's token. Every call runs in one event
-- loop. The HTTP client gives a response or its error, and the texts of the messages are left out.
pub mod Served
pub mod Refused
use Prim.Native.Nat.{◌^◌}
use beherouter.Prelude.{
  ℕ, ◌+◌, ◌-◌, ◌*◌, zero, suc, String, Bool, true, false, not, ◌&&◌, ◌||◌, Option, none, some, List,
  [], ◌∷◌, ◌++◌, Dict, lookup, has, put, select_keys, elem, length, is_nil, is_empty, leb, ltb,
  ◌===◌, ◌==◌, if◌then◌else◌,
}
use beherouter.Data.{
  Value, Fields, Float, nanos, infinite, nan, null, int, float, str, arr, obj, pos, to_dict,
  of_names, get,
}
use beherouter.Errors.{
  ErrorClass, AxiError, Exc, axi, Result, ok, raise, ◌>>=◌, ◌>>◌, bare, fail, require, tag, reasons,
  auth_error, usage_error, unavailable, value_error, overflow_error,
}
use beherouter.Identity.{Host}
use beherouter.Identity.Policy.{ExchangeConfig}

-- `response.json()`, where the body is JSON.
pub record Response : Type 0 where
  pub status : ℕ
  pub body : Option Value

-- What the texts of the module's two patterns match, and the environment.
pub record Texts : Type 0 where
  pub is_code : String → Bool
  pub placeholder : String → Option String
  pub environ : String → Option String

-- `_resolve`
pub resolve_value : Texts → String → Result String
resolve_value x value = elim (x.placeholder value) [
  | none ↦ ok value
  | some name ↦ elim (x.environ name) [
    | none ↦ fail unavailable
    | some v ↦ if is_empty v then fail unavailable else ok v
  ]
]

abbrev texts_field : String → List String → Dict Value
texts_field k names = if is_nil names then [] else (k, arr (of_names names)) ∷ []

abbrev text_field : String → String → Dict Value
text_field k s = if is_empty s then [] else (k, str s) ∷ []

abbrev client_fields : ExchangeConfig → String → String → Dict Value
client_fields c id secret =
    if c.client_auth === "client_secret_post"
    then ("client_id", str id) ∷ ("client_secret", str secret) ∷ []
    else []

-- The form that `_exchange` posts, and the client's credentials for its header.
pub request_of : Texts → ExchangeConfig → String → Result (Dict Value × Option (String × String))
unfolding resolve_value
request_of x c subject_token = do
  id ← resolve_value x c.client_id
  secret ← resolve_value x c.client_secret
  ok (
    ("grant_type", str "urn:ietf:params:oauth:grant-type:token-exchange")
          ∷ ("subject_token", str subject_token)
          ∷ ("subject_token_type", str c.subject_token_type)
          ∷ texts_field "audience" c.audience
        ++ (texts_field "resource" c.resource
            ++ (text_field "scope" c.scope ++ client_fields c id secret)),
    if c.client_auth === "client_secret_post" then none else some (id, secret),
  )

-- When an issued token is dropped.
pub data Until : Type 0 where
  at : ℕ → Until
  never : Until

abbrev pub second : ℕ
second = 1_000_000_000

-- The least whole number that no float is near: to add it to the clock raises an `OverflowError`.
unfoldable pub too_large : ℕ
too_large = 2 ^ 1024 - 2 ^ 970

abbrev pub kept_for : ℕ → Option Until
kept_for n = if ltb (30 * second) n then some (at (n - 30 * second)) else none

-- `expires_in`, less the 30 seconds of skew: how long the token is kept, if at all.
unfoldable pub lifetime : Value → Result (Option Until)
lifetime (int (pos n)) =
    if leb (too_large + 30) n then raise overflow_error else ok (kept_for (n * second))
lifetime (float (nanos (pos n))) = ok (kept_for n)
lifetime (float (infinite true)) = ok (some never)
lifetime _ = ok none

abbrev pub field_of : Value → String → Value
field_of (obj fs) k = get k (to_dict fs)
field_of _ k = null

abbrev pub caller_codes : List String
caller_codes = "invalid_grant" ∷ "invalid_target" ∷ []

abbrev shown_code : Texts → Value → String
shown_code x (str s) = if x.is_code s then s else "unrecognised"
shown_code x _ = "unrecognised"

-- `_code`
abbrev pub code_of : Texts → Option Value → String
code_of x none = "unrecognised"
code_of x (some v) = shown_code x (field_of v "error")

abbrev pub bearer_type : Host → Option Value → Bool
bearer_type host none = true
bearer_type host (some (str s)) = elem (host.lower s) ("bearer" ∷ "n_a" ∷ [])
bearer_type host (some _) = false

abbrev pub type_of : Value → Option Value
type_of (obj fs) = lookup "token_type" (to_dict fs)
type_of _ = none

-- The token of a 200, and for how long it is kept.
abbrev pub issued : Host → Value → Value → Result (String × Option Until)
issued host body (str s) =
    if is_empty s
    then fail unavailable
    else if bearer_type host (type_of body)
    then (do kept ← lifetime (field_of body "expires_in"); ok (s, kept))
    else fail usage_error
issued host body _ = fail unavailable

abbrev pub body_or_null : Option Value → Value
body_or_null none = null
body_or_null (some v) = v

-- `_exchange`, from the response on.
unfoldable pub read_response : Host → Texts → Response → Result (String × Option Until)
unfolding lifetime
read_response host x r =
    if (r.status == 429) || leb 500 r.status
    then fail unavailable
    else if leb 400 r.status
    then (if elem (code_of x r.body) caller_codes then fail auth_error else fail usage_error)
    else if r.status == 200
    then issued host (body_or_null r.body) (field_of (body_or_null r.body) "access_token")
    else fail unavailable

-- The state of an exchanger; the tasks that run are known by a number.
pub record Exchanger : Type 0 where
  pub cache : Dict (String × Until)  -- the least recently used first
  pub in_flight : Dict ℕ
  pub tasks : ℕ → Option String  -- the key that a running task is for
  pub made : ℕ

abbrev pub new_exchanger : Exchanger
new_exchanger = record { cache = []; in_flight = []; tasks = λ _. none; made = 0 }

abbrev pub live_at : ℕ → Until → Bool
live_at now never = true
live_at now (at t) = ltb now t

abbrev pub without {ℓ} : {V : Type ℓ} → String → Dict V → Dict V
without k d = select_keys (λ j. not (j === k)) d

-- `cache[key] = value; move_to_end(key)`
abbrev pub last {ℓ} : {V : Type ℓ} → String → V → Dict V → Dict V
last k v d = without k d ++ (k, v) ∷ []

pub data Ticket : Type 0 where
  cached : String → Ticket
  wait : ℕ → Ticket

abbrev pub waiting : String → Option ℕ → Exchanger → Ticket × Exchanger
waiting key (some n) e = (wait n, e)
waiting key none e = (
  wait e.made,
  record e {
    in_flight = put key e.made e.in_flight;
    tasks = λ n. if e.made == n then some key else e.tasks n;
    made = e.made + 1;
  },
)

-- `token`, to where it waits, or has its answer from the cache.
unfoldable pub token : String → ℕ → Exchanger → Ticket × Exchanger
token key now e = elim (lookup key e.cache) [
  | none ↦ waiting key (lookup key e.in_flight) e
  | some (t, u) ↦
      if live_at now u
      then (cached t, record e { cache = last key (t, u) e.cache })
      else waiting key (lookup key e.in_flight) (record e { cache = without key e.cache })
]

abbrev pub max_entries : ℕ
max_entries = 1024

-- `while len(cache) > MAX_ENTRIES: cache.popitem(last=False)`: one round for each entry at most.
unfoldable pub evict : {V : Type 0} → Dict V → Dict V
evict [] = []
evict (e ∷ d) = let rest = evict d in if ltb max_entries (length (e ∷ d)) then rest else e ∷ d

abbrev pub since : ℕ → Until → Until
since now never = never
since now (at ttl) = at (now + ttl)

abbrev pub stored : String → ℕ → Result (String × Option Until) → Exchanger → Exchanger
stored key now (ok (t, some u)) e = record e { cache = evict (last key (t, since now u) e.cache) }
stored key now _ e = e

abbrev pub is_task : Option ℕ → ℕ → Bool
is_task none n = false
is_task (some m) n = m == n

-- The end of an exchange, and `_settled`.
unfoldable pub settled : ℕ → ℕ → Result (String × Option Until) → Exchanger → Exchanger
unfolding evict
settled n now r e = elim (e.tasks n) [
  | none ↦ e
  | some key ↦ record (stored key now r e) {
    in_flight = if is_task (lookup key e.in_flight) n then without key e.in_flight else e.in_flight;
    tasks = λ m. if n == m then none else e.tasks m;
  }
]

-- `exchanged_headers`: the header that a call carries, or the error, tagged.
abbrev auth_reason : ErrorClass → String
auth_reason auth_error = "unauthenticated"
auth_reason _ = "identity_unavailable"

unfoldable pub exchanged_headers :
    (String → String → String) → String → String → Result String → Result (Dict String)
unfolding tag reasons
exchanged_headers join header prefix (ok t) = ok ((header, join prefix t) ∷ [])
exchanged_headers join header prefix (raise (axi e)) = raise (tag e (auth_reason e.cls) [])
exchanged_headers join header prefix (raise e) = raise e

abbrev same_names : List String → List String → Bool
same_names [] [] = true
same_names (a ∷ xs) (b ∷ ys) = (a === b) && same_names xs ys
same_names _ _ = false

-- `current.config == config`
abbrev same_config : ExchangeConfig → ExchangeConfig → Bool
same_config a b =
    (a.token_url === b.token_url)
    && (a.client_id === b.client_id)
    && (a.client_secret === b.client_secret)
    && same_names a.audience b.audience
    && same_names a.resource b.resource
    && (a.scope === b.scope)
    && (a.subject_token_type === b.subject_token_type)
    && (a.client_auth === b.client_auth)

abbrev kept_exchanger : Option (ExchangeConfig × Exchanger) → ExchangeConfig → Exchanger
kept_exchanger none config = new_exchanger
kept_exchanger (some (old, e)) config = if same_config old config then e else new_exchanger

-- `exchanger_for`: the surface's exchanger, and the table that it is in from then on.
unfoldable pub exchanger_for :
    String
    → ExchangeConfig
    → Dict (ExchangeConfig × Exchanger)
    → Exchanger × Dict (ExchangeConfig × Exchanger)
exchanger_for surface config table =
    let e = kept_exchanger (lookup surface table) config in (e, put surface (config, e) table)
