-- ===== src/Identity/Tables/Exchange.antt =====
-- tokenexchange.py: `validate_table` and `ExchangeConfig.from_table`, and the placeholder of
-- envexpand.py.
use Prim.Native.Char.{code}
use Prim.Native.String.{◌++◌ as ◌+++◌}
use beherouter.Prelude.{
  ℕ, String, Bool, true, false, ◌&&◌, ◌||◌, not, Option, none, some, List, [], ◌∷◌, Dict, lookup,
  elem, is_empty, is_some, leb, ◌==◌, ◌===◌, if◌then◌else◌,
}
use beherouter.Data.{Value, str, arr, cons, is_true, get, is_name, all_names, texts_of}
use beherouter.Errors.{Result, ok, raise, ◌>>=◌, ◌>>◌, require, key_error, type_error}
use beherouter.Identity.{Host, Url}
use beherouter.Identity.Policy.{ExchangeConfig}

-- `_strings`: one text or a list of them, none if malformed or empty.
pub strings : Value → Option (List String)
strings (str s) = if is_empty s then none else some (s ∷ [])
strings (arr (cons v vs)) = if is_name v && all_names vs then some (texts_of (cons v vs)) else none
strings _ = none

abbrev is_letter : ℕ → Bool
is_letter c = (leb b'A' c && leb c b'Z') || (leb b'a' c && leb c b'z') || (c == b'_')

-- The rest of `${NAME}` behind the first letter; `$` also matches before a final line break.
variable : String → Option String
variable String.[] = none
variable (String.◌∷◌ c s) =
    let rest = variable s in
    if code c == b'}'
    then (if is_empty s || (s === "\n") then some "" else none)
    else if is_letter (code c) || (leb b'0' (code c) && leb (code c) b'9')
    then elim rest [ none ↦ none | some w ↦ some (String.◌∷◌ c w) ]
    else none

-- `PLACEHOLDER.match(text)`: the name of the variable.
unfoldable pub placeholder : String → Option String
unfolding variable
placeholder (String.◌∷◌ d (String.◌∷◌ b (String.◌∷◌ c s))) =
    let name = variable (String.◌∷◌ c s) in
    if (code d == b'$') && (code b == b'{') && is_letter (code c) then name else none
placeholder _ = none

abbrev url_ok : Url → Bool
url_ok u =
    elem u.scheme ("http" ∷ "https" ∷ [])
    && is_some u.hostname
    && not (is_some u.username)
    && not (is_some u.password)
    && is_empty u.fragment

abbrev token_url_ok : Host → Value → Bool
token_url_ok host (str s) = url_ok (host.urlsplit s)
token_url_ok host _ = false

abbrev strings_ok : Option Value → Bool
strings_ok none = true
strings_ok (some v) = is_some (strings v)

abbrev pub text_in : List String → Option Value → Bool
text_in names none = true
text_in names (some (str s)) = elem s names
text_in names (some _) = false

abbrev is_placeholder : Value → Bool
is_placeholder (str s) = is_some (placeholder s)
is_placeholder _ = false

abbrev pub token_types : Dict String
token_types =
    ("jwt", "urn:ietf:params:oauth:token-type:jwt")
    ∷ ("access_token", "urn:ietf:params:oauth:token-type:access_token")
    ∷ []

abbrev client_auths : List String
client_auths = "client_secret_basic" ∷ "client_secret_post" ∷ []

pub validate_table : Host → Dict Value → Result (Unit {0})
unfolding strings placeholder
validate_table host raw = do
  require (token_url_ok host (get "token_url" raw))
  require (strings_ok (lookup "audience" raw))
  require (strings_ok (lookup "resource" raw))
  require (strings_ok (lookup "scope" raw))
  require (is_true (get "audience" raw) || is_true (get "resource" raw))
  require (text_in ("jwt" ∷ "access_token" ∷ []) (lookup "subject_token_type" raw))
  require (text_in client_auths (lookup "client_auth" raw))
  require (is_name (get "client_id" raw))
  require (is_placeholder (get "client_secret" raw))

-- `raw[k]`. A value that is no text, which Python would store, is a `TypeError` here.
abbrev pub text_at : Option Value → Result String
text_at none = raise key_error
text_at (some (str s)) = ok s
text_at (some _) = raise type_error

-- `raw.get(k, d)`
abbrev pub text_or : String → Option Value → Result String
text_or d none = ok d
text_or d (some (str s)) = ok s
text_or d (some _) = raise type_error

abbrev or_none : Option (List String) → List String
or_none none = []
or_none (some ss) = ss

-- `" ".join(names)`
abbrev joined : List String → String
joined [] = ""
joined (s ∷ []) = s
joined (s ∷ t ∷ ss) = s +++ " " +++ joined (t ∷ ss)

abbrev found : Option String → Result String
found none = raise key_error
found (some s) = ok s

pub from_table : Dict Value → Result ExchangeConfig
unfolding strings
from_table raw = do
  token_url ← text_at (lookup "token_url" raw)
  client_id ← text_at (lookup "client_id" raw)
  client_secret ← text_at (lookup "client_secret" raw)
  kind ← text_or "jwt" (lookup "subject_token_type" raw)
  subject_token_type ← found (lookup kind token_types)
  client_auth ← text_or "client_secret_basic" (lookup "client_auth" raw)
  ok (record {
    token_url = token_url;
    client_id = client_id;
    client_secret = client_secret;
    audience = or_none (strings (get "audience" raw));
    resource = or_none (strings (get "resource" raw));
    scope = joined (or_none (strings (get "scope" raw)));
    subject_token_type = subject_token_type;
    client_auth = client_auth;
  })
