-- ===== src/Consent/Code.antt =====
-- The browser round-trip of a grant: PKCE and the authorize URL, the listener for the redirect, and the
-- exchange of the code. The random texts are drawn beforehand, and the digest is given. The page that
-- the browser is answered with is its status; the listener's socket is left out.
use beherouter.Prelude.{
  ℕ, String, not, ◌||◌, Option, none, some, List, [], ◌∷◌, ◌++◌, Dict, lookup, has, put, is_empty,
  is_nil, leb, ◌==◌, ◌===◌, if◌then◌else◌,
}
use beherouter.Data.{Value, str, obj, to_dict}
use beherouter.Errors.{
  ◌>>=◌ as ◌>>>=◌, Exc, Result, ok, raise, fail, auth_error, unavailable, key_error, value_error,
}
use beherouter.Digest.{compare_digest}
use beherouter.Consent.{ConsentProvider}
use beherouter.Consent.Disk.{Toml, Action, Url, done, cut, ◌>>=◌, ◌>>◌, lift}

-- `secrets.token_urlsafe`, drawn for the verifier and the state, and the S256 challenge of a text.
pub record Drawn : Type 0 where
  pub verifier : String
  pub state : String
  pub s256 : String → String

abbrev pub put_texts : Dict String → Dict String → Dict String
put_texts [] d = d
put_texts ((k, v) ∷ more) d = put_texts more (put k v d)

abbrev put_some : String → Option String → Dict String → Dict String
put_some k none d = d
put_some k (some v) d = if is_empty v then d else put k v d

unfoldable pub authorize_url :
    ConsentProvider → String → String → String → String → Option String → Url
authorize_url provider client_id redirect_uri state challenge login_hint = record {
  base = provider.authorize_url;
  params = put_some "login_hint" login_hint (
      put_texts provider.authorize_params (
        ("client_id", client_id)
        ∷ ("redirect_uri", redirect_uri)
        ∷ ("response_type", "code")
        ∷ ("scope", provider.scope)
        ∷ ("state", state)
        ∷ ("code_challenge", challenge)
        ∷ ("code_challenge_method", "S256")
        ∷ []));
}

-- A GET request to the listener: its path, and the first value of each key of its query.
pub record Request : Type 0 where
  pub path : String
  pub query : Dict String

-- `do_GET`: the status, and what has been received.
unfoldable pub do_get : Request → Dict String → ℕ × Dict String
do_get r received =
    if not (r.path === "/") || not (has "code" r.query || has "error" r.query)
    then (404, received)
    else (if has "code" r.query then 200 else 400, put_texts r.query received)

-- A round of the loop of `wait`: the clock, and the request that comes before the round's timeout.
pub record Round : Type 0 where
  pub now : ℕ
  pub request : Option Request

abbrev pub after_round : Round → Dict String → Dict String
after_round round received = elim round.request [ none ↦ received | some r ↦ (do_get r received).1 ]

-- `LoopbackReceiver.wait`, up to `deadline`. `none`: the rounds end before the loop does.
unfoldable pub wait : ℕ → List Round → Dict String → Option (Result (Dict String))
unfolding do_get
wait deadline [] received = if is_nil received then none else some (ok received)
wait deadline (round ∷ rounds) received =
    let rest = wait deadline rounds (after_round round received) in
    if not (is_nil received)
    then some (ok received)
    else if leb deadline round.now
    then some (fail unavailable)
    else rest

-- An answer of a provider's endpoint.
pub data Answer : Type 0 where
  unreachable : Answer  -- `httpx.HTTPError`
  response : ℕ → Result Value → Answer

abbrev token_in : Option Value → Result String
token_in (some (str s)) = if is_empty s then fail auth_error else ok s
token_in _ = fail auth_error

abbrev token_of : Result Value → Result String
token_of (raise value_error) = fail unavailable
token_of (raise e) = raise e
token_of (ok (obj fs)) = token_in (lookup "refresh_token" (to_dict fs))
token_of (ok _) = fail auth_error

-- The text of the error, which is read from the answer, is left out.
abbrev rejected : Result Value → Result String
rejected (raise Exc.value_error) = fail auth_error
rejected (raise e) = raise e
rejected (ok _) = fail auth_error

unfoldable pub read_answer : Answer → Result String
read_answer unreachable = fail unavailable
read_answer (response status json) =
    if (status == 400) || (status == 401) || (status == 403)
    then rejected json
    else if leb 400 status
    then fail unavailable
    else token_of json

unfoldable pub code_form :
    ConsentProvider → String → String → String → String → Option String → Dict String
code_form provider code' verifier redirect_uri client_id client_secret =
    let form = put_some "client_secret" client_secret (
      ("grant_type", "authorization_code")
      ∷ ("code", code')
      ∷ ("client_id", client_id)
      ∷ ("redirect_uri", redirect_uri)
      ∷ ("code_verifier", verifier)
      ∷ []) in
    if provider.scope_on_exchange then put "scope" provider.scope form else form

-- The provider's endpoints.
abbrev pub Http : Type 0
Http = String → Dict String → Answer

module _ {T : Toml} where
  abbrev pub show_url : Url → Action T (Unit {0})
  show_url u w = (done tt, record w { shown = w.shown ++ (u ∷ []) })

  abbrev pub post : Http → String → Dict String → Action T Answer
  post http url form w =
      (done (http url form), record w { posted = w.posted ++ ((url, form) ∷ []) })

  abbrev pub waited : {A : Type 0} → Option (Result A) → Action T A
  waited none w = (cut, w)
  waited (some r) w = lift r w

-- `exchange_code`
unfoldable pub exchange_code :
    {T : Toml}
    → Http
    → ConsentProvider
    → String
    → String
    → String
    → String
    → Option String
    → Action T String
unfolding code_form read_answer
exchange_code http provider code' verifier redirect_uri client_id client_secret = do
  answer ←
      post http provider.token_url
        (code_form provider code' verifier redirect_uri client_id client_secret)
  lift (read_answer answer)

abbrev pub text_at : String → Dict String → String
text_at k d = elim (lookup k d) [ none ↦ "" | some s ↦ s ]

abbrev code_in : Option String → Result String
code_in none = raise key_error
code_in (some c) = ok c

-- What a redirect is worth: the code that it carries, if it is ours and the user consented.
unfoldable pub code_of : String → Dict String → Result String
unfolding compare_digest
code_of state params = compare_digest (text_at "state" params) state >>>= (λ same.
    if not same
    then fail auth_error
    else if has "error" params
    then fail auth_error
    else code_in (lookup "code" params))

-- `obtain_refresh_token`; the clock starts at 0.
unfoldable pub obtain_refresh_token :
    {T : Toml}
    → Http
    → Drawn
    → ConsentProvider
    → String
    → Option String
    → String
    → List Round
    → ℕ
    → Option String
    → Action T String
unfolding exchange_code authorize_url wait code_of
obtain_refresh_token http drawn provider client_id secret redirect_uri rounds timeout hint = do
  show_url
      (authorize_url provider client_id redirect_uri drawn.state (drawn.s256 drawn.verifier) hint)
  params ← waited (wait timeout rounds [])
  code' ← lift (code_of drawn.state params)
  exchange_code http provider code' drawn.verifier redirect_uri client_id secret
