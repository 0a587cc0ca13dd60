-- ===== src/TokenExchange/Refused.antt =====
-- What a caller is told of an exchange that fails.
use beherouter.Prelude.{
  ◌+◌, Dict, String, ◌≡◌, Bool, true, false, not, ◌&&◌, Option, none, some, [], ◌∷◌, lookup, elem,
  ◌==◌, leb, is_empty, if◌then◌else◌,
}
use beherouter.Data.{Value, int, str, pos}
use beherouter.Errors.{ErrorClass, Exc, axi, Result, ok, raise, fail, auth_error, overflow_error}
use beherouter.TokenExchange.{
  too_large, Response, Texts, Until, code_of, caller_codes, field_of, body_or_null,
}

-- The token alone.
abbrev pub answer_of : Result (String × Option Until) → Result String
answer_of (ok (t, _)) = ok t
answer_of (raise e) = raise e

-- The caller is at fault: the identity provider says so with one of the two codes of a 4xx.
abbrev pub callers_fault : Texts → Response → Bool
callers_fault x r =
    leb 400 r.status
    && not (leb 500 r.status)
    && not (r.status == 429)
    && elem (code_of x r.body) caller_codes

abbrev pub reason_of : Exc → Option Value
reason_of (axi e) = lookup "reason" e.context
reason_of _ = none

abbrev is_auth : ErrorClass → Bool
is_auth auth_error = true
is_auth _ = false

-- The text that a response has as its token.
abbrev pub access_token : Response → Value
access_token r = field_of (body_or_null r.body) "access_token"

-- A number of seconds that cannot be added to the clock.
abbrev pub is_endless : Value → Bool
is_endless (int (pos n)) = leb (too_large + 30) n
is_endless _ = false

abbrev pub expires_in : Response → Value
expires_in r = field_of (body_or_null r.body) "expires_in"

-- A response is a token, or an error of a class, or a token that is lost to its lifetime.
data Read (x : Texts) (r : Response) (answer : Result (String × Option Until)) : Type 0 where
  token :
      (t : String) (u : Option Until)
      → answer ≡ ok (t, u)
      → access_token r ≡ str t
      → r.status ≡ 200
      → is_empty t ≡ false
      → callers_fault x r ≡ false
      → is_endless (expires_in r) ≡ false
      → Read x r answer
  error : (c : ErrorClass) → answer ≡ fail c → is_auth c ≡ callers_fault x r → Read x r answer
  lost :
      answer ≡ raise overflow_error
      → r.status ≡ 200
      → is_endless (expires_in r) ≡ true
      → Read x r answer

abbrev pub reason_for : Bool → String
reason_for blamed = if blamed then "unauthenticated" else "identity_unavailable"

-- What a call is told of the token endpoint's answer `r`.
pub data IsTold (x : Texts) (r : Response) (join : String → String → String)
    (header prefix : String) (reply : Result (Dict String)) : Type 0 where
  carried :
      (t : String)
      → reply ≡ ok ((header, join prefix t) ∷ [])
      → access_token r ≡ str t
      → r.status ≡ 200
      → is_empty t ≡ false
      → callers_fault x r ≡ false
      → IsTold x r join header prefix reply
  refused :
      (e : Exc)
      → reply ≡ raise e
      → reason_of e ≡ some (str (reason_for (callers_fault x r)))
      → IsTold x r join header prefix reply
  overflowed :
      reply ≡ raise overflow_error
      → r.status ≡ 200
      → is_endless (expires_in r) ≡ true
      → IsTold x r join header prefix reply
