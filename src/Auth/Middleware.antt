-- ===== src/Auth/Middleware.antt =====
-- auth.py: `RejectionMiddleware`, which opens the slot of a request and rewrites the 401 for an expired
-- token. A message that the app sends stands with the reason that the slot holds then.
pub mod Told
use Prim.Native.Char.{code}
use Prim.Native.String.{◌++◌ as ◌+++◌}
use beherouter.Prelude.{
  ℕ, String, ◌≡◌, refl, ap, ◌∙◌, Bool, true, false, not, ◌&&◌, ◌||◌, Option, none, some, List, [],
  ◌∷◌, ◌++◌, elem, behind, ◌==◌, ◌===◌, if◌then◌else◌, arith, eq_iff, Bool-cases, inl, inr, ◌≢◌,
}

pub data Message : Type 0 where
  start : ℕ → List (String × String) → Message
  body : String → Message
  other : Message

-- The text up to a quotation mark.
until_quote : String → Option String
until_quote String.[] = none
until_quote (String.◌∷◌ c s) =
    let rest = until_quote s in
    if code c == 34 then some "" else elim rest [ none ↦ none | some w ↦ some (String.◌∷◌ c w) ]

abbrev quoted : Option String → Option String
quoted none = none
quoted (some s) = elim (until_quote s) [
  | none ↦ none
  | some w ↦ some ("resource_metadata=\"" +++ w +++ "\"")
]

abbrev or_later : Option String → Option String → Option String
or_later none later = later
or_later (some s) later = some s

-- `_RESOURCE_METADATA.search`
pub metadata_in : String → Option String
unfolding until_quote
metadata_in String.[] = none
metadata_in (String.◌∷◌ c s) =
    or_later (quoted (behind "resource_metadata=\"" (String.◌∷◌ c s))) (metadata_in s)

-- The body of the answer for an expired token, and its length.
abbrev pub expired_body : String
expired_body = "{\"error\": \"invalid_token\", \"error_description\": \"token expired\"}"

abbrev pub challenge : String
challenge = "Bearer error=\"invalid_token\", error_description=\"token expired\""

abbrev pub joined : Option String → String → String
joined none c = c
joined (some m) c = c +++ ", " +++ m

abbrev pub is_told : Option String → ℕ → Bool
is_told none status = false
is_told (some r) status = (r === "expired") && (status == 401)

module _ (lower : String → String) where
  -- The loop over the headers: the challenge with what it takes over, and the headers that are kept.
  unfoldable pub rewrite : List (String × String) → String → String × List (String × String)
  rewrite [] c = (c, [])
  rewrite ((name, value) ∷ headers) c =
      let is_challenge = lower name === "www-authenticate" in
      let rest = rewrite headers (if is_challenge then joined (metadata_in value) c else c) in
      if is_challenge || elem (lower name) ("content-length" ∷ "content-type" ∷ [])
      then rest
      else (rest.0, (name, value) ∷ rest.1)

  abbrev pub rewritten : List (String × String) → List (String × String)
  rewritten headers =
      let (c, kept) = rewrite headers challenge in
      kept
      ++ (("www-authenticate", c)
          ∷ ("content-type", "application/json")
          ∷ ("content-length", "64")
          ∷ [])

  -- `send_wrapper`: what is sent, and whether the body is replaced.
  unfoldable pub send : Bool → Option String → Message → List Message × Bool
  unfolding rewrite
  send true reason (body _) = ([], true)
  send true reason m = (m ∷ [], true)
  send false reason (start status headers) =
      if is_told reason status
      then (start status (rewritten headers) ∷ body expired_body ∷ [], true)
      else (start status headers ∷ [], false)
  send false reason m = (m ∷ [], false)

  -- The messages of a response, in order.
  unfoldable pub send_all : Bool → List (Option String × Message) → List Message
  unfolding send
  send_all replaced [] = []
  send_all replaced ((reason, m) ∷ ms) =
      let (out, replaced') = send replaced reason m in out ++ send_all replaced' ms
