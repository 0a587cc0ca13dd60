-- ===== src/Identity.antt =====
-- identity.py: who is calling, and what the backend is told about it. This file holds the records
-- and the role check; `Policy` is a surface's rule with its modes.
pub mod Policy
pub mod SecretMap
pub mod Request
pub mod Tables
use beherouter.Prelude.{
  ℕ, String, Bool, true, false, ◌&&◌, ◌||◌, not, Option, none, some, List, [], ◌∷◌, Dict, lookup,
  elem, all, select, map, is_empty, is_some, split_at, words, if◌then◌else◌,
}
use beherouter.Data.{
  Value, Fields, null, bool, int, float, str, arr, obj, to_list, to_dict, of_names,
}
use beherouter.Errors.{
  Exc, Result, ok, raise, ◌>>=◌, ◌>>◌, check, fail, bare, tag, reasons, axi, auth_error,
  usage_error,
}

pub record Url : Type 0 where
  pub scheme : String
  pub hostname : Option String
  pub username : Option String
  pub password : Option String
  pub fragment : String

-- What the language and its library give and the model leaves open: `str.lower` and `str(value)` (the
-- Unicode tables and the print of every value), a SHA-256 digest in hexadecimal, and `urlsplit`.
pub record Host : Type 0 where
  pub lower : String → String
  pub show : Value → String
  pub sha256 : String → String
  pub urlsplit : String → Url

-- What the verifier and the transport know about this caller.
pub record RequestIdentity : Type 0 where
  pub shared : Bool
  pub subject : Option String
  pub claims : Fields
  pub raw_token : Option String
  pub headers : Dict String

-- `bool(x)` of an optional text.
abbrev pub truthy : Option String → Bool
truthy none = false
truthy (some s) = not (is_empty s)

-- The value under a dotted path: a part that is absent or null, or that no mapping holds, is absent.
abbrev pub present : Option Value → Option Value
present (some null) = none
present v = v

pub claim_path : Value → List String → Option Value
claim_path node [] = some node
claim_path (obj fs) (part ∷ path) = elim (present (lookup part (to_dict fs))) [
  | none ↦ none
  | some v ↦ claim_path v path
]
claim_path _ (part ∷ path) = none

pub claim_at : Fields → String → Option Value
unfolding claim_path split_at
claim_at claims path = claim_path (obj claims) (split_at b'.' path)

-- The roles that a claim holds: a list, or a text with spaces between them.
pub held_roles : Host → Value → Option (List String)
held_roles host (str s) = some (words s)
held_roles host (arr vs) = some (map host.show (to_list vs))
held_roles host _ = none

abbrev missing_role : List String → List String → Exc
missing_role required missing =
    tag (bare auth_error) "missing_role"
      (("required_roles", arr (of_names required)) ∷ ("missing_roles", arr (of_names missing)) ∷ [])

abbrev no_roles : List String → Exc
no_roles required =
    tag (bare auth_error) "missing_role" (("required_roles", arr (of_names required)) ∷ [])

abbrev pub missing_of : List String → List String → List String
missing_of required held = select (λ role. not (elem role held)) required

abbrev check_held : List String → Option (List String) → Result (Unit {0})
check_held required none = raise (no_roles required)
check_held required (some held) = elim (missing_of required held) [
  | [] ↦ ok tt
  | m ∷ ms ↦ raise (missing_role required (m ∷ ms))
]

-- Every role of `required` must be held: all, not any.
unfoldable pub check_roles : Host → List String → String → Fields → Result (Unit {0})
unfolding tag reasons
check_roles host required path claims =
    if is_empty path then fail usage_error else elim (claim_at claims path) [
      | none ↦ raise (no_roles required)
      | some raw ↦ check_held required (held_roles host raw)
    ]
