-- ===== src/Identity/Tables/Authz.antt =====
-- identity.py: `validate_authz` and the readers of the `[surface.authz]` table.
use beherouter.Prelude.{
  String, Bool, true, false, ◌&&◌, ◌||◌, not, Option, none, some, List, [], ◌∷◌, Dict, lookup, has,
  keys, elem, all, is_empty, if◌then◌else◌,
}
use beherouter.Data.{
  Value, Items, Fields, null, bool, str, arr, obj, nil, cons, end, field, to_dict, is_true, get,
  is_name, is_null, is_bool, all_names, texts_of,
}
use beherouter.Errors.{Result, ok, ◌>>◌, fail, usage_error, require}
use beherouter.Identity.Tables.{Entry, meta_tool_names}

abbrev authz_keys : List String
authz_keys =
    "require_roles" ∷ "audience" ∷ "hide_tools" ∷ "tools" ∷ "confirm_mutating" ∷ "confirm_exempt"
    ∷ []

-- A non-empty list of non-empty texts.
abbrev pub name_list : Value → Bool
name_list (arr nil) = false
name_list (arr (cons v vs)) = is_name v && all_names vs
name_list _ = false

-- One audience or a list of them, as a list; empty if malformed.
pub audiences_of : Value → List String
audiences_of (str s) = if is_empty s then [] else s ∷ []
audiences_of (arr vs) = if name_list (arr vs) then texts_of vs else []
audiences_of _ = []

abbrev some_audience : List String → Bool
some_audience [] = false
some_audience (_ ∷ _) = true

-- One `[surface.authz.tools.<name>]` table.
abbrev tool_gate : String → Value → Bool
tool_gate name (obj (field k v end)) =
    not (elem name meta_tool_names) && has k (("require_roles", null) ∷ []) && name_list v
tool_gate name _ = false

abbrev tool_gates : Fields → Bool
tool_gates end = true
tool_gates (field name gate more) = tool_gate name gate && tool_gates more

abbrev tools_table : Value → Bool
tools_table null = true
tools_table (obj end) = false
tools_table (obj (field name gate more)) = tool_gate name gate && tool_gates more
tools_table _ = false

abbrev no_meta : Items → Bool
no_meta vs = all (λ name. not (elem name meta_tool_names)) (texts_of vs)

abbrev exempt_list : Bool → Value → Bool
exempt_list confirm null = true
exempt_list confirm (arr vs) = confirm && name_list (arr vs) && no_meta vs
exempt_list confirm _ = false

abbrev or_default : Value → Option Value → Value
or_default d none = d
or_default d (some v) = v

authz_dict : Dict Value → Result (Unit {0})
unfolding audiences_of
authz_dict d = do
  require (all (λ k. elem k authz_keys) (keys d))
  let audience = get "audience" d
  require (is_null audience || some_audience (audiences_of audience))
  require (is_bool (or_default (bool true) (lookup "hide_tools" d)))
  require (
      not (has "hide_tools" d)
      || is_true (get "require_roles" d)
      || is_true audience
      || is_true (get "tools" d))
  require (tools_table (get "tools" d))
  let confirm = or_default (bool false) (lookup "confirm_mutating" d)
  require (is_bool confirm)
  require (exempt_list (is_true confirm) (get "confirm_exempt" d))
  let roles = get "require_roles" d
  require (is_null roles || name_list roles)

unfoldable pub validate_authz : Value → Result (Unit {0})
unfolding authz_dict
validate_authz (obj (field k v more)) = authz_dict (to_dict (field k v more))
validate_authz raw = if is_true raw then fail usage_error else ok tt

-- The table as a dict: `entry.authz or {}`.
abbrev pub table_of : Value → Dict Value
table_of (obj fs) = to_dict fs
table_of _ = []

-- `tuple(gate["require_roles"])` of a validated gate.
abbrev gate_roles : Value → List String
gate_roles (obj (field k (arr vs) end)) = texts_of vs
gate_roles _ = []

abbrev roles_by_tool : Fields → Dict (List String)
roles_by_tool end = []
roles_by_tool (field name gate more) = (name, gate_roles gate) ∷ roles_by_tool more

abbrev of_tools : Value → Dict (List String)
of_tools (obj fs) = roles_by_tool fs
of_tools _ = []

unfoldable pub tool_roles : Entry → Dict (List String)
tool_roles e = of_tools (get "tools" (table_of e.authz))

abbrev is_cons {ℓ} : {A : Type ℓ} → List A → Bool
is_cons [] = false
is_cons (_ ∷ _) = true

pub role_gated : Entry → Bool
unfolding tool_roles
role_gated e = is_true (get "require_roles" (table_of e.authz)) || is_cons (tool_roles e)

abbrev no_mode : Value → Bool
no_mode null = true
no_mode (str s) = is_empty s || elem s ("none" ∷ [])
no_mode _ = false

pub gates_on_caller : Entry → Bool
gates_on_caller e =
    not (no_mode (get "mode" (table_of e.identity)))
    || is_true (get "require_roles" (table_of e.authz))
    || is_true (get "audience" (table_of e.authz))
    || is_true (get "tools" (table_of e.authz))
