-- ===== src/Identity/Tables/Modes.antt =====
-- identity.py: `validate_identity`. The plugin's declaration and the environment are arguments.
use beherouter.Prelude.{
  String, Bool, true, false, ◌&&◌, ◌||◌, not, Option, none, some, List, [], ◌∷◌, Dict, lookup, has,
  keys, elem, all, is_empty, is_nil, ◌===◌, if◌then◌else◌,
}
use beherouter.Data.{
  Value, Fields, null, str, obj, end, field, to_dict, is_true, get, is_name, is_text,
}
use beherouter.Errors.{Result, ok, ◌>>◌, fail, usage_error, require}
use beherouter.Identity.{Host, truthy}
use beherouter.Identity.Tables.{PluginSpec, modes, targets}
use beherouter.Identity.Tables.Exchange.{validate_table}

abbrev exchange_keys : List String
exchange_keys =
    "token_url" ∷ "audience" ∷ "resource" ∷ "scope" ∷ "subject_token_type" ∷ "client_auth"
    ∷ "client_id" ∷ "client_secret" ∷ []

abbrev identity_keys : List String
identity_keys = "mode" ∷ "header" ∷ "prefix" ∷ "key" ∷ "path" ∷ "map" ∷ exchange_keys

-- A mode that says that there is none: absent, empty or "none".
abbrev pub names_no_mode : Value → Bool
names_no_mode null = true
names_no_mode (str s) = is_empty s || (s === "none")
names_no_mode _ = false

abbrev pub mode_name : Value → Option String
mode_name (str s) = if elem s modes then some s else none
mode_name _ = none

support_ok : PluginSpec → String → Result (Unit {0})
support_ok spec mode = do
  require (not (is_nil spec.identity.modes))
  require (not (spec.backing === "stdio"))
  require (elem spec.identity.target targets)
  require (not (spec.identity.target === "credential") || not (is_nil spec.identity.accepts))
  require (elem mode spec.identity.modes)

abbrev text_or_absent : Option Value → Bool
text_or_absent none = true
text_or_absent (some v) = is_text v

bearer_table : Host → String → Dict Value → Result (Unit {0})
bearer_table host mode d = do
  require (not (has "map" d))
  require (not (mode === "exchange") || (not (has "key" d) && not (has "path" d)))
  require (text_or_absent (lookup "header" d))
  require (text_or_absent (lookup "prefix" d))
  if mode === "exchange" then validate_table host d else ok tt

abbrev sources_ok : List String → Fields → Bool
sources_ok accepts end = true
sources_ok accepts (field key v more) =
    is_name v && (is_nil accepts || elem key accepts) && sources_ok accepts more

abbrev map_ok : List String → Value → Bool
map_ok accepts (obj (field k v more)) = sources_ok accepts (field k v more)
map_ok accepts _ = false

abbrev key_ok : Option Value → Bool
key_ok none = true
key_ok (some v) = is_name v

lookup_table : Option String → Dict Value → Result (Unit {0})
lookup_table env d = do
  require (key_ok (lookup "key" d))
  require (is_true (get "path" d) || truthy env)

-- The checks behind the mode's own name.
mode_table : Host → Option String → PluginSpec → String → Dict Value → Result (Unit {0})
unfolding support_ok bearer_table lookup_table
mode_table host env spec mode d = do
  support_ok spec mode
  require ((mode === "exchange") || all (λ k. not (elem k exchange_keys)) (keys d))
  require (not (mode === "exchange") || (spec.identity.target === "header"))
  if (mode === "bearer") || (mode === "exchange")
      then bearer_table host mode d
      else require (map_ok spec.identity.accepts (get "map" d))
  if mode === "lookup" then lookup_table env d else ok tt

identity_dict : Host → Option String → PluginSpec → Dict Value → Result (Unit {0})
unfolding mode_table
identity_dict host env spec d = do
  require (all (λ k. elem k identity_keys) (keys d))
  if names_no_mode (get "mode" d)
      then require (all (λ k. k === "mode") (keys d))
      else elim (mode_name (get "mode" d)) [
        | none ↦ fail usage_error
        | some mode ↦ mode_table host env spec mode d
      ]

-- `env` is `$BEHEROUTER_IDENTITY_MAP`.
unfoldable pub validate_identity : Host → Option String → PluginSpec → Value → Result (Unit {0})
unfolding identity_dict
validate_identity host env spec (obj (field k v more)) =
    identity_dict host env spec (to_dict (field k v more))
validate_identity host env spec raw = if is_true raw then fail usage_error else ok tt
