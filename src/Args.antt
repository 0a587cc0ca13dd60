-- ===== src/Args.antt =====
-- args.py and schema.py: the arguments of a call, from the spelling that a client uses to what the
-- backend receives. Python's characters, keywords and `==` of values are given. An AttributeError is a
-- `type_error` here: no code tells them apart.
pub mod Params
pub mod Forwarded
use beherouter.Prelude.{
  ℕ, ◌+◌, zero, suc, String, Bool, true, false, not, ◌&&◌, ◌||◌, Option, none, some, List, [], ◌∷◌,
  Dict, lookup, has, keys, put, set_default, elem, length, is_nil, is_empty, ◌===◌, ◌==◌,
  if◌then◌else◌, map,
}
use Prim.Native.Char.{Char, code}
use Prim.Native.String.{◌++◌ as ◌+++◌}
use beherouter.Data.{
  Value, Fields, Items, null, bool, str, arr, obj, nil, cons, end, field, to_dict, to_list, is_true,
  get, is_null,
}
use beherouter.Errors.{Result, ok, raise, ◌>>=◌, ◌>>◌, fail, usage_error, type_error}
use beherouter.Models.{ToolDescriptor}

-- What the language says of texts and values.
pub record Python : Type 0 where
  pub is_word : Char → Bool  -- `\w`
  pub is_digit : Char → Bool
  pub keywords : List String
  pub equals : Value → Value → Bool

-- schema.py: `is_json_schema`
abbrev is_object_type : Value → Bool
is_object_type (str s) = s === "object"
is_object_type _ = false

abbrev pub is_json_schema : Dict Value → Bool
is_json_schema schema =
    not (is_nil schema)
    && (has "properties" schema || has "$schema" schema || is_object_type (get "type" schema))

-- `wire_name.lstrip("-")`
abbrev no_dashes : String → String
no_dashes String.[] = ""
no_dashes (String.◌∷◌ c s) = if code c == b'-' then no_dashes s else (String.◌∷◌ c s)

abbrev underscore : Char
underscore = "_"

-- The replacements; the dash and the space are no word characters, so one pass does for all.
abbrev wordly : Python → String → String
wordly py String.[] = ""
wordly py (String.◌∷◌ c s) =
    String.◌∷◌ (if code c == b'-' || code c == b' ' || not (py.is_word c) then underscore else c)
      (wordly py s)

abbrev starts_bad : Python → String → Bool
starts_bad py String.[] = true
starts_bad py (String.◌∷◌ c s) = py.is_digit c

unfoldable pub param_name : Python → String → String
param_name py wire =
    let name = wordly py (no_dashes wire) in
    let named = if starts_bad py name then "arg_" +++ name else name in
    if elem named py.keywords then named +++ "_" else named

-- The names of `PY_TYPES`; `none` is `Any`.
abbrev py_types : List String
py_types = "string" ∷ "integer" ∷ "number" ∷ "boolean" ∷ "array" ∷ "object" ∷ []

abbrev py_type : Value → Option String
py_type (str s) = if elem s py_types then some s else none
py_type _ = none

-- An argument before it has a parameter's name, and after.
pub record Raw : Type 0 where
  pub wire : String
  pub py_type : Option String
  pub required : Bool
  pub default : Option Value

pub record Spec : Type 0 where
  pub raw : Raw
  pub param : String

abbrev chars_of : String → List String
chars_of String.[] = []
chars_of (String.◌∷◌ c s) = (String.◌∷◌ c "") ∷ chars_of s

-- `set(...)` of a list, as far as names can be in it; a list or a mapping has no hash.
abbrev names_of : Items → Result (List String)
names_of nil = ok []
names_of (cons (str s) vs) = do rest ← names_of vs; ok (s ∷ rest)
names_of (cons (arr _) vs) = raise type_error
names_of (cons (obj _) vs) = raise type_error
names_of (cons _ vs) = names_of vs

abbrev pub set_of : Value → Result (List String)
set_of (arr vs) = names_of vs
set_of (obj fs) = ok (keys (to_dict fs))
set_of (str s) = ok (chars_of s)
set_of _ = raise type_error

-- `set(schema.get("required") or [])`
abbrev required_of : Value → Result (List String)
required_of v = if is_true v then set_of v else ok []

abbrev fields_of : Value → Result (Dict Value)
fields_of (obj fs) = ok (to_dict fs)
fields_of _ = raise type_error

abbrev properties_of : Value → Result (Dict Value)
properties_of v = if is_true v then fields_of v else ok []

-- The entries whose value is a mapping, in either dialect.
abbrev json_raws : List String → Dict Value → List Raw
json_raws required [] = []
json_raws required ((n, obj p) ∷ more) =
    record {
      wire = n;
      py_type = py_type (get "type" (to_dict p));
      required = elem n required;
      default = lookup "default" (to_dict p);
    }
    ∷ json_raws required more
json_raws required ((n, _) ∷ more) = json_raws required more

abbrev manifest_raws : Dict Value → List Raw
manifest_raws [] = []
manifest_raws ((n, obj p) ∷ more) =
    record {
      wire = n;
      py_type = py_type (get "type" (to_dict p));
      required = is_true (get "required" (to_dict p));
      default = none;
    }
    ∷ manifest_raws more
manifest_raws ((n, _) ∷ more) = manifest_raws more

unfoldable pub raws_of : Dict Value → Result (List Raw)
raws_of schema =
    if is_json_schema schema
    then (do
      required ← required_of (get "required" schema)
      properties ← properties_of (get "properties" schema)
      ok (json_raws required properties))
    else ok (manifest_raws schema)

-- `while param in seen: param = f"{param}_"`; `none`: the fuel ran out.
pub fresh : ℕ → String → List String → Option String
fresh zero param seen = none
fresh (suc fuel) param seen =
    let again = fresh fuel (param +++ "_") seen in if elem param seen then again else some param

abbrev pub with_spec : Raw → Option String → (String → Option (List Spec)) → Option (List Spec)
with_spec r none rest = none
with_spec r (some p) rest = elim (rest p) [
  | none ↦ none
  | some specs ↦ some (record { raw = r; param = p } ∷ specs)
]

-- The loop that gives each argument its parameter.
unfoldable pub assign_params : Python → List Raw → List String → Option (List Spec)
unfolding fresh
assign_params py [] seen = some []
assign_params py (r ∷ rs) seen =
    with_spec r (fresh (suc (length seen)) (param_name py r.wire) seen)
      (λ p. assign_params py rs (p ∷ seen))

-- `normalize_args`; `assign_params` never lacks fuel (`Params`).
abbrev or_fail : Option (List Spec) → Result (List Spec)
or_fail none = raise type_error
or_fail (some specs) = ok specs

unfoldable pub normalize_args : Python → Dict Value → Result (List Spec)
unfolding raws_of assign_params
normalize_args py schema =
    if is_nil schema then ok [] else (do raws ← raws_of schema; or_fail (assign_params py raws []))

abbrev is_false : Value → Bool
is_false (bool b) = not b
is_false _ = false

-- `_is_closed`
abbrev pub is_closed : Dict Value → Bool
is_closed schema =
    if is_json_schema schema then is_false (get "additionalProperties" schema) else true

-- `to_wire`
unfoldable pub to_wire : List Spec → Dict String → Dict String
to_wire [] m = m
to_wire (s ∷ ss) m = to_wire ss (set_default s.param s.raw.wire (put s.raw.wire s.raw.wire m))

abbrev with_default : Raw → Option Value → Dict Value → Dict Value
with_default r none m = m
with_default r (some v) m = if r.required then m else put r.wire v m

-- `defaults`
pub defaults : List Spec → Dict Value → Dict Value
defaults [] m = m
defaults (s ∷ ss) m = defaults ss (with_default s.raw s.raw.default m)

-- The state of the loop over the arguments.
pub record Mapped : Type 0 where
  pub out : Dict Value
  pub source : Dict String

abbrev pub is_default : Python → Dict Value → String → Value → Bool
is_default py ds wire v = elim (lookup wire ds) [ none ↦ false | some d ↦ py.equals v d ]

abbrev pub forward : Python → Dict Value → String → String → Value → Mapped → Result Mapped
forward py ds wire key v m =
    if has wire m.source
    then fail usage_error
    else ok (record {
      source = put wire key m.source;
      out = if is_null v || is_default py ds wire v then m.out else put wire v m.out;
    })

abbrev pub wire_of : Dict String → Bool → String → Result String
wire_of wires closed key = elim (lookup key wires) [
  | some wire ↦ ok wire
  | none ↦ if closed then fail usage_error else ok key
]

unfoldable pub map_args :
    Python → Dict String → Dict Value → Bool → Dict Value → Mapped → Result Mapped
map_args py wires ds closed [] m = ok m
map_args py wires ds closed ((key, v) ∷ more) m = do
  wire ← wire_of wires closed key
  m' ← forward py ds wire key v m
  map_args py wires ds closed more m'

-- The loop that asks for the required arguments.
unfoldable pub check_required : List Spec → Dict Value → Result (Unit {0})
check_required [] out = ok tt
check_required (s ∷ ss) out =
    if s.raw.required && not (has s.raw.wire out) then fail usage_error else check_required ss out

unfoldable pub prepare_args : Python → Dict Value → Dict Value → Result (Dict Value)
unfolding normalize_args to_wire defaults map_args check_required
prepare_args py schema args = do
  specs ← normalize_args py schema
  let wires = to_wire specs []
  m ←
      map_args py wires (defaults specs []) (is_closed schema) args
        (record { out = []; source = [] })
  check_required specs m.out
  ok m.out
