-- ===== src/Envexpand.antt =====
-- envexpand.py: the placeholders of a table of credentials, resolved whole. The environment and the
-- files are given.
pub mod Resolved
use Prim.Native.Char.{code}
use beherouter.Prelude.{
  ℕ, String, Bool, true, false, ◌&&◌, ◌||◌, Option, none, some, List, [], ◌∷◌, Dict, lookup,
  is_empty, behind, ◌==◌, ◌===◌, if◌then◌else◌,
}
use beherouter.Data.{Value, str}
use beherouter.Errors.{Exc, Result, ok, raise, ◌>>=◌, fail, usage_error}
use beherouter.Identity.Tables.Exchange.{placeholder}

-- What `read_text` of a file gives: its text, an `OSError` or `UnicodeError`, or another exception.
pub data Reading : Type 0 where
  text : String → Reading
  unreadable : Reading
  broken : Exc → Reading

pub record Surroundings : Type 0 where
  pub environ : Dict String
  pub read : String → Reading

-- `[^{}]*\}$`, where `$` also matches before a final line break.
inside : String → Option String
inside String.[] = none
inside (String.◌∷◌ c s) =
    let rest = inside s in
    if code c == b'}'
    then (if is_empty s || (s === "\n") then some "" else none)
    else if code c == b'{'
    then none
    else elim rest [ none ↦ none | some w ↦ some (String.◌∷◌ c w) ]

abbrev nonempty : Option String → Option String
nonempty none = none
nonempty (some s) = if is_empty s then none else some s

-- `FILE_PLACEHOLDER.match(text)`: the path.
unfoldable pub file_placeholder : String → Option String
unfolding inside
file_placeholder s = elim (behind "${file:" s) [ none ↦ none | some r ↦ nonempty (inside r) ]

unfoldable pub is_absolute : String → Bool
is_absolute String.[] = false
is_absolute (String.◌∷◌ c s) = code c == b'/'

-- One final line break is taken off.
unfoldable pub chop : String → String
chop String.[] = ""
chop (String.◌∷◌ c s) =
    let rest = chop s in if is_empty s && (code c == 10) then "" else String.◌∷◌ c rest

unfoldable pub filled : String → Result String
filled s = if is_empty s then fail usage_error else ok s

-- `_read_file`
unfoldable pub read_file : Surroundings → String → Result String
unfolding is_absolute chop filled
read_file at path =
    if is_absolute path
    then elim (at.read path) [
      | text s ↦ filled (chop s)
      | unreadable ↦ fail usage_error
      | broken e ↦ raise e
    ]
    else fail usage_error

unfoldable pub variable_of : Surroundings → String → Result String
unfolding filled
variable_of at name = elim (lookup name at.environ) [ none ↦ fail usage_error | some s ↦ filled s ]

-- The body of the loop for one text.
unfoldable pub resolve_text : Surroundings → String → Result String
unfolding file_placeholder read_file variable_of placeholder
resolve_text at s = elim (file_placeholder s) [
  | some path ↦ read_file at path
  | none ↦ elim (placeholder s) [ none ↦ ok s | some name ↦ variable_of at name ]
]

unfoldable pub resolve_value : Surroundings → Value → Result Value
unfolding resolve_text
resolve_value at (str s) = do s' ← resolve_text at s; ok (str s')
resolve_value at v = ok v

unfoldable pub expand : Surroundings → Dict Value → Result (Dict Value)
unfolding resolve_value
expand at [] = ok []
expand at ((k, v) ∷ d) = do v' ← resolve_value at v; d' ← expand at d; ok ((k, v') ∷ d')

abbrev ref_of : Value → Option String
ref_of (str s) = file_placeholder s
ref_of _ = none

unfoldable pub file_refs : Dict Value → List String
unfolding file_placeholder
file_refs [] = []
file_refs ((k, v) ∷ d) =
    let rest = file_refs d in elim (ref_of v) [ none ↦ rest | some path ↦ path ∷ rest ]
