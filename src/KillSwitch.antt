-- ===== src/KillSwitch.antt =====
-- killswitch.py: the state of the kill switch as its file holds it, and the question that every
-- call asks of it. The children hold the cached file (`Cache`), its writer and the proofs.
pub mod Cache
pub mod Format
pub mod Parsed
pub mod Stage
pub mod Write
use beherouter.Prelude.{
  String, Bool, true, false, ◌&&◌, not, Option, none, some, List, [], ◌∷◌, Dict, lookup, has, keys,
  elem, select, is_empty, is_some, is_nil, if◌then◌else◌,
}
use beherouter.Data.{Value, Fields, null, str, obj, end, field, to_dict}
use beherouter.Errors.{Result, ok, raise, ◌>>=◌, ◌>>◌, check, value_error}

-- The value of one entry is kept as it was read: `{"reason", "at", "by"}`, all optional.
pub record KillState : Type 0 where
  pub all : Option Fields
  pub surfaces : Dict Fields
  pub subjects : Dict Fields

abbrev pub no_stops : KillState
no_stops = record { all = none; surfaces = []; subjects = [] }

-- Why a surface is stopped, if it is.
unfoldable pub disabled : KillState → String → Option String
disabled st surface =
    if is_some st.all then some "all" else if has surface st.surfaces then some "surface" else none

pub empty : KillState → Bool
empty st = not (is_some st.all) && is_nil st.surfaces && is_nil st.subjects

abbrev fields_of_table : Dict Fields → Fields
fields_of_table [] = end
fields_of_table ((k, f) ∷ t) = field k (obj f) (fields_of_table t)

abbrev all_field : Option Fields → Fields
all_field none = end
all_field (some f) = field "all" (obj f) end

unfoldable pub as_json : KillState → Value
as_json st = obj (
    field "surfaces" (obj (fields_of_table st.surfaces))
      (field "subjects" (obj (fields_of_table st.subjects)) (all_field st.all)))

-- The loop of `_table`, which also builds the `dict(raw)` that it returns.
table_entries : Fields → Result (Dict Fields)
table_entries end = ok []
table_entries (field k (obj f) more) = do
  rest ← table_entries more
  if is_empty k then raise value_error else ok ((k, f) ∷ rest)
table_entries (field k v more) = raise value_error

abbrev table_value : Option Value → Result (Dict Fields)
table_value none = ok []
table_value (some (obj fs)) = table_entries fs
table_value (some _) = raise value_error

table : Dict Value → String → Result (Dict Fields)
table d kind = table_value (lookup kind d)

abbrev pub kinds : List String
kinds = "all" ∷ "surfaces" ∷ "subjects" ∷ []

abbrev stop_all : Option Value → Result (Option Fields)
stop_all none = ok none
stop_all (some null) = ok none
stop_all (some (obj f)) = ok (some f)
stop_all (some _) = raise value_error

-- No key beside the kinds.
abbrev pub known_kinds : Dict Value → Bool
known_kinds d = is_nil (select (λ k. not (elem k kinds)) (keys d))

pub parse_dict : Dict Value → Result KillState
unfolding table
parse_dict d = do
  check (known_kinds d) value_error
  all ← stop_all (lookup "all" d)
  surfaces ← table d "surfaces"
  subjects ← table d "subjects"
  ok (record { all = all; surfaces = surfaces; subjects = subjects })

unfoldable pub parse_state : Value → Result KillState
unfolding parse_dict table_entries
parse_state (obj fs) = parse_dict (to_dict fs)
parse_state _ = raise value_error

abbrev reason_field : Option String → Fields
reason_field none = end
reason_field (some r) = if is_empty r then end else field "reason" (str r) end

-- What the admin API writes for one stop or block; `at` is the time, as text.
unfoldable pub entry : String → Option String → String → Fields
entry at reason actor = field "at" (str at) (field "by" (str actor) (reason_field reason))
