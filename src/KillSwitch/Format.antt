-- ===== src/KillSwitch/Format.antt =====
-- `as_json` and `parse_state` are inverse on what the file can hold.
use beherouter.Prelude.{◌≡◌, refl, Option, none, some, [], ◌∷◌, Dict, lookup, arith}
use beherouter.Data.{Value, Fields, obj, end, field, to_dict}
use beherouter.Errors.{ok, >>=-eq-ok, check, value_error}
use beherouter.KillSwitch.{
  KillState, known_kinds, parse_dict, parse_state, as_json, table_entries, table_value,
  fields_of_table, stop_all,
}

-- What comes out of `_table` goes back in unchanged.
table_entries-stable :
    (fs : Fields) (t : Dict Fields)
    → table_entries fs ≡ ok t
    → table_entries (fields_of_table t) ≡ ok t
unfolding table_entries
table_entries-stable fs [] h = refl
table_entries-stable end ((j, g) ∷ t) h = cc
table_entries-stable (field k (obj f) more) ((j, g) ∷ t) h =
    let (rest, read, last) = >>=-eq-ok (table_entries more) _ h in
    ground (arith, table_entries-stable more t)
table_entries-stable (field k _ more) ((j, g) ∷ t) h = cc

table_value-stable :
    (v : Option Value) (t : Dict Fields)
    → table_value v ≡ ok t
    → table_entries (fields_of_table t) ≡ ok t
unfolding table_entries
table_value-stable (some (obj fs)) t h = table_entries-stable fs t h
table_value-stable none [] h = refl
table_value-stable none (_ ∷ _) h = cc
table_value-stable (some _) t h = cc

parse_dict-tables :
    (d : Dict Value) (st : KillState)
    → parse_dict d ≡ ok st
    → (table_entries (fields_of_table st.surfaces) ≡ ok st.surfaces)
      × (table_entries (fields_of_table st.subjects) ≡ ok st.subjects)
unfolding parse_dict
parse_dict-tables d st h =
    let (_, _, known) = >>=-eq-ok (check (known_kinds d) value_error) _ h in
    let (a, _, h₁) = >>=-eq-ok (stop_all (lookup "all" d)) _ known in
    let (s, read_s, h₂) = >>=-eq-ok (table_value (lookup "surfaces" d)) _ h₁ in
    let (t, read_t, h₃) = >>=-eq-ok (table_value (lookup "subjects" d)) _ h₂ in
    ground (
      arith,
      table_value-stable (lookup "surfaces" d) s,
      table_value-stable (lookup "subjects" d) t,
      h₃,
    )

read_back :
    (a : Option Fields) (s t : Dict Fields)
    → table_entries (fields_of_table s) ≡ ok s
    → table_entries (fields_of_table t) ≡ ok t
    → parse_state (as_json (record { all = a; surfaces = s; subjects = t }))
      ≡ ok (record { all = a; surfaces = s; subjects = t })
unfolding parse_state as_json
read_back none s t h k = rw (h, k)
read_back (some f) s t h k = rw (h, k)

parse-as_json :
    (st : KillState)
    → table_entries (fields_of_table st.surfaces) ≡ ok st.surfaces
    → table_entries (fields_of_table st.subjects) ≡ ok st.subjects
    → parse_state (as_json st) ≡ ok st
parse-as_json st h k = read_back st.all st.surfaces st.subjects h k

-- A state that was read from a file is read back from its JSON form, with every stop and block.
pub parse_state-as_json :
    (v : Value) (st : KillState) → parse_state v ≡ ok st → parse_state (as_json st) ≡ ok st
unfolding parse_state
parse_state-as_json (obj fs) st h =
    let (surfaces, subjects) = parse_dict-tables (to_dict fs) st h in
    parse-as_json st surfaces subjects
parse_state-as_json _ st h = cc
