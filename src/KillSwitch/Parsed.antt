-- ===== src/KillSwitch/Parsed.antt =====
-- What a state that was parsed says, from the value that it was parsed from.
use beherouter.Prelude.{String, ◌≡◌, sym, ap, ◌∙◌, some, Dict, lookup, has, arith, inl, inr}
use beherouter.Data.{Fields, null, bool, int, float, str, arr, obj, end, field, to_dict}
use beherouter.Errors.{ok, value_error, check, >>=-eq-ok, Result-cases}
use beherouter.KillSwitch.{
  KillState, table_entries, table_value, table, stop_all, known_kinds, parse_dict, parse_state,
}

-- The keys of a table that was read are those of the object.
table_entries-has :
    (fs : Fields) (t : Dict Fields) (k : String)
    → table_entries fs ≡ ok t
    → has k t ≡ has k (to_dict fs)
unfolding table_entries
table_entries-has end t k h = ground arith
table_entries-has (field j (obj f) more) t k h = elim (Result-cases (table_entries more)) [
  | inl (u, e) ↦ ground (arith, table_entries-has more u k e)
  | inr (x, e) ↦ absurd (ground (arith, e))
]
table_entries-has (field j null more) t k h = cc
table_entries-has (field j (bool b) more) t k h = cc
table_entries-has (field j (int n) more) t k h = cc
table_entries-has (field j (float x) more) t k h = cc
table_entries-has (field j (str s) more) t k h = cc
table_entries-has (field j (arr xs) more) t k h = cc

-- A name under "surfaces" or "subjects" is stopped or blocked in the state, and under "all" everything.
pub parse_state-has :
    (fs : Fields) (st : KillState) (k : String)
    → parse_state (obj fs) ≡ ok st
    → ((t : Fields)
        → lookup "surfaces" (to_dict fs) ≡ some (obj t)
        → has k st.surfaces ≡ has k (to_dict t))
      × ((t : Fields)
          → lookup "subjects" (to_dict fs) ≡ some (obj t)
          → has k st.subjects ≡ has k (to_dict t))
      × ((t : Fields) → lookup "all" (to_dict fs) ≡ some (obj t) → st.all ≡ some t)
unfolding parse_state parse_dict table
parse_state-has fs st k h =
    let d = to_dict fs in
    let (_, _, h₁) = >>=-eq-ok (check (known_kinds d) value_error) _ h in
    let (a, ea, h₂) = >>=-eq-ok (stop_all (lookup "all" d)) _ h₁ in
    let (u, eu, h₃) = >>=-eq-ok (table_value (lookup "surfaces" d)) _ h₂ in
    let (v, ev, h₄) = >>=-eq-ok (table_value (lookup "subjects" d)) _ h₃ in
    (
      λ t e. ground (arith, table_entries-has t u k (ap table_value (sym e) ∙ eu)),
      λ t e. ground (arith, table_entries-has t v k (ap table_value (sym e) ∙ ev)),
      λ t e. ground (arith, ap stop_all (sym e) ∙ ea),
    )
