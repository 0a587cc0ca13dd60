-- ===== src/Examples/Tools.antt =====
-- Calls of the tools of a surface, their arguments, and a token exchange.
use beherouter.Prelude.{
  ℕ, ◌≤◌, ◌≡◌, refl, Bool, true, false, Option, none, some, List, [], ◌∷◌, String, length, lookup,
  map, ◌===◌,
}
use beherouter.Data.{Value, end, field, str, obj, bool, null}
use beherouter.Errors.{Result, ok}
use beherouter.Gates.{visible, check_tool}
use beherouter.Args.{Python, Raw, Spec, assign_params}
use beherouter.Args.Params.{AreFresh, assign_params-AreFresh}
use beherouter.TokenExchange.{Response, Texts, Until, token, cached, live_at, max_entries}
use beherouter.TokenExchange.Served.{Event, asked, ended, run, was_issued, steps-IsServed}
use beherouter.Surface.{Viewer, Tools, sees}
use beherouter.Surface.Hidden.{IsHidden, sees-IsHidden}
use beherouter.Examples.Data.{host, nobody, find}
use beherouter.Examples.Calls.{admins_only}

-- `py.equals` knows equal texts only.
abbrev same_text : Value → Value → Bool
same_text (str a) (str b) = a === b
same_text _ _ = false

abbrev py : Python
py = record {
  is_word = λ c. true;
  is_digit = λ c. false;
  keywords = "from" ∷ [];
  equals = same_text;
}

abbrev raw : String → Raw
raw n = record { wire = n; py_type = none; required = false; default = none }

assign_params-AreFresh_example :
    (specs : List Spec) × (assign_params py (raw "--a-b" ∷ raw "a_b" ∷ raw "from" ∷ []) []
      ≡ some specs)
    × (map (λ (s : Spec). s.raw) specs ≡ raw "--a-b" ∷ raw "a_b" ∷ raw "from" ∷ [])
    × AreFresh [] specs
assign_params-AreFresh_example =
    assign_params-AreFresh py (raw "--a-b" ∷ raw "a_b" ∷ raw "from" ∷ []) []

-- A manifest of one required and one optional argument.
abbrev schema : List (String × Value)
schema =
    ("name", obj (field "type" (str "string") (field "required" (bool true) end)))
    ∷ ("--dry-run", obj (field "type" (str "boolean") end))
    ∷ []

abbrev given : List (String × Value)
given = ("name", str "Ann") ∷ ("dry_run", null) ∷ []

-- Two calls of one caller share an exchange, and a third is served from the cache.
abbrev exchanges : List Event
exchanges = asked "ann" 5 ∷ asked "ann" 6 ∷ ended 0 7 (ok ("token", some (Until.at 1_000))) ∷ []

steps-IsServed_example :
    let (e, log) = run exchanges in
    (length e.cache ≤ max_entries)
    × ((k : String) → e.tasks 0 ≡ some k → e.tasks 1 ≡ some k → ◌≡◌ {A = ℕ} 0 1)
    × ((token "ann" 8 e).0 ≡ cached "token"
        → (was_issued "ann" "token" log ≡ true)
          × ((u : Until) × (lookup "ann" e.cache ≡ some ("token", u)) × (live_at 8 u ≡ true)))
steps-IsServed_example = steps-IsServed exchanges "ann" "token" 8 0 1

abbrev texts : Texts
texts = record { is_code = λ s. true; placeholder = λ s. none; environ = λ s. none }

abbrev blaming : Response
blaming = record { status = 400; body = some (obj (field "error" (str "invalid_grant") end)) }

abbrev join : String → String → String
join a b = b

-- Nobody has the role "admin", which `crm_find` asks for.
abbrev viewer : Viewer
viewer = record {
  host = host;
  request = nobody;
  gates = some (record { roles = some admins_only; hide = true; confirm_gate = none });
}

abbrev tools : Tools ℕ
tools = record {
  refresh = λ w. w;
  by_name = λ w. ("crm_find", find) ∷ [];
  suggest = λ w name. "crm_find" ∷ [];
  hits = λ w query limit. ("crm_find", str "find a contact") ∷ [];
}

is_unseen : sees viewer "crm_find" ≡ false
unfolding visible check_tool
is_unseen = refl

sees-IsHidden_example : IsHidden viewer tools 0 ("crm_find" ∷ []) "crm_find"
sees-IsHidden_example = sees-IsHidden viewer tools 0 ("crm_find" ∷ []) "crm_find" is_unseen

abbrev passes : Option (Result (Unit {0}))
passes = some (ok tt)
