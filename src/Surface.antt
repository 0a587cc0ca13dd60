-- ===== src/Surface.antt =====
-- surface.py: what a surface publishes and lists, and the work of its tools, for the call pipeline. The
-- search and its suggestions, and the measurement of the costs, are given; so are the live request and
-- the catalogue's state, which is part of the world `W`.
pub mod Hidden
pub mod Labelled
use beherouter.Prelude.{
  ℕ, ◌+◌, zero, suc, String, Bool, true, false, not, ◌&&◌, ◌||◌, Option, none, some, List, [], ◌∷◌,
  ◌++◌, Dict, lookup, has, put, elem, select, length, map, is_nil, ◌===◌, if◌then◌else◌,
}
use beherouter.Data.{
  Value, Fields, Items, ℤ, pos, negsuc, null, bool, str, arr, obj, nil, cons, end, field, to_dict,
  of_dict, of_names, is_true,
}
use beherouter.Errors.{
  AxiError, Exc, axi, Result, ok, raise, ◌>>=◌, bare, tag, reasons, not_found, usage_error,
}
use beherouter.Identity.{Host, RequestIdentity}
use beherouter.Identity.Tables.{meta_tool_names}
use beherouter.Models.{ToolDescriptor}
use beherouter.Gates.{ToolRoleGate, Gates, visible, check_visible, requires_confirmation}
use beherouter.Pipeline.{Work, finish, name_inner, effect, call}
use beherouter.Args.{Python, prepare_args}

abbrev hints : List String
hints = "readOnlyHint" ∷ "destructiveHint" ∷ "idempotentHint" ∷ "openWorldHint" ∷ []

abbrev picked : List String → Dict Value → Dict Value
picked [] d = []
picked (k ∷ ks) d = elim (lookup k d) [ none ↦ picked ks d | some v ↦ (k, v) ∷ picked ks d ]

abbrev mapping : Value → Dict Value
mapping (obj fs) = to_dict fs
mapping _ = []

abbrev or_none : Dict Value → Option (Dict Value)
or_none [] = none
or_none d = some d

-- `republished_annotations`: only what the backend said.
unfoldable pub republished_annotations : ToolDescriptor → Option (Dict Value)
republished_annotations d =
    if is_true d.annotations then or_none (picked hints (mapping d.annotations)) else none

abbrev string_items : Value
string_items =
    obj (field "type" (str "array") (field "items" (obj (field "type" (str "string") end)) end))

-- `wrapped_output_schema`
unfoldable pub wrapped_output_schema : ToolDescriptor → Option Value
wrapped_output_schema d =
    if is_true d.output_schema
    then some (
        obj (
          field "type" (str "object") (
            field "properties"
              (obj (field "result" d.output_schema (field "notes" string_items end)))
              (field "required" (arr (of_names ("result" ∷ []))) end))))
    else none

-- The caller of the moment, and what the surface asks of its gates.
pub record Viewer : Type 0 where
  pub host : Host
  pub request : RequestIdentity
  pub gates : Option Gates

abbrev pub sees : Viewer → String → Bool
sees v name = elim v.gates [ none ↦ true | some g ↦ visible v.host g v.request name ]

abbrev hides : Option Gates → Bool
hides none = false
hides (some g) = elim g.roles [ none ↦ false | some _ ↦ g.hide ]

-- `_GateListing`: the guard of a policy that hides the listing, if there is one; the names published.
abbrev pub listed_after : Viewer → List String → Result (Unit {0}) → Result (List String)
listed_after v names (raise (axi e)) = ok []
listed_after v names (raise e) = raise e
listed_after v names (ok _) = ok (if hides v.gates then select (sees v) names else names)

unfoldable pub list_tools : Viewer → Option (Result (Unit {0})) → List String → Result (List String)
list_tools v none names = listed_after v names (ok tt)
list_tools v (some guard) names = listed_after v names guard

-- The catalogue and the search, as the tools use them.
pub record Tools (W : Type 0) : Type 0 where
  pub refresh : W → W
  pub by_name : W → Dict ToolDescriptor
  pub suggest : W → String → List String
  pub hits : W → String → ℕ → List (String × Value)

-- `unknown_tool`: the suggestions name no tool that is hidden from the caller.
abbrev pub suggestions : {W : Type 0} → Viewer → Tools W → W → String → List String
suggestions v t w name = select (sees v) (t.suggest w name)

unfoldable pub unknown_tool : {W : Type 0} → Viewer → Tools W → W → String → Exc
unfolding tag reasons
unknown_tool v t w name =
    tag (bare not_found) "unknown_tool"
      (("suggestions", arr (of_names (suggestions v t w name))) ∷ [])

abbrev pub unknown_label : String
unknown_label = "<unknown>"

-- `_RecordRefusedCall`: a call that no tool function sees, of a name that is not published or with
-- arguments that do not fit; its label, and its work.
pub data Refusal : Type 0 where
  bad_arguments not_published : Refusal

abbrev pub refusal_of : {W : Type 0} → Viewer → Tools W → W → String → Refusal → Exc
refusal_of v t w name bad_arguments = tag (bare usage_error) "bad_arguments" []
refusal_of v t w name not_published = unknown_tool v t w name

unfoldable pub refused_call :
    {W : Type 0} → Viewer → Tools W → List String → W → String → Refusal → String × Work W
unfolding unknown_tool
refused_call v t published w name r = (
  if elem name (published ++ meta_tool_names) then name else unknown_label,
  finish (raise (refusal_of v t w name r)),
)

-- `run_pinned`
unfoldable pub pinned_work : {W : Type 0} → Python → ToolDescriptor → Fields → Work W
unfolding prepare_args
pinned_work py d args = elim (prepare_args py (to_dict d.schema) (to_dict args)) [
  | raise e ↦ finish (raise e)
  | ok out ↦ call d (of_dict out) (λ r. finish r)
]

abbrev at_most : {A : Type 0} → ℕ → List A → List A
at_most zero xs = []
at_most (suc n) [] = []
at_most (suc n) (x ∷ xs) = x ∷ at_most n xs

-- `max(limit, 0)`
abbrev clamped : ℤ → ℕ
clamped (pos n) = n
clamped (negsuc n) = 0

abbrev gated_tools : Option Gates → ℕ
gated_tools none = 0
gated_tools (some g) = elim g.roles [ none ↦ 0 | some r ↦ if g.hide then length r.tools else 0 ]

-- The hits of `search_tools`, by name.
unfoldable pub found : {W : Type 0} → Viewer → Tools W → String → ℤ → W → List (String × Value)
found v t query limit w =
    at_most (clamped limit)
      (select (λ h. sees v h.0) (t.hits w query (clamped limit + gated_tools v.gates)))

abbrev hit_items : List (String × Value) → Items
hit_items [] = nil
hit_items ((_, h) ∷ hs) = cons h (hit_items hs)

unfoldable pub search_work : {W : Type 0} → Viewer → Tools W → String → ℤ → Work W
unfolding found
search_work v t query limit =
    effect t.refresh (λ w. finish (ok (arr (hit_items (found v t query limit (t.refresh w))))))

abbrev optional : String → Option Value → Fields
optional k none = end
optional k (some v) = field k v end

abbrev then_fields : Fields → Fields → Fields
then_fields end gs = gs
then_fields (field k v fs) gs = field k v (then_fields fs gs)

abbrev mutating_value : Option Bool → Value
mutating_value none = null
mutating_value (some b) = bool b

abbrev confirms : Option Gates → ToolDescriptor → Bool
confirms none d = false
confirms (some g) d = requires_confirmation g d

-- What `describe_tool` says of a tool.
pub description : Option Gates → List String → ToolDescriptor → Value
unfolding wrapped_output_schema
description gates published d = obj (
    field "name" (str d.name) (
      field "summary" (str d.summary) (
        field "mutating" (mutating_value d.mutating) (
          field "pinned" (bool (elem d.name published)) (
            field "args" (obj d.schema) (
              then_fields
                (if is_true d.annotations then field "annotations" d.annotations end else end)
                (then_fields (optional "returns" (wrapped_output_schema d)) (
                  if confirms gates d
                  then field "requires_confirmation" (bool true) end
                  else end))))))))

abbrev may_see : Viewer → String → Result (Unit {0})
may_see v name = elim v.gates [ none ↦ ok tt | some g ↦ check_visible v.host g v.request name ]

unfoldable pub described : {W : Type 0} → Viewer → Tools W → List String → String → W → Result Value
unfolding description unknown_tool
described v t published name w = elim (lookup name (t.by_name w)) [
  | none ↦ raise (unknown_tool v t w name)
  | some d ↦ elim (may_see v d.name) [
    | raise e ↦ raise e
    | ok _ ↦ ok (description v.gates published d)
  ]
]

unfoldable pub describe_work : {W : Type 0} → Viewer → Tools W → List String → String → Work W
unfolding described
describe_work v t published name =
    effect t.refresh (λ w. finish (described v t published name (t.refresh w)))

abbrev pub invoke :
    {W : Type 0} → Python → Viewer → Tools W → W → String → Fields → Option ToolDescriptor → Work W
invoke py v t w name args none = name_inner unknown_label (finish (raise (unknown_tool v t w name)))
invoke py v t w name args (some d) = name_inner d.name (pinned_work py d args)

-- `run_tool`
unfoldable pub run_tool_work : {W : Type 0} → Python → Viewer → Tools W → String → Fields → Work W
unfolding pinned_work unknown_tool
run_tool_work py v t name args =
    effect t.refresh
      (λ w. invoke py v t (t.refresh w) name args (lookup name (t.by_name (t.refresh w))))
