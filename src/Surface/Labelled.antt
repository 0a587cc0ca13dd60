-- ===== src/Surface/Labelled.antt =====
-- What a call is recorded under, and when it reaches the backend.
use beherouter.Prelude.{
  String, ◌≡◌, refl, ap, ◌∙◌, ◌⊎◌, inl, inr, true, Option, none, some, List, ◌++◌, lookup, elem,
  Bool-cases,
}
use beherouter.Data.{Value, Fields, to_dict, of_dict}
use beherouter.Errors.{Exc, Result, ok, raise}
use beherouter.Identity.Tables.{meta_tool_names}
use beherouter.Models.{ToolDescriptor}
use beherouter.Pipeline.Scope.{CallScope}
use beherouter.Pipeline.{Site, CallPipeline, finish, call, run_execute, run_work}
use beherouter.Args.{Python, prepare_args}
use beherouter.Surface.{
  Viewer, Tools, Refusal, refusal_of, unknown_tool, unknown_label, refused_call, pinned_work,
  invoke, run_tool_work,
}

-- How a call of `run_tool` by a caller's `name` ends.
pub record IsLabelled {W : Type 0} (site : Site) (p : CallPipeline W) (py : Python) (v : Viewer)
    (t : Tools W) (name : String) (args : Fields) (scope : CallScope) (w : W) : Type 0 where
  pub unknown :
      lookup name (t.by_name (t.refresh w)) ≡ none
      → run_work site p (run_tool_work py v t name args) scope w ≡ (
        raise (unknown_tool v t (t.refresh w) name),
        record scope { inner_tool = some unknown_label },
        t.refresh w,
      )
  pub misfit :
      (d : ToolDescriptor) (e : Exc)
      → lookup name (t.by_name (t.refresh w)) ≡ some d
      → prepare_args py (to_dict d.schema) (to_dict args) ≡ raise e
      → run_work site p (run_tool_work py v t name args) scope w
        ≡ (raise e, record scope { inner_tool = some d.name }, t.refresh w)
  pub executed :
      (d : ToolDescriptor) (out : List (String × Value))
      → lookup name (t.by_name (t.refresh w)) ≡ some d
      → prepare_args py (to_dict d.schema) (to_dict args) ≡ ok out
      → run_work site p (run_tool_work py v t name args) scope w
        ≡ run_execute site p
            (record scope { inner_tool = some d.name })
            d
            (of_dict out)
            (t.refresh w)

-- `run_tool` looks its tool up in the catalogue once it is fresh. A name that is not there is answered
-- by `unknown_tool` and recorded under a fixed label, never under the caller's text; arguments that
-- do not fit are answered by their error; and in both cases the backend is not called. Otherwise
-- the call is executed, through the tool stages, with what `prepare_args` made of its arguments.
pub run_tool_work-IsLabelled :
    {W : Type 0} (site : Site) (p : CallPipeline W) (py : Python) (v : Viewer) (t : Tools W)
    (name : String) (args : Fields) (scope : CallScope) (w : W)
    → IsLabelled site p py v t name args scope w
unfolding run_tool_work run_work pinned_work
run_tool_work-IsLabelled {W} site p py v t name args scope w = record {
  unknown = λ h. ap after h;
  misfit = λ d e h a. ap after h ∙ ap (λ r. fitted d r) a;
  executed = λ d out h a. ap after h ∙ ap (λ r. fitted d r) a;
}
  where
    after : Option ToolDescriptor → Result Value × CallScope × W
    after o = run_work site p (invoke py v t (t.refresh w) name args o) scope (t.refresh w)

    fitted : ToolDescriptor → Result (List (String × Value)) → Result Value × CallScope × W
    fitted d r =
        run_work site p
          (elim r [ raise e ↦ finish (raise e) | ok out ↦ call d (of_dict out) (λ q. finish q) ])
          (record scope { inner_tool = some d.name }) (t.refresh w)

-- A call that is refused before any tool function runs is recorded under a name that the surface
-- publishes, or under the fixed label; its work calls no backend and leaves the world as it is.
pub refused_call-label :
    {W : Type 0} (v : Viewer) (t : Tools W) (published : List String) (w : W) (name : String)
    (r : Refusal) (site : Site) (p : CallPipeline W) (scope : CallScope)
    → let (label, work) = refused_call v t published w name r in
      ((elem label (published ++ meta_tool_names) ≡ true) ⊎ (label ≡ unknown_label))
      × (run_work site p work scope w ≡ (raise (refusal_of v t w name r), scope, w))
unfolding refused_call run_work
refused_call-label v t published w name r site p scope =
    elim (Bool-cases (elem name (published ++ meta_tool_names))) [
      | inl e ↦ (inl (rw e e), refl)
      | inr e ↦ (inr (rw e refl), refl)
    ]
