-- ===== src/Outcomes/Reasons.antt =====
-- The reason and the kind that `classify` gives, and what `tag` does to them.
use beherouter.Prelude.{
  String, ◌≡◌, refl, sym, ap, ◌∙◌, true, Option, none, some, [], ◌∷◌, Dict, lookup, has,
  set_default, arith, eq_iff, eq_refl, lookup-set_default,
}
use beherouter.Data.{Value, str}
use beherouter.Errors.{ErrorClass, AxiError, Exc, axi, reasons, set_defaults, tag}
use beherouter.Outcomes.{Phase, Outcome, untagged, known, classify, kind_of, or_else}

abbrev pub IsKnown : Outcome → Type 0
IsKnown o = (r : String) × (o.reason ≡ some r) × (lookup r reasons ≡ some o.kind)

untagged_known :
    (c : ErrorClass) (p : Phase) → lookup (untagged c p) reasons ≡ some (kind_of (untagged c p))
unfolding untagged reasons
untagged_known ErrorClass.axi_error Phase.gate = refl
untagged_known ErrorClass.axi_error Phase.prepare = refl
untagged_known ErrorClass.axi_error Phase.execute = refl
untagged_known ErrorClass.auth_error Phase.gate = refl
untagged_known ErrorClass.auth_error Phase.prepare = refl
untagged_known ErrorClass.auth_error Phase.execute = refl
untagged_known ErrorClass.not_found Phase.gate = refl
untagged_known ErrorClass.not_found Phase.prepare = refl
untagged_known ErrorClass.not_found Phase.execute = refl
untagged_known ErrorClass.conflict Phase.gate = refl
untagged_known ErrorClass.conflict Phase.prepare = refl
untagged_known ErrorClass.conflict Phase.execute = refl
untagged_known ErrorClass.unavailable Phase.gate = refl
untagged_known ErrorClass.unavailable Phase.prepare = refl
untagged_known ErrorClass.unavailable Phase.execute = refl
untagged_known ErrorClass.usage_error Phase.gate = refl
untagged_known ErrorClass.usage_error Phase.prepare = refl
untagged_known ErrorClass.usage_error Phase.execute = refl

-- A reason that is read off a context is one of the table, and any other falls back on `d`.
known-known :
    (v : Option Value) (d : String)
    → lookup d reasons ≡ some (kind_of d)
    → lookup (or_else (known v) d) reasons ≡ some (kind_of (or_else (known v) d))
known-known (some (str r)) d h = ground arith
known-known none d h = h
known-known (some _) d h = h

-- Whatever was raised, and in whatever phase, the outcome has a reason of the table, and its kind
-- is the one that the table gives for that reason.
pub classify-IsKnown : (exc : Exc) (phase : Phase) → IsKnown (classify exc phase)
unfolding classify reasons
classify-IsKnown (axi e) phase = (
  _,
  refl,
  known-known (lookup "reason" e.context) (untagged e.cls phase) (untagged_known e.cls phase),
)
classify-IsKnown Exc.value_error phase = (_, refl, refl)
classify-IsKnown _ phase = (_, refl, refl)

-- What is in the context stays as it is.
lookup-set_defaults :
    (k : String) (more d : Dict Value) (v : Value)
    → lookup k d ≡ some v
    → lookup k (set_defaults more d) ≡ some v
unfolding set_defaults
lookup-set_defaults k [] d v h = h
lookup-set_defaults k ((j, w) ∷ more) d v h =
    lookup-set_defaults k more (set_default j w d) v
      (ground (arith, lookup-set_default j k w d, eq_iff j k))

lookup_self :
    (r : String) (d : Dict Value) (v : Value)
    → lookup r d ≡ none
    → lookup r (set_default r v d) ≡ some v
lookup_self r d v h = ground (arith, lookup-set_default r r v d, eq_refl r)

tagged : AxiError → String → Dict Value → AxiError
tagged e r c = record e { context = set_defaults c (set_default "reason" (str r) e.context) }

context_of : Exc → Dict Value
context_of (axi e) = e.context
context_of _ = []

-- With a reason of the table `tag` raises no `ValueError`.
tag_known :
    (e : AxiError) (r : String) (c : Dict Value)
    → has r reasons ≡ true
    → tag e r c ≡ axi (tagged e r c)
unfolding tag tagged
tag_known e r c k = rw k

reason_of_context :
    (e : AxiError) (r : String) (phase : Phase)
    → has r reasons ≡ true
    → lookup "reason" e.context ≡ some (str r)
    → ((classify (axi e) phase).reason ≡ some r)
      × (lookup r reasons ≡ some (classify (axi e) phase).kind)
unfolding classify
reason_of_context e r phase k h = ground arith

-- The first tag of an error sticks: a later tag with another reason of the table changes neither
-- the reason nor the kind of the outcome, whatever contexts the two bring and whatever the phase.
pub first_tag_sticks :
    (e e' : AxiError) (r r' : String) (c c' : Dict Value) (phase : Phase)
    → has r reasons ≡ true
    → has r' reasons ≡ true
    → lookup "reason" e.context ≡ none
    → tag e r c ≡ axi e'
    → ((classify (tag e' r' c') phase).reason ≡ some r)
      × (lookup r reasons ≡ some (classify (tag e' r' c') phase).kind)
unfolding tagged context_of
first_tag_sticks e e' r r' c c' phase k k' h t =
    let first : lookup "reason" e'.context ≡ some (str r) =
      rw (← ap context_of (sym (tag_known e r c k) ∙ t))
        (lookup-set_defaults "reason" c _ (str r) (lookup_self "reason" e.context (str r) h)) in
    rw (tag_known e' r' c' k') (
      reason_of_context (tagged e' r' c') r phase k (
        lookup-set_defaults "reason" c' _ (str r)
          (ground (arith, lookup-set_default "reason" "reason" (str r') e'.context))))
