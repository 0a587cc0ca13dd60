-- ===== src/Args/Forwarded.antt =====
-- What the backend receives of the arguments of a call.
use beherouter.Prelude.{
  ℕ, ◌+◌, ◌≤◌, String, ◌≡◌, Bool, true, false, not, ◌&&◌, ◌||◌, none, some, List, [], ◌∷◌, Dict,
  lookup, has, elem, map, all, ◌===◌, if◌then◌else◌,
}
use beherouter.Data.{Value, is_null}
use beherouter.Errors.{ok, raise}
use beherouter.Args.{
  Python, Spec, normalize_args, is_closed, to_wire, defaults, Mapped, is_default, wire_of,
}

abbrev wires_of : List Spec → List String
wires_of ss = map (λ (s : Spec). s.raw.wire) ss

-- Every spelling leads to a name that is declared.
abbrev leads : List String → Dict String → String → Bool
leads declared m key = elim (lookup key m) [ none ↦ true | some w ↦ elem w declared ]

-- How many of the arguments are spellings of the wire name `w`.
abbrev pub spellings : Dict String → Bool → String → Dict Value → ℕ
spellings wires closed w [] = 0
spellings wires closed w ((key, _) ∷ more) =
    elim (wire_of wires closed key) [ raise _ ↦ 0 | ok v ↦ if v === w then 1 else 0 ]
    + spellings wires closed w more

-- A value that is forwarded is worth it, and, where the schema is closed, has a declared name.
abbrev worth : Python → Dict Value → Bool → List String → Mapped → String → Bool
worth py ds closed declared m w = elim (lookup w m.out) [
  | none ↦ true
  | some v ↦ not (is_null v) && not (is_default py ds w v) && (not closed || elem w declared)
]

abbrev times : Mapped → String → ℕ
times m w = if has w m.source then 1 else 0

-- What is forwarded is what the tool's schema asks for.
pub record IsPrepared (py : Python) (schema args out : Dict Value) : Type 0 where
  pub specs : List Spec
  pub normalized : normalize_args py schema ≡ ok specs
  pub required : all (λ (s : Spec). not s.raw.required || has s.raw.wire out) specs ≡ true
  pub not_null : (w : String) (v : Value) → lookup w out ≡ some v → is_null v ≡ false
  pub not_default :
      (w : String) (v : Value)
      → lookup w out ≡ some v
      → is_default py (defaults specs []) w v ≡ false
  pub declared :
      (w : String) → is_closed schema ≡ true → has w out ≡ true → elem w (wires_of specs) ≡ true
  pub once : (w : String) → spellings (to_wire specs []) (is_closed schema) w args ≤ 1
