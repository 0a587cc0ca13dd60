-- ===== src/Errors.antt =====
-- errors.py: the error classes, the table of reasons and `tag`. The classes are those of the
-- package beheaxi; no code reads the text of a message, and it is left out.
use beherouter.Prelude.{
  ◌≡◌, refl, ◌⊎◌, inl, inr, Bool, true, false, String, [], ◌∷◌, Dict, has, set_default,
  if◌then◌else◌,
}
use beherouter.Data.{Value, str}

pub data ErrorClass : Type 0 where
  axi_error auth_error conflict not_found unavailable usage_error : ErrorClass

pub record AxiError : Type 0 where
  pub cls : ErrorClass
  pub context : Dict Value

-- What can be raised: an `AxiError`, or another exception of the language or of a library.
pub data Exc : Type 0 where
  axi : AxiError → Exc
  value_error type_error key_error os_error timeout_error mcp_error runtime_error overflow_error
        cancelled :
      Exc

pub data Result {ℓ} (A : Type ℓ) : Type ℓ where
  ok : A → Result A
  raise : Exc → Result A

infixl 5 ◌>>◌
infixl 5 ◌>>=◌
-- An exception ends a `do` block; a value is handed on.
abbrev pub ◌>>=◌ {ℓ κ} : {X : Type ℓ} {Y : Type κ} → Result X → (X → Result Y) → Result Y
raise exc >>= next = raise exc
ok value >>= next = next value

abbrev pub ◌>>◌ {ℓ} : {Y : Type ℓ} → Result (Unit {0}) → Result Y → Result Y
first >> then_do = first >>= λ _. then_do

abbrev pub bare : ErrorClass → AxiError
bare c = record { cls = c; context = [] }

-- `if not b: raise e`
abbrev pub check : Bool → Exc → Result (Unit {0})
check true e = ok tt
check false e = raise e

-- `raise UsageError(...)` and its like, with no tag.
abbrev pub fail {ℓ} : {A : Type ℓ} → ErrorClass → Result A
fail c = raise (axi (bare c))

unfoldable pub reasons : Dict String
reasons =
    ("unauthenticated", "refused")
    ∷ ("missing_role", "refused")
    ∷ ("wrong_audience", "refused")
    ∷ ("rate_limited", "refused")
    ∷ ("confirmation_required", "refused")
    ∷ ("surface_disabled", "refused")
    ∷ ("caller_blocked", "refused")
    ∷ ("identity_unavailable", "unavailable")
    ∷ ("unknown_tool", "not_found")
    ∷ ("bad_arguments", "tool_error")
    ∷ ("edition_unsupported", "tool_error")
    ∷ ("backend_rejected", "tool_error")
    ∷ ("backend_unavailable", "unavailable")
    ∷ ("timeout", "timeout")
    ∷ ("internal", "internal")
    ∷ []

-- The loop of `tag` over its keyword arguments.
unfoldable pub set_defaults : Dict Value → Dict Value → Dict Value
set_defaults [] context = context
set_defaults ((k, v) ∷ more) context = set_defaults more (set_default k v context)

-- The exception that `raise tag(...)` raises.
unfoldable pub tag : AxiError → String → Dict Value → Exc
unfolding set_defaults
tag exc reason context =
    if has reason reasons
    then axi (record exc {
      context = set_defaults context (set_default "reason" (str reason) exc.context);
    })
    else value_error

-- Inversion of a successful bind.
pub >>=-eq-ok {ℓ κ} :
    {X : Type ℓ} {Y : Type κ} (r : Result X) (next : X → Result Y) {y : Y}
    → (r >>= next) ≡ ok y
    → (x : X) × (r ≡ ok x) × (next x ≡ ok y)
>>=-eq-ok (raise exc) next h = cc
>>=-eq-ok (ok x) next h = (x, refl, h)

pub Result-cases {ℓ} :
    {A : Type ℓ} (r : Result A) → ((a : A) × (r ≡ ok a)) ⊎ ((e : Exc) × (r ≡ raise e))
Result-cases (ok a) = inl (a, refl)
Result-cases (raise e) = inr (e, refl)

pub check-eq-ok : (b : Bool) (e : Exc) → check b e ≡ ok tt → b ≡ true
check-eq-ok true e h = refl
check-eq-ok false e h = cc

-- `if not b: raise UsageError(...)`
abbrev pub require : Bool → Result (Unit {0})
require b = check b (axi (bare usage_error))
