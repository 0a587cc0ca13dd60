-- ===== src/KillSwitch/Stage.antt =====
-- `stage_for`: the stage of every call that asks the kill switch, and what it refuses.
use beherouter.Prelude.{
  String, ◌≡◌, ◌↔◌, ◌⊎◌, Bool, true, false, ◌&&◌, Option, none, some, [], ◌∷◌, arith, has, is_some,
  ◌===◌, is_empty, eq_iff, if◌then◌else◌,
}
use beherouter.Data.{str}
use beherouter.Errors.{Exc, Result, ok, raise, ◌>>=◌, bare, tag, reasons, auth_error}
use beherouter.Identity.{truthy}
use beherouter.Identity.Policy.{or_empty}
use beherouter.Audit.{Caller}
use beherouter.KillSwitch.{KillState, disabled}
use beherouter.KillSwitch.Cache.{KillSwitch, File, state}

-- `caller.auth == "oidc" and caller.sub and caller.sub in state.subjects`
abbrev pub blocked : KillState → Caller → Bool
blocked st caller =
    (caller.auth === "oidc") && truthy caller.sub && has (or_empty caller.sub) st.subjects

abbrev pub surface_disabled : String → Exc
surface_disabled which = tag (bare auth_error) "surface_disabled" (("scope", str which) ∷ [])

abbrev pub caller_blocked : Exc
caller_blocked = tag (bare auth_error) "caller_blocked" []

unfoldable pub verdict : KillState → String → Caller → Result (Unit {0})
unfolding tag reasons disabled
verdict st surface caller = elim (disabled st surface) [
  | some which ↦ raise (surface_disabled which)
  | none ↦ if blocked st caller then raise caller_blocked else ok tt
]

-- The stage, and the switch that it leaves.
unfoldable pub stage : File → String → Caller → KillSwitch → Result (Unit {0}) × KillSwitch
unfolding verdict
stage file surface caller ks =
    let read = state ks file in (do st ← read.answer; verdict st surface caller, read.switch)

-- `stage_for`: no stage, where the kill switch is not configured.
unfoldable pub stage_for :
    Option KillSwitch → File → String → Caller → Result (Unit {0}) × Option KillSwitch
unfolding stage
stage_for none file surface caller = (ok tt, none)
stage_for (some ks) file surface caller =
    let (r, ks') = stage file surface caller ks in (r, some ks')

-- What of the two states a caller can tell apart.
pub record SameStops (st st' : KillState) : Type 0 where
  pub all : is_some st.all ≡ is_some st'.all
  pub surfaces : (k : String) → has k st.surfaces ≡ has k st'.surfaces
  pub subjects : (k : String) → has k st.subjects ≡ has k st'.subjects

-- No refusal depends on what is stored for a stop or a block: two states that stop the same surfaces
-- and block the same callers, for whatever reasons and by whomever, give every caller on every
-- surface the same answer.
pub verdict-SameStops :
    (st st' : KillState) (surface : String) (caller : Caller)
    → SameStops st st'
    → verdict st surface caller ≡ verdict st' surface caller
unfolding verdict
verdict-SameStops st st' surface caller h =
    ground (arith, h.all, h.surfaces surface, h.subjects (or_empty caller.sub))

-- Every stop and block that concerns the caller is off.
pub record IsFree (st : KillState) (surface : String) (caller : Caller) : Type 0 where
  pub running : st.all ≡ none
  pub not_stopped : has surface st.surfaces ≡ false
  pub not_blocked :
      (s : String)
      → caller.auth ≡ "oidc"
      → caller.sub ≡ some s
      → is_empty s ≡ false
      → has s st.subjects ≡ false

verdict-IsFree :
    (st : KillState) (surface : String) (caller : Caller)
    → verdict st surface caller ≡ ok tt
    → IsFree st surface caller
unfolding verdict
verdict-IsFree st surface caller h = record {
  running = ground arith;
  not_stopped = ground arith;
  not_blocked = λ s a b e. ground (arith, eq_iff caller.auth "oidc");
}

IsFree-verdict :
    (st : KillState) (surface : String) (caller : Caller)
    → IsFree st surface caller
    → verdict st surface caller ≡ ok tt
unfolding verdict
IsFree-verdict st surface caller h = ground (
  arith,
  h.running,
  h.not_stopped,
  eq_iff caller.auth "oidc",
  h.not_blocked (or_empty caller.sub),
)

-- The stage lets a call through exactly when no stop is on for the gateway or for the surface, and
-- the caller, if a verified user, is not blocked.
pub verdict-IsFree_iff :
    (st : KillState) (surface : String) (caller : Caller)
    → (verdict st surface caller ≡ ok tt) ↔ IsFree st surface caller
verdict-IsFree_iff st surface caller =
    (verdict-IsFree st surface caller, IsFree-verdict st surface caller)

-- A stopped surface answers before the caller is looked at: whoever calls it, blocked or not, is told
-- the same.
pub verdict_stopped :
    (st : KillState) (surface : String) (c c' : Caller)
    → (is_some st.all ≡ true) ⊎ (has surface st.surfaces ≡ true)
    → verdict st surface c ≡ verdict st surface c'
unfolding verdict
verdict_stopped st surface c c' h = ground arith
