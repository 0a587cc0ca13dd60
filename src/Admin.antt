-- ===== src/Admin.antt =====
-- admin.py: who is an admin, and the requests that change the kill switch. A request is given as what the
-- server has read of it: the scheme and the credential of its header, its body and the name in its path.
-- The problem bodies and the counters are left out; each answer is its status. The verifier and the
-- digest of a subject may raise, the digest of a text that has no UTF-8.
pub mod Actor
pub mod Lines
pub mod Stops
pub mod Other
use beherouter.Prelude.{
  ◌⊎◌, inl, inr, elem, ℕ, ◌+◌, String, Bool, true, false, not, ◌&&◌, ◌||◌, Option, none, some, List,
  [], ◌∷◌, Dict, lookup, has, put, set_default, select_keys, is_empty, leb, ◌===◌, if◌then◌else◌,
}
use beherouter.Data.{Value, Fields, null, str, obj, end, get, to_dict, of_dict}
use beherouter.Errors.{
  ErrorClass, AxiError, Exc, axi, Result, ok, raise, ◌>>=◌, ◌>>◌, require, conflict, usage_error,
  auth_error, type_error,
}
use beherouter.Identity.{Host, RequestIdentity, check_roles}
use beherouter.Identity.Policy.{or_empty}
use beherouter.Identity.Request.{AccessToken, shared_client_id, identity_from_token}
use beherouter.Auth.{token_ok}
use beherouter.KillSwitch.{KillState, entry}
use beherouter.KillSwitch.Cache.{KillSwitch, File, state}
use beherouter.KillSwitch.Write.{Writer, update}

pub record AdminAuth : Type 0 where
  pub token : Option String
  pub role : Option String

abbrev filled : Option String → Option String
filled none = none
filled (some s) = if is_empty s then none else some s

abbrev some_auth : Option String → Option String → Option AdminAuth
some_auth none none = none
some_auth token role = some (record { token = token; role = role })

-- `AdminAuth.from_env`, of the two variables; `strip` is `str.strip`.
pub from_env : (String → String) → Option String → Option String → Option AdminAuth
from_env strip token role = some_auth (filled token) (filled (some (strip (or_empty role))))

abbrev same_secret : Option String → Option String → Bool
same_secret (some a) (some b) = a === b
same_secret _ _ = false

abbrev role_rule : Option String → String → String → Result (Unit {0})
role_rule none mode claim = ok tt
role_rule (some _) mode claim = do require (not (mode === "shared")); require (not (is_empty claim))

-- `check_admin_config`, given the clients' token, the mode and the claim that roles are read from.
unfoldable pub check_admin_config :
    Option AdminAuth → Option String → String → String → Result (Unit {0})
check_admin_config none shared mode claim = ok tt
check_admin_config (some a) shared mode claim = do
  require (not (same_secret a.token shared))
  role_rule a.role mode claim

pub record Request : Type 0 where
  pub scheme : String
  pub credential : String
  pub body : Option (Result Value)  -- `none`: the body is empty
  pub name : String

-- What the requests need of their surroundings.
pub record Site : Type 0 where
  pub host : Host
  pub verify : String → Result (Option AccessToken)
  pub roles_claim : String
  pub now : String

abbrev token_actor : String
token_actor = "<admin-token>"

abbrev pub refused_actor : String
refused_actor = "<refused>"

abbrev pub name_or : String → Option String → String
name_or d none = d
name_or d (some s) = if is_empty s then d else s

-- What follows a token that was verified.
abbrev pub holder : Site → String → AccessToken → ℕ ⊎ String
holder site role found =
    if found.client_id === shared_client_id
    then inl 401
    else (let req = identity_from_token site.host found [] in
        elim (check_roles site.host (role ∷ []) site.roles_claim req.claims) [
          | raise _ ↦ inl 403
          | ok _ ↦ inr (name_or "<unknown-subject>" req.subject)
        ])

abbrev pub verified : Site → String → Option AccessToken → ℕ ⊎ String
verified site role none = inl 401
verified site role (some found) = holder site role found

abbrev pub by_role : Site → Option String → String → Result (ℕ ⊎ String)
by_role site none cred = ok (inl 401)
by_role site (some role) cred = do found ← site.verify cred; ok (verified site role found)

abbrev pub actor_if : Site → AdminAuth → String → Bool → Result (ℕ ⊎ String)
actor_if site admin cred true = ok (inr token_actor)
actor_if site admin cred false = by_role site admin.role cred

-- `_actor`: the status of the refusal, or the admin.
unfoldable pub actor_of : Site → AdminAuth → Request → Result (ℕ ⊎ String)
unfolding check_roles identity_from_token token_ok
actor_of site admin r =
    if not (site.host.lower r.scheme === "bearer") || is_empty r.credential
    then ok (inl 401)
    else token_ok admin.token r.credential >>= actor_if site admin r.credential

abbrev length_of : String → ℕ
length_of String.[] = 0
length_of (String.◌∷◌ c s) = length_of s + 1

abbrev reason_ok : Value → Bool
reason_ok null = true
reason_ok (str s) = leb (length_of s) 200
reason_ok _ = false

abbrev parsed_body : Value → Option (Dict Value)
parsed_body (obj fs) = if reason_ok (get "reason" (to_dict fs)) then some (to_dict fs) else none
parsed_body _ = none

-- `_body`: `none` is the 400.
unfoldable pub body_of : Request → Option (Dict Value)
body_of r = elim r.body [ none ↦ some [] | some (raise _) ↦ none | some (ok v) ↦ parsed_body v ]

-- A change is made to the raw state of the file.
abbrev pub on_dict : (Dict Value → Result (Dict Value)) → Value → Result Value
on_dict change (obj fs) = do d ← change (to_dict fs); ok (obj (of_dict d))
on_dict change _ = raise type_error

abbrev pub table_at : Option Value → Result (Dict Value)
table_at none = ok []
table_at (some (obj fs)) = ok (to_dict fs)
table_at (some _) = raise type_error

abbrev pub text_of : Value → Option String
text_of (str s) = some s
text_of _ = none

abbrev pub set_in : String → String → Fields → Dict Value → Result (Dict Value)
set_in kind name e raw = do
  t ← table_at (lookup kind raw)
  ok (put kind (obj (of_dict (put name (obj e) t))) raw)

abbrev drop_in : String → String → Dict Value → Result (Dict Value)
drop_in kind name raw = do
  t ← table_at (lookup kind raw)
  ok (put kind (obj (of_dict (select_keys (λ k. not (k === name)) t))) raw)

abbrev stop_in : Fields → Dict Value → Result (Dict Value)
stop_in e raw = ok (put "all" (obj e) raw)

abbrev resume_in : Dict Value → Result (Dict Value)
resume_in raw = ok (select_keys (λ k. not (k === "all")) raw)

-- The requests: `everything`, `surface`, `block` and `unblock`, by path and method.
pub data Action : Type 0 where
  stop_all resume_all disable_surface enable_surface block_subject unblock_subject : Action

-- What an accepted request writes: `_stop_all`, `_resume_all`, `_set` and `_drop`.
unfoldable pub change_of : Action → String → Fields → Value → Result Value
change_of stop_all target e = on_dict (stop_in e)
change_of resume_all target e = on_dict resume_in
change_of disable_surface target e = on_dict (set_in "surfaces" target e)
change_of enable_surface target e = on_dict (drop_in "surfaces" target)
change_of block_subject target e = on_dict (set_in "subjects" target e)
change_of unblock_subject target e = on_dict (drop_in "subjects" target)

abbrev sub_of : Value → Option String
sub_of (str s) = if is_empty s || not (leb (length_of s) 512) then none else some s
sub_of _ = none

-- `target_of`: `none` is the 400 of `body_sub`.
unfoldable pub target_of : Action → Request → Dict Value → Option String
target_of stop_all r d = some "*"
target_of resume_all r d = some "*"
target_of disable_surface r d = some r.name
target_of enable_surface r d = some r.name
target_of block_subject r d = sub_of (get "sub" d)
target_of unblock_subject r d = sub_of (get "sub" d)

pub data Kind : Type 0 where
  all surface subject : Kind

abbrev pub kind_of : Action → Kind
kind_of stop_all = all
kind_of resume_all = all
kind_of disable_surface = surface
kind_of enable_surface = surface
kind_of block_subject = subject
kind_of unblock_subject = subject

-- What a target is shown as: of a subject only its digest, `subject_digest`.
unfoldable pub shown_as : (String → Result String) → Kind → String → Result String
shown_as digest subject target = digest target
shown_as digest _ target = ok target

-- audit.py: `emit_admin`
pub record AdminLine : Type 0 where
  pub action : Action
  pub target : String
  pub actor : String
  pub outcome : String

pub record Answer : Type 0 where
  pub status : ℕ
  pub state : Option KillState
  pub warning : Bool

abbrev pub problem : ℕ → Answer
problem status = record { status = status; state = none; warning = false }

-- The kill switch, its file and the audit lines.
pub record World : Type 0 where
  pub switch : KillSwitch
  pub file : File
  pub lines : List AdminLine

abbrev lined : Action → String → String → String → World → World
lined action target actor outcome w = record w {
  lines = record { action = action; target = target; actor = actor; outcome = outcome } ∷ w.lines;
}

abbrev pub is_unknown : Kind → String → List String → Bool
is_unknown surface name names = not (elem name names)
is_unknown _ name names = false

abbrev pub has_class : (ErrorClass → Bool) → Exc → Bool
has_class p (axi e) = p e.cls
has_class p _ = false

abbrev pub is_conflict : ErrorClass → Bool
is_conflict conflict = true
is_conflict _ = false

abbrev pub is_usage : ErrorClass → Bool
is_usage usage_error = true
is_usage _ = false

-- The end of `write`, behind `ks.update`.
abbrev pub updated :
    Action → String → String → Bool → Result KillState → World → Result Answer × World
updated action shown actor unknown (ok st) w = (
  ok (record { status = 200; state = some st; warning = unknown }),
  lined action shown actor "ok" w,
)
updated action shown actor unknown (raise e) w =
    if has_class is_conflict e
    then (ok (problem 409), lined action shown actor "conflict" w)
    else if has_class is_usage e
    then (ok (problem 400), lined action shown actor "bad_request" w)
    else (raise e, w)

-- What of the gateway a request reads: the credentials, the digest of a subject, and its surfaces.
pub record Setup : Type 0 where
  pub site : Site
  pub admin : AdminAuth
  pub digest : String → Result String
  pub surfaces : List String
  pub writer : Writer

abbrev pub write_shown :
    Setup → Action → String → Dict Value → String → Result String → World → Result Answer × World
write_shown s action actor d target (raise e) w = (raise e, w)
write_shown s action actor d target (ok shown) w =
    let e = entry s.site.now (text_of (get "reason" d)) actor in
    let (answer, switch, file) = update w.switch w.file (change_of action target e) s.writer in
    updated action shown actor (is_unknown (kind_of action) target s.surfaces) answer
      (record w { switch = switch; file = file })

abbrev pub write_target :
    Setup → Action → Request → String → Dict Value → Option String → World → Result Answer × World
write_target s action r actor d none w = (ok (problem 400), lined action "-" actor "bad_request" w)
write_target s action r actor d (some target) w =
    write_shown s action actor d target (shown_as s.digest (kind_of action) target) w

abbrev pub write_body :
    Setup → Action → Request → String → Option (Dict Value) → World → Result Answer × World
write_body s action r actor none w = (ok (problem 400), lined action "-" actor "bad_request" w)
write_body s action r actor (some d) w = write_target s action r actor d (target_of action r d) w

abbrev pub write_as : Setup → Action → Request → Result (ℕ ⊎ String) → World → Result Answer × World
write_as s action r (raise e) w = (raise e, w)
write_as s action r (ok (inl status)) w =
    (ok (problem status), lined action "-" refused_actor "refused" w)
write_as s action r (ok (inr actor)) w = write_body s action r actor (body_of r) w

-- `write`
unfoldable pub write : Setup → Action → Request → World → Result Answer × World
unfolding actor_of body_of target_of shown_as change_of update
write s action r w = write_as s action r (actor_of s.site s.admin r) w
