-- ===== src/Admin/Other.antt =====
-- admin.py: the requests that do not change the kill switch: a reload of the registry, and the read of
-- the kill switch's state.
use beherouter.Prelude.{ℕ, ◌⊎◌, inl, inr, String, Bool, Option, none, some, ◌===◌, if◌then◌else◌}
use beherouter.Errors.{Result, ok, raise}
use beherouter.KillSwitch.Cache.{state}
use beherouter.Admin.{Request, Answer, problem, World, Setup, actor_of, refused_actor}

-- The lines of these requests, whose target is the registry or everything.
pub record OtherLine : Type 0 where
  pub action : String
  pub actor : String
  pub outcome : String

abbrev line : String → String → String → OtherLine
line action actor outcome = record { action = action; actor = actor; outcome = outcome }

-- What the reloader gave: the outcome of the report; and whether it is closed by then.
abbrev reloaded : String → Bool → Result String → Answer × OtherLine
reloaded actor closed (raise e) = (problem 503, line "reload" actor "failed")
reloaded actor closed (ok outcome) = (
  if outcome === "failed" then (if closed then problem 503 else problem 422) else problem 200,
  line "reload" actor outcome,
)

abbrev reload_as : Result (ℕ ⊎ String) → Bool → Result String → Result (Answer × OtherLine)
reload_as (raise e) closed r = raise e
reload_as (ok (inl status)) closed r = ok (problem status, line "reload" refused_actor "refused")
reload_as (ok (inr actor)) closed r = ok (reloaded actor closed r)

-- `reload`: the answer and its line; the reloader is asked only for an admin.
unfoldable pub reload_request : Setup → Request → Bool → Result String → Result (Answer × OtherLine)
unfolding actor_of
reload_request s r closed result = reload_as (actor_of s.site s.admin r) closed result

abbrev shown_state : World → Result Answer × World
shown_state w =
    let read = state w.switch w.file in
    (
      elim read.answer [
        | raise e ↦ raise e
        | ok st ↦ ok (record { status = 200; state = some st; warning = Bool.false })
      ],
      record w { switch = read.switch },
    )

abbrev read_as : Result (ℕ ⊎ String) → World → Result Answer × World × Option OtherLine
read_as (raise e) w = (raise e, w, none)
read_as (ok (inl status)) w =
    (ok (problem status), w, some (line "read_killswitch" refused_actor "refused"))
read_as (ok (inr actor)) w =
    let (answer, w') = shown_state w in (answer, w', some (line "read_killswitch" actor "ok"))

-- `get_state`: the line is written before the file is read.
unfoldable pub get_state : Setup → Request → World → Result Answer × World × Option OtherLine
unfolding actor_of
get_state s r w = read_as (actor_of s.site s.admin r) w
