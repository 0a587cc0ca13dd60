-- ===== src/KillSwitch/Cache.antt =====
-- `KillSwitch` and its method `state`: the cached file, and the last good state of a broken one.
pub mod Tracking
use beherouter.Prelude.{
  ℕ, Bool, true, false, ◌&&◌, not, Option, none, some, List, [], ◌∷◌, length, is_some, ◌==◌,
  if◌then◌else◌,
}
use beherouter.Data.{Value}
use beherouter.Errors.{Exc, Result, ok, raise, ◌>>=◌, fail, usage_error, os_error, value_error}
use beherouter.KillSwitch.{KillState, no_stops, empty, parse_state}

-- `(mtime_ns, size, ino)`
pub record Stamp : Type 0 where
  pub mtime : ℕ
  pub size : ℕ
  pub ino : ℕ

abbrev pub same : Stamp → Stamp → Bool
same a b = a.mtime == b.mtime && a.size == b.size && a.ino == b.ino

abbrev pub same_option : Option Stamp → Option Stamp → Bool
same_option none none = true
same_option (some a) (some b) = same a b
same_option _ _ = false

-- What a stat of the path gives (`none`: there is no file), and what a read and a JSON parse of the
-- text give. Either may raise.
pub record File : Type 0 where
  pub stat : Result (Option Stamp)
  pub content : Result Value

pub record KillSwitch : Type 0 where
  pub stamp : Option Stamp
  pub good : Option KillState
  pub bad_stamp : Option (Option Stamp)  -- `none` is `_NONE_BAD`
  pub stale : Bool

abbrev pub fresh : KillSwitch
fresh = record { stamp = none; good = none; bad_stamp = none; stale = false }

-- The lines that are logged: an ERROR about a malformed file, a WARNING about a vanished one.
pub data Log : Type 0 where
  malformed : Log
  lifted : Bool → ℕ → ℕ → Log

pub record Read : Type 0 where
  pub answer : Result KillState
  pub switch : KillSwitch
  pub logged : List Log

-- `except (OSError, ValueError)`
abbrev pub is_caught : Exc → Bool
is_caught os_error = true
is_caught value_error = true
is_caught _ = false

abbrev pub was_bad : KillSwitch → Option Stamp → Bool
was_bad ks stamp = elim ks.bad_stamp [ none ↦ false | some bad ↦ same_option stamp bad ]

-- The handler, with and without a last good state.
keep_good : KillSwitch → Option Stamp → Option KillState → Read
keep_good ks stamp none = record { answer = fail usage_error; switch = ks; logged = [] }
keep_good ks stamp (some good) = record {
  answer = ok good;
  switch = record ks { bad_stamp = some stamp; stale = true };
  logged = if was_bad ks stamp then [] else malformed ∷ [];
}

warn_lifted : Option Stamp → Option KillState → List Log
warn_lifted none (some good) =
    if empty good
    then []
    else lifted (is_some good.all) (length good.surfaces) (length good.subjects) ∷ []
warn_lifted _ _ = []

settle : KillSwitch → Option Stamp → Result KillState → Read
unfolding keep_good warn_lifted
settle ks stamp (ok st) = record {
  answer = ok st;
  switch = record { stamp = stamp; good = some st; bad_stamp = none; stale = false };
  logged = warn_lifted stamp ks.good;
}
settle ks stamp (raise e) =
    if is_caught e
    then keep_good ks stamp ks.good
    else record { answer = raise e; switch = ks; logged = [] }

-- The second and third case of the `try` block need a last good state.
reread : KillSwitch → Stamp → Result KillState → Option KillState → Read
unfolding settle
reread ks stamp parsed none = settle ks (some stamp) parsed
reread ks stamp parsed (some good) =
    if same_option (some stamp) ks.stamp
    then settle ks (some stamp) (ok good)
    else if was_bad ks (some stamp)
    then record { answer = ok good; switch = record ks { stale = true }; logged = [] }
    else settle ks (some stamp) parsed

state_at : KillSwitch → Result Value → Result (Option Stamp) → Read
unfolding reread
state_at ks content (raise e) = settle ks none (raise e)
state_at ks content (ok none) = settle ks none (ok no_stops)
state_at ks content (ok (some stamp)) = reread ks stamp (content >>= parse_state) ks.good

unfoldable pub state : KillSwitch → File → Read
unfolding state_at
state ks file = state_at ks file.content file.stat
