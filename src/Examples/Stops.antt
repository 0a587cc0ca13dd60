-- ===== src/Examples/Stops.antt =====
-- The kill switch: surface "crm" is stopped, caller "ann" is blocked.
use beherouter.Prelude.{
  ◌≡◌, refl, true, false, Bool, Option, none, some, List, [], ◌∷◌, ◌==◌, if◌then◌else◌,
}
use beherouter.Data.{Value, end, str}
use beherouter.Errors.{Exc, Result, ok, raise, ◌>>=◌, value_error}
use beherouter.KillSwitch.{KillState, parse_state, as_json}
use beherouter.KillSwitch.Cache.{Stamp, File, fresh}
use beherouter.KillSwitch.Cache.Tracking.{Caught, AllCaught, run, specified, state_tracks_file}
use beherouter.KillSwitch.Format.{parse_state-as_json}
use beherouter.KillSwitch.Write.{IsWritten, changed, Writer}
use beherouter.Examples.Data.{stamp, file_of}

abbrev stopping : KillState
stopping = record { all = none; surfaces = ("crm", end) ∷ []; subjects = ("ann", end) ∷ [] }

-- The content that each stamp stands for: a good state under the stamp of the examples, and a text
-- that is no state under any other inode.
abbrev content : Stamp → Result Value
content s = if s.ino == 1 then ok (as_json stopping) else raise value_error

readable : (s : Stamp) → Caught (content s)
readable s = either (s.ino == 1)
  where
    either : (b : Bool) → Caught (if b then ok (as_json stopping) else raise value_error)
    either true = tt
    either false = refl

-- The file is there, is overwritten with a text that is no state, cannot be read, and vanishes.
abbrev stats : List (Result (Option Stamp))
stats = ok (some stamp) ∷ ok (some (record stamp { ino = 2 })) ∷ raise Exc.os_error ∷ ok none ∷ []

all_caught : AllCaught content readable stats
all_caught = (tt, (tt, (refl, (tt, tt))))

tracks_example : run content readable fresh stats ≡ specified content readable none stats
tracks_example = state_tracks_file content readable stats all_caught

parses : parse_state (as_json stopping) ≡ ok stopping
unfolding parse_state as_json
parses = refl

round_trip_example : parse_state (as_json stopping) ≡ ok stopping
round_trip_example = parse_state-as_json (as_json stopping) stopping parses

-- Lifts the stop of the surface.
abbrev lift : Value → Result Value
lift v = ok (as_json (record { all = none; surfaces = []; subjects = ("ann", end) ∷ [] }))

abbrev broken : File
broken = record (file_of (str "no state")) { stat = ok (some stamp) }

abbrev write : Writer
write v = ok (record { stat = ok (some (record stamp { ino = 3 })); content = ok v })

no_state : (broken.content >>= parse_state) ≡ raise value_error
unfolding parse_state
no_state = refl

abbrev lifted : Value
lifted = as_json (record { all = none; surfaces = []; subjects = ("ann", end) ∷ [] })

is_changed : changed (file_of (as_json stopping)) lift ≡ ok lifted
unfolding changed parse_state as_json
is_changed = refl

abbrev after_write : File
after_write = record { stat = ok (some (record stamp { ino = 3 })); content = ok lifted }

is_written : IsWritten fresh lifted after_write
is_written = record {
  stamp = record stamp { ino = 3 };
  stat = refl;
  content = refl;
  newer = refl;
  not_bad = refl;
}
