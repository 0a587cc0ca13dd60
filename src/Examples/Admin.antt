-- ===== src/Examples/Admin.antt =====
-- Requests of an admin, who has the admin token.
use beherouter.Prelude.{◌≡◌, ◌⊎◌, refl, false, none, some, [], ◌∷◌, String, is_empty}
use beherouter.Data.{Value, Fields, end, field, str, obj}
use beherouter.Errors.{ok, raise}
use beherouter.Audit.{Caller}
use beherouter.KillSwitch.{KillState, parse_state, as_json, entry}
use beherouter.KillSwitch.Cache.{Stamp, fresh}
use beherouter.KillSwitch.Stage.{verdict, surface_disabled}
use beherouter.KillSwitch.Write.{changed}
use beherouter.Digest.{compare_digest, is_ascii}
use beherouter.Auth.{token_ok}
use beherouter.Admin.{
  shown_as, Request, disable_surface, block_subject, body_of, target_of, change_of, actor_of, World,
  Setup, write,
}
use beherouter.Admin.Actor.{IsAdmin, IsTurnedAway, write-IsRefused}
use beherouter.Admin.Stops.{IsAccepted, IsDone, write-stops}
use beherouter.Examples.Data.{host, stamp, file_of}

abbrev next_stamp : Stamp
next_stamp = record stamp { ino = 3 }

abbrev setup : Setup
setup = record {
  site = record { host = host; verify = λ c. ok none; roles_claim = "roles"; now = "noon" };
  admin = record { token = some "secret"; role = none };
  digest = λ s. ok "digest";
  surfaces = "crm" ∷ [];
  writer = λ v. ok (record { stat = ok (some next_stamp); content = ok v });
}

abbrev world : World
world = record {
  switch = fresh;
  file = file_of (as_json (record { all = none; surfaces = []; subjects = [] }));
  lines = [];
}

abbrev stop_crm : Request
stop_crm = record { scheme = "bearer"; credential = "secret"; body = none; name = "crm" }

abbrev guess : Request
guess = record stop_crm { credential = "guess" }

write-IsRefused_example :
    ((a : String) × (host.lower "bearer" ≡ "bearer")
      × (is_empty "guess" ≡ false)
      × IsAdmin setup.site setup.admin "guess" a)
    ⊎ IsTurnedAway setup disable_surface guess world
        (write setup disable_surface guess world).0
        (write setup disable_surface guess world).1
write-IsRefused_example = write-IsRefused setup disable_surface guess world

abbrev made_by_token : Fields
made_by_token = field "at" (str "noon") (field "by" (str "<admin-token>") end)

abbrev stopped_state : Value
stopped_state =
    obj (
      field "surfaces" (obj (field "crm" (obj made_by_token) end)) (field "subjects" (obj end) end))

stopping_crm : IsAccepted setup disable_surface stop_crm world "crm"
unfolding actor_of token_ok compare_digest is_ascii shown_as body_of target_of changed change_of
    as_json parse_state entry
stopping_crm = record {
  actor = "<admin-token>";
  is_actor = refl;
  body = [];
  is_body = refl;
  is_target = refl;
  shown = "crm";
  is_shown = refl;
  new = stopped_state;
  is_changed = refl;
  file = record { stat = ok (some next_stamp); content = ok stopped_state };
  is_written = refl;
  holds = record { stamp = next_stamp; stat = refl; content = refl; newer = refl; not_bad = refl };
}

write-stops_example :
    (st : KillState) × IsDone setup disable_surface stop_crm world st
    × ((c : Caller) → (which : String) × (verdict st "crm" c ≡ raise (surface_disabled which)))
write-stops_example = write-stops setup stop_crm world "crm" stopping_crm

abbrev block_ann : Request
block_ann = record stop_crm { body = some (ok (obj (field "sub" (str "ann") end))) }

abbrev blocked_state : Value
blocked_state =
    obj (
      field "surfaces" (obj end) (field "subjects" (obj (field "ann" (obj made_by_token) end)) end))

blocking_ann : IsAccepted setup block_subject block_ann world "ann"
unfolding actor_of token_ok compare_digest is_ascii shown_as body_of target_of changed change_of
    as_json parse_state entry
blocking_ann = record {
  actor = "<admin-token>";
  is_actor = refl;
  body = ("sub", str "ann") ∷ [];
  is_body = refl;
  is_target = refl;
  shown = "digest";
  is_shown = refl;
  new = blocked_state;
  is_changed = refl;
  file = record { stat = ok (some next_stamp); content = ok blocked_state };
  is_written = refl;
  holds = record { stamp = next_stamp; stat = refl; content = refl; newer = refl; not_bad = refl };
}
