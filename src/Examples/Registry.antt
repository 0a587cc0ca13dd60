-- ===== src/Examples/Registry.antt =====
-- Reloads of the registry, the catalogue of the backend, and its verbs.
use beherouter.Registry.{RegistryEntry, Plugin, Plugins, validate_entry}
use beherouter.Registry.Checked.{IsChecked, validate_entry-IsChecked}
use beherouter.Identity.Tables.Authz.{validate_authz}
use beherouter.Identity.Tables.Modes.{validate_identity}
use beherouter.Gates.Table.{validate_rate_limit}
use beherouter.Prelude.{
  ◌<◌, String, ◌≡◌, ◌↔◌, refl, true, false, none, some, List, [], ◌∷◌, select, arith,
}
use beherouter.Data.{end, field, str, obj, int, pos}
use beherouter.Errors.{Exc, ok, raise}
use beherouter.Models.{ToolDescriptor}
use beherouter.Reload.Reloader.{
  idle, created, new_reloader, is_answered, begin, finish, cancel, Event, requested, begun,
  finished, steps,
}
use beherouter.Reload.Reloader.Account.{IsAccounted, steps-IsAccounted}
use beherouter.Reload.Reloader.Shutdown.{is_unbegun, cancel_answers, cancel_unbegun}
use beherouter.Reload.Reloader.Follow.{two_reloads}
use beherouter.Catalogue.{names}
use beherouter.Catalogue.Fresh.{
  asked, replied, failed, IsSound, attached, steps-IsSound, steps_inert,
}
use beherouter.Catalogue.Fresh as Fresh
use beherouter.Naming.{detect_collisions}
use beherouter.Naming.Collisions.{AreDistinct, detect_collisions-AreDistinct_iff}
use beherouter.Examples.Data.{find, host}

-- Two requests that come while the first reload runs.
abbrev history : List Event
history = requested "signal" ∷ begun ∷ requested "admin" ∷ requested "watch" ∷ []

is_open : (steps history new_reloader).closed ≡ false
unfolding steps
is_open = refl

has_begun : is_unbegun (steps history new_reloader).task ≡ false
unfolding steps
has_begun = refl

has_two : 1 < (steps history new_reloader).made
unfolding steps
has_two = omega arith

account_example : IsAccounted (steps history new_reloader)
account_example = steps-IsAccounted history is_open

cancel_answers_example : is_answered 1 (cancel (steps history new_reloader)).answers ≡ true
cancel_answers_example = cancel_answers history 1 is_open has_begun has_two

two_reloads_example :
    let r' =
      finish (ok end) (finish (raise Exc.value_error) (begin (steps history new_reloader))) in
    (is_answered 1 r'.answers ≡ true) × (r'.task ≡ idle)
two_reloads_example = two_reloads history (raise Exc.value_error) (ok end) 1 is_open has_two

-- A shutdown right behind the first request.
abbrev hasty : List Event
hasty = requested "signal" ∷ []

is_open_too : (steps hasty new_reloader).closed ≡ false
unfolding steps
is_open_too = refl

is_created : (steps hasty new_reloader).task ≡ created 0 "signal"
unfolding steps
is_created = refl

cancel_unbegun_example :
    is_answered 0
      (steps (begun ∷ finished (ok end) ∷ []) (cancel (steps hasty new_reloader))).answers
    ≡ false
cancel_unbegun_example =
    cancel_unbegun hasty (begun ∷ finished (ok end) ∷ []) 0 "signal" is_open_too is_created

abbrev added : ToolDescriptor
added = record find { name = "crm_add"; pinned = false }

abbrev build : List ToolDescriptor → List String
build ds = names ds

fresh_example : IsSound build (names (select (λ d. d.pinned) (find ∷ []))) (
    Fresh.steps build
      (asked 60_000_000_000 ∷ asked 60_000_000_001 ∷ replied (added ∷ []) 60_000_000_002 ∷ [])
      (attached build (find ∷ []) true (some 60_000) 0))
fresh_example =
    steps-IsSound build (find ∷ []) true (some 60_000) 0
      (asked 60_000_000_000 ∷ asked 60_000_000_001 ∷ replied (added ∷ []) 60_000_000_002 ∷ [])

distinct_example :
    (detect_collisions "crm" ("find" ∷ "find-all" ∷ "find all" ∷ []) ≡ ok tt)
    ↔ AreDistinct "crm" ("find" ∷ "find-all" ∷ "find all" ∷ [])
distinct_example = detect_collisions-AreDistinct_iff "crm" ("find" ∷ "find-all" ∷ "find all" ∷ [])

-- A plugin with one required credential, and an entry that supplies it.
abbrev crm_plugin : Plugin
crm_plugin = record {
  spec = record {
    name = "crm";
    backing = "http";
    identity = record { modes = []; target = "header"; accepts = [] };
  };
  config = λ name v. ok [];
  validate = λ d. ok tt;
  requires_entry = [];
  published = λ d. none;
  env = ("token", true) ∷ [];
}

abbrev plugins : Plugins
plugins = record { host = host; map_env = none; find = λ v. ok crm_plugin }

abbrev crm_entry : RegistryEntry
crm_entry = record {
  name = "crm";
  plugin = str "crm";
  body =
      ("env", obj (field "token" (str "${CRM_TOKEN}") end))
      ∷ ("rate_limit", obj (field "calls" (int (pos 5)) (field "per_s" (int (pos 60)) end)))
      ∷ [];
}

is_checked : validate_entry plugins crm_entry ≡ ok tt
unfolding validate_entry validate_identity validate_authz validate_rate_limit
is_checked = refl

validate_entry-IsChecked_example :
    (plugin : Plugin) × (plugins.find (str "crm") ≡ ok plugin) × IsChecked crm_entry plugin
validate_entry-IsChecked_example = validate_entry-IsChecked plugins crm_entry is_checked
