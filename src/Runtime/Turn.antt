-- ===== src/Runtime/Turn.antt =====
-- runtime.py: the boot of the gateway and its start, and a reload of the registry. What a reload awaits
-- is an argument: what the attach of each target gives, what other tasks do before that, and what they
-- do while its app starts. The attaches run at once, each on entries of its own name, so their effects
-- are applied in the order of the targets.
use beherouter.Prelude.{
  ℕ, ◌+◌, String, Bool, true, false, Option, none, some, List, [], ◌∷◌, ◌++◌, Dict, lookup, put,
  select, is_some, if◌then◌else◌,
}
use beherouter.Data.{is_true}
use beherouter.Errors.{Exc, Result, ok, raise}
use beherouter.Identity.Tables.{Entry}
use beherouter.Reload.{Diff, diff}
use beherouter.Runtime.{
  Runtime, assign, drop, discard, is_config_fault, forget_name, start_retry, retire, cancel_retry,
  install, Attach, attach_effects, Event, step, steps,
}

-- `SurfaceSlot(name)`, in the table.
abbrev pub add_slot : String → Bool → Runtime → Runtime
add_slot name fault g = record g {
  slots =
      assign g.made
        (record { name = name; app = none; supervisor = none; retry = none; config_fault = fault })
        g.slots;
  table = put name g.made g.table;
  made = g.made + 1;
}

abbrev with_fault : String → Bool → List String → List String
with_fault name true names = name ∷ names
with_fault name false names = discard name names

-- The branches of `_attach_failed` before its retry.
abbrev failed_slot : ℕ → String → Exc → Runtime → Runtime
failed_slot k name e g =
    let slot = g.slots k in
    if is_some slot.app then record g { reload_failed = name ∷ g.reload_failed } else record g {
      slots = assign k (record slot { config_fault = is_config_fault e }) g.slots;
      failed = put name e g.failed;
      config_faults = with_fault name (is_config_fault e) g.config_faults;
    }

unfoldable pub attach_failed : ℕ → String → Entry → Exc → Runtime → Runtime
unfolding start_retry
attach_failed k name entry e g =
    let noted = failed_slot k name e g in
    if is_config_fault e then noted else start_retry k entry noted

-- What becomes of one target: the end of its attach, what other tasks do while its app starts, and
-- whether that starts.
pub record Outcome : Type 0 where
  pub attach : Attach
  pub meanwhile : List Event
  pub start : Result (Unit {0})

abbrev without_limiter : String → Entry → Runtime → Runtime
without_limiter name entry g =
    if is_true entry.rate_limit then g else record g { limiters = drop name g.limiters }

abbrev pub settled : ℕ → String → Entry → Result (Unit {0}) → Runtime → Runtime
settled k name entry (ok _) g = without_limiter name entry (forget_name name (install k g))
settled k name entry (raise e) g = attach_failed k name entry e g

abbrev pub answer_of : ℕ → String → Entry → Outcome → Result (Unit {0}) → Runtime → Runtime
answer_of k name entry o (ok _) g = settled k name entry o.start (steps o.meanwhile g)
answer_of k name entry o (raise e) g = attach_failed k name entry e g

abbrev pub slot_of : String → Option ℕ → Runtime → ℕ × Runtime
slot_of name (some k) g = (k, g)
slot_of name none g = (g.made, add_slot name false g)

-- The body of the loop over the targets.
unfoldable pub settle_target : String → Entry → Outcome → Runtime → Runtime
unfolding install attach_failed cancel_retry
settle_target name entry o g =
    let (k, here) = slot_of name (lookup name g.table) g in
    answer_of k name entry o o.attach.result (cancel_retry k here)

abbrev pub settle_known : String → Option Entry → Outcome → Runtime → Runtime
settle_known name none o g = g
settle_known name (some entry) o g = settle_target name entry o g

unfoldable pub settle_targets : List String → Dict Entry → (String → Outcome) → Runtime → Runtime
unfolding settle_target
settle_targets [] new outcome g = g
settle_targets (n ∷ ns) new outcome g =
    settle_targets ns new outcome (settle_known n (lookup n new) (outcome n) g)

abbrev removed : String → Option ℕ → Runtime → Runtime
removed name none g = g
removed name (some k) g =
    let left =
      retire (g.slots k).supervisor (cancel_retry k (record g { table = drop name g.table })) in
    record (forget_name name left) {
      pinned_missing = drop name left.pinned_missing;
      limiters = drop name left.limiters;
    }

-- `_remove`
unfoldable pub remove : String → Runtime → Runtime
unfolding retire cancel_retry
remove name g = removed name (lookup name g.table) g

unfoldable pub remove_all : List String → Runtime → Runtime
unfolding remove
remove_all [] g = g
remove_all (n ∷ ns) g = remove_all ns (remove n g)

pub record Report : Type 0 where
  pub diff : Diff
  pub failed : List String

-- What the reload awaits: the tasks that step while the attaches run, and the outcomes.
pub record Turn : Type 0 where
  pub during : List Event
  pub outcome : String → Outcome

abbrev pub is_failed : Outcome → Bool
is_failed o = elim o.attach.result [
  | raise _ ↦ true
  | ok _ ↦ elim o.start [ raise _ ↦ true | ok _ ↦ false ]
]

abbrev pub all_effects : List String → (String → Outcome) → Runtime → Runtime
all_effects [] outcome g = g
all_effects (n ∷ ns) outcome g = all_effects ns outcome (attach_effects n (outcome n).attach g)

-- `{n: fingerprint(e) for n, e in new.items()}`; what a fingerprint reads is given at each reload.
abbrev pub prints_of : (Entry → String) → Dict Entry → Dict String
prints_of print [] = []
prints_of print ((n, entry) ∷ new) = (n, print entry) ∷ prints_of print new

abbrev pub turned : Dict Entry → Dict String → Diff → Turn → Runtime → Runtime
turned new prints d t g =
    let targets = d.added ++ d.changed in
    let attached = all_effects targets t.outcome (steps t.during g) in
    record (remove_all d.removed (settle_targets targets new t.outcome attached)) {
      registry = new;
      fingerprints = prints;
      last_reload_failure = none;
    }

-- `reload`, of a registry that was loaded and checked, or refused at the time `now`.
unfoldable pub reload :
    Result (Dict Entry) → (Entry → String) → String → Turn → Runtime → Result Report × Runtime
unfolding diff settle_targets remove_all
reload (raise e) print now t g = (raise e, record g { last_reload_failure = some now })
reload (ok new) print now t g =
    let prints = prints_of print new in
    let d = diff g.fingerprints prints in
    (
      ok (record {
        diff = d;
        failed = select (λ n. is_failed (t.outcome n)) (d.added ++ d.changed);
      }),
      turned new prints d t g,
    )

-- What happens to the runtime: steps of its tasks, and reloads, one at a time.
pub data Act : Type 0 where
  task : Event → Act
  reloaded : Result (Dict Entry) → (Entry → String) → String → Turn → Act

unfoldable pub act : Act → Runtime → Runtime
unfolding reload step
act (task e) g = step e g
act (reloaded loaded print now t) g = (reload loaded print now t g).1

unfoldable pub acts : List Act → Runtime → Runtime
unfolding act
acts [] g = g
acts (a ∷ more) g = acts more (act a g)
