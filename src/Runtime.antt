-- ===== src/Runtime.antt =====
-- runtime.py: the surfaces of the gateway and the tasks that keep them. A function stands for what the
-- code does between two awaits. The children hold a reload (`Turn`), the boot, and what others observe.
-- Slots and tasks are objects, known by a number; what is gone reads as `none`. The metrics, the log
-- and the triggers (SIGHUP and the watch) are left out.

pub mod Tidy
pub mod Shutdown
pub mod InForce
pub mod Tended
pub mod Health
pub mod Race
pub mod Keeps
pub mod Turn
pub mod Boot
use beherouter.Prelude.{
  ℕ, ◌+◌, ◌*◌, min, String, Bool, true, false, not, ◌&&◌, Option, none, some, List, [], ◌∷◌, Dict,
  lookup, has, put, select, select_keys, is_nil, is_some, ◌===◌, ◌==◌, if◌then◌else◌,
}
use beherouter.Errors.{
  ErrorClass, AxiError, Exc, axi, Result, ok, raise, usage_error, runtime_error,
}
use beherouter.Identity.Tables.{Entry}
use beherouter.Gates.Rate.{RateLimiter}

-- `SurfaceSlot`; an app is known by the number of its supervisor's task.
pub record Slot : Type 0 where
  pub name : String
  pub app : Option ℕ
  pub supervisor : Option ℕ
  pub retry : Option ℕ
  pub config_fault : Bool

-- A supervisor whose app serves or drains: the slot that it was made for, and `_stop`.
pub record Supervisor : Type 0 where
  pub slot : ℕ
  pub stopped : Bool

-- A task of `_retry` that is not cancelled.
pub record Retry : Type 0 where
  pub slot : ℕ
  pub entry : Entry
  pub delay : ℕ

pub record Runtime : Type 0 where
  pub registry : Dict Entry
  pub fingerprints : Dict String
  pub table : Dict ℕ
  pub slots : ℕ → Slot
  pub supervisors : ℕ → Option Supervisor
  pub retries : ℕ → Option Retry
  pub retiring : ℕ → Bool
  pub made : ℕ  -- how many slots and tasks there have been
  pub failed : Dict Exc
  pub config_faults : List String
  pub reload_failed : List String
  pub pinned_missing : Dict (List String)
  pub limiters : Dict RateLimiter
  pub last_reload_failure : Option String
  pub retry_initial : ℕ
  pub retry_max : ℕ

-- An assignment to one object.
abbrev pub assign : {A : Type 0} → ℕ → A → (ℕ → A) → ℕ → A
assign n a f m = if n == m then a else f m

abbrev pub is_number : Option ℕ → ℕ → Bool
is_number none n = false
is_number (some m) n = m == n

-- `d.pop(k, None)` and `names.discard(k)`
abbrev pub drop {ℓ} : {V : Type ℓ} → String → Dict V → Dict V
drop k d = select_keys (λ j. not (j === k)) d

abbrev pub discard : String → List String → List String
discard k names = select (λ j. not (j === k)) names

-- `self.table.get(slot.name) is slot`
abbrev pub is_current : Runtime → ℕ → Bool
is_current g k = is_number (lookup (g.slots k).name g.table) k

abbrev is_usage_error : ErrorClass → Bool
is_usage_error usage_error = true
is_usage_error _ = false

-- gateway.py: `is_config_fault`
abbrev pub is_config_fault : Exc → Bool
is_config_fault (axi e) = is_usage_error e.cls
is_config_fault _ = false

abbrev forget_name : String → Runtime → Runtime
forget_name name g = record g {
  failed = drop name g.failed;
  config_faults = discard name g.config_faults;
  reload_failed = discard name g.reload_failed;
}

-- The task of a retry, made for a slot.
unfoldable pub start_retry : ℕ → Entry → Runtime → Runtime
start_retry k entry g = record g {
  slots = assign k (record (g.slots k) { retry = some g.made }) g.slots;
  retries =
      assign g.made (some (record { slot = k; entry = entry; delay = g.retry_initial })) g.retries;
  made = g.made + 1;
}

abbrev stopped : Option Supervisor → Option Supervisor
stopped none = none
stopped (some s) = some (record s { stopped = true })

-- `_retire`, where there is a supervisor.
unfoldable pub retire : Option ℕ → Runtime → Runtime
retire none g = g
retire (some n) g = record g {
  supervisors = assign n (stopped (g.supervisors n)) g.supervisors;
  retiring = assign n true g.retiring;
}

abbrev cancelled_task : Option ℕ → ℕ → Runtime → Runtime
cancelled_task none k g = g
cancelled_task (some n) k g = record g {
  slots = assign k (record (g.slots k) { retry = none }) g.slots;
  retries = assign n none g.retries;
  retiring = assign n true g.retiring;
}

-- A cancelled retry makes no step of its own but to close what it has built.
unfoldable pub cancel_retry : ℕ → Runtime → Runtime
cancel_retry k g = cancelled_task (g.slots k).retry k g

-- `_install`, from where its supervisor's app has started: the app is put in its slot, or retired if
-- the slot was removed.
unfoldable pub install : ℕ → Runtime → Runtime
unfolding retire
install k g =
    let n = g.made in
    let serving = record g {
      supervisors = assign n (some (record { slot = k; stopped = false })) g.supervisors;
      made = n + 1;
    } in
    if is_current g k
    then retire (g.slots k).supervisor (record serving {
      slots =
          assign k (record (g.slots k) { app = some n; supervisor = some n; config_fault = false })
            g.slots;
    })
    else retire (some n) serving

abbrev restarted : ℕ → Option Entry → Option ℕ → Runtime → Runtime
restarted k (some entry) none g = start_retry k entry g
restarted k _ _ g = g

-- `_serving_failed`
unfoldable pub serving_failed : ℕ → ℕ → Runtime → Runtime
unfolding start_retry
serving_failed k n g =
    let slot = g.slots k in
    if is_current g k && is_number slot.supervisor n
    then restarted k (lookup slot.name g.registry) slot.retry (record g {
      slots = assign k (record slot { app = none; supervisor = none }) g.slots;
      failed = put slot.name runtime_error g.failed;
    })
    else g

abbrev gone : ℕ → Runtime → Runtime
gone n g = record g {
  supervisors = assign n none g.supervisors;
  retiring = assign n false g.retiring;
}

-- The task of a supervisor ends: it was told to stop and has drained, or its app died, of which the
-- slot is told. In both cases it closes its backend.
unfoldable pub end_task : ℕ → Runtime → Runtime
unfolding serving_failed
end_task n g = elim (g.supervisors n) [
  | none ↦ g
  | some s ↦ gone n (if s.stopped then g else serving_failed s.slot n g)
]

-- What `_attach_one` gives, and what it leaves on the way: the missing pins, once there is a backend,
-- and the limiter of the surface.
pub record Attach : Type 0 where
  pub missing : Option (List String)
  pub limiter : Option RateLimiter
  pub result : Result (Unit {0})

abbrev with_missing : String → Option (List String) → Dict (List String) → Dict (List String)
with_missing name none pins = pins
with_missing name (some missing) pins =
    if is_nil missing then drop name pins else put name missing pins

abbrev with_limiter : String → Option RateLimiter → Dict RateLimiter → Dict RateLimiter
with_limiter name none limiters = limiters
with_limiter name (some l) limiters = put name l limiters

abbrev pub attach_effects : String → Attach → Runtime → Runtime
attach_effects name a g = record g {
  pinned_missing = with_missing name a.missing g.pinned_missing;
  limiters = with_limiter name a.limiter g.limiters;
}

-- `_retry_done`, and the end of the task.
abbrev retry_done : ℕ → ℕ → Runtime → Runtime
retry_done r k g = record g {
  slots =
      if is_number (g.slots k).retry r
      then assign k (record (g.slots k) { retry = none }) g.slots
      else g.slots;
  retries = assign r none g.retries;
}

abbrev retry_later : ℕ → Retry → Runtime → Runtime
retry_later r t g = record g {
  retries = assign r (some (record t { delay = min (t.delay * 2) g.retry_max })) g.retries;
}

abbrev noted : ℕ → Exc → Runtime → Runtime
noted k e g =
    let slot = g.slots k in
    if is_some slot.app
    then g
    else if is_config_fault e
    then record g {
      slots = assign k (record slot { config_fault = true }) g.slots;
      failed = put slot.name e g.failed;
      config_faults = slot.name ∷ g.config_faults;
    }
    else record g { failed = put slot.name e g.failed }

abbrev retry_answered : ℕ → Retry → Result (Unit {0}) → Runtime → Runtime
retry_answered r t (ok _) g = g
retry_answered r t (raise e) g =
    if is_config_fault e
    then retry_done r t.slot (noted t.slot e g)
    else retry_later r t (noted t.slot e g)

-- `_retry`: its attach ends. After a success the task waits for the app to start.
unfoldable pub retry_attached : ℕ → Attach → Runtime → Runtime
retry_attached r a g = elim (g.retries r) [
  | none ↦ g
  | some t ↦ retry_answered r t a.result (attach_effects (g.slots t.slot).name a g)
]

-- `_retry`: its app has started, or has failed to.
unfoldable pub retry_started : ℕ → Bool → Runtime → Runtime
unfolding install
retry_started r started g = elim (g.retries r) [
  | none ↦ g
  | some t ↦
      if started
      then forget_name (g.slots t.slot).name (retry_done r t.slot (install t.slot g))
      else retry_later r t g
]

-- What the other tasks do, one step at a time.
pub data Event : Type 0 where
  ended : ℕ → Event
  attached : ℕ → Attach → Event
  started : ℕ → Bool → Event

unfoldable pub step : Event → Runtime → Runtime
unfolding end_task retry_attached retry_started
step (ended n) g = end_task n g
step (attached r a) g = retry_attached r a g
step (started r b) g = retry_started r b g

unfoldable pub steps : List Event → Runtime → Runtime
unfolding step
steps [] g = g
steps (e ∷ es) g = steps es (step e g)
