-- ===== src/Reload/Reloader.antt =====
-- reload.py: `Reloader`, which runs one reload at a time and coalesces the requests that come during
-- one. A step is what happens between two points where the event loop may switch: a request, the
-- first step of the reload's task, the end of the `apply` in flight, and `cancel`. The futures that
-- requesters await are numbered in the order they are made.
pub mod Account
pub mod Follow
pub mod Shutdown
use beherouter.Prelude.{
  ℕ, ◌+◌, String, Bool, true, false, ◌||◌, Option, none, some, List, [], ◌∷◌, ◌==◌, if◌then◌else◌,
}
use beherouter.Data.{Value, Fields}
use beherouter.Errors.{Exc, Result, ok, raise, cancelled, runtime_error}

-- `_task`: done or never made; made, but not yet begun; or within the `apply` for a future.
pub data Task : Type 0 where
  idle : Task
  created applying : ℕ → String → Task

-- `_next` and `_next_trigger`
pub data Next : Type 0 where
  nobody : Next
  waiting : ℕ → String → Next

pub record Reloader : Type 0 where
  pub task : Task
  pub next : Next
  pub closed : Bool
  pub answers : List (ℕ × Result Fields)  -- of the futures that are done
  pub made : ℕ  -- how many futures there are

abbrev pub new_reloader : Reloader
new_reloader = record { task = idle; next = nobody; closed = false; answers = []; made = 0 }

abbrev pub is_answered : ℕ → List (ℕ × Result Fields) → Bool
is_answered n [] = false
is_answered n ((m, _) ∷ rest) = (m == n) || is_answered n rest

-- What `request` gives: the refusal of a closed reloader, or a future to await.
pub data Ticket : Type 0 where
  refused : Ticket
  await : ℕ → Ticket

abbrev enqueue : String → Reloader → Next → Ticket × Reloader
enqueue trigger r nobody =
    (await r.made, record r { next = waiting r.made trigger; made = r.made + 1 })
enqueue trigger r (waiting n _) = (await n, r)

abbrev ask : String → Reloader → Task → Ticket × Reloader
ask trigger r idle = (await r.made, record r { task = created r.made trigger; made = r.made + 1 })
ask trigger r _ = enqueue trigger r r.next

pub request : String → Reloader → Ticket × Reloader
request trigger r = if r.closed then (refused, r) else ask trigger r r.task

-- `_run` begins.
pub begin : Reloader → Reloader
begin r = elim r.task [
  | created n trigger ↦ record r { task = applying n trigger }
  | idle ↦ r
  | applying _ _ ↦ r
]

-- The `finally` of `_run`: who waits for this reload or for the next gets an error.
abbrev abandon : ℕ → Next → Reloader → Reloader
abandon n nobody r = record r { task = idle; answers = (n, raise runtime_error) ∷ r.answers }
abandon n (waiting m _) r = record r {
  task = idle;
  next = nobody;
  answers = (m, raise runtime_error) ∷ (n, raise runtime_error) ∷ r.answers;
}

-- The loop of `_run` goes on with the follow-up, or ends.
abbrev follow_up : Next → Reloader → Reloader
follow_up nobody r = record r { task = idle }
follow_up (waiting m trigger) r = record r { task = applying m trigger; next = nobody }

abbrev ended : Result Fields → ℕ → Reloader → Reloader
ended (raise cancelled) n r = abandon n r.next r
ended result n r = follow_up r.next (record r { answers = (n, result) ∷ r.answers })

-- The `apply` in flight ends, with its report or an exception.
pub finish : Result Fields → Reloader → Reloader
finish result r = elim r.task [ applying n _ ↦ ended result n r | idle ↦ r | created _ _ ↦ r ]

-- `cancel`: a task that has not begun ends without a step of its own, its `finally` included.
pub cancel : Reloader → Reloader
cancel r = elim r.task [
  | idle ↦ record r { closed = true }
  | created _ _ ↦ record r { closed = true; task = idle }
  | applying n _ ↦ abandon n r.next (record r { closed = true })
]

pub data Event : Type 0 where
  requested : String → Event
  begun : Event
  finished : Result Fields → Event
  cancelled_by_shutdown : Event

pub step : Event → Reloader → Reloader
unfolding request begin finish cancel
step (requested trigger) r = (request trigger r).1
step begun r = begin r
step (finished result) r = finish result r
step cancelled_by_shutdown r = cancel r

unfoldable pub steps : List Event → Reloader → Reloader
unfolding step
steps [] r = r
steps (e ∷ es) r = steps es (step e r)
