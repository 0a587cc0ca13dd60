-- ===== src/Reload/Reloader/Shutdown.antt =====
-- What `cancel` does to those who wait, and that it is the end.
use beherouter.Prelude.{ℕ, ◌<◌, String, ◌≡◌, refl, Bool, true, false, List, [], ◌∷◌, arith}
use beherouter.Reload.Reloader.{
  Task, created, Reloader, new_reloader, is_answered, request, begin, finish, cancel, Event,
  requested, begun, finished, cancelled_by_shutdown, step, steps,
}
use beherouter.Reload.Reloader.Account.{IsAccounted, steps-IsAccounted}

-- The reloader is closed and at rest.
pub record IsOver (r : Reloader) : Type 0 where
  pub closed : r.closed ≡ true
  pub idle : r.task ≡ Task.idle

cancel-IsOver : (r : Reloader) → IsOver (cancel r)
unfolding cancel
cancel-IsOver r = record { closed = ground arith; idle = ground arith }

step-IsOver : (e : Event) (r : Reloader) → IsOver r → step e r ≡ r
unfolding step request begin finish cancel
step-IsOver (requested t) r h = ground (arith, h.closed)
step-IsOver begun r h = ground (arith, h.idle)
step-IsOver (finished a) r h = ground (arith, h.idle)
step-IsOver cancelled_by_shutdown r h = ground (arith, h.idle, h.closed)

over : (es : List Event) (r : Reloader) → IsOver r → steps es r ≡ r
unfolding steps
over [] r h = refl
over (e ∷ es) r h = rw (step-IsOver e r h) (over es r h)

-- `cancel` is terminal: whatever comes behind it starts no reload and changes nothing.
pub cancel_final : (es : List Event) (r : Reloader) → steps es (cancel r) ≡ cancel r
cancel_final es r = over es (cancel r) (cancel-IsOver r)

abbrev pub is_unbegun : Task → Bool
is_unbegun (created _ _) = true
is_unbegun _ = false

unlost :
    (r : Reloader) (n : ℕ)
    → IsAccounted r
    → is_unbegun r.task ≡ false
    → n < r.made
    → is_answered n (cancel r).answers ≡ true
unfolding cancel
unlost r n h b lt = ground (arith, h.covers n, h.quiet)

-- A shutdown leaves nobody to hang, if the reload's task, where there is one, has begun: whatever came
-- before, `cancel` does every future that was handed out and is not done.
pub cancel_answers :
    (es : List Event) (n : ℕ)
    → (steps es new_reloader).closed ≡ false
    → is_unbegun (steps es new_reloader).task ≡ false
    → n < (steps es new_reloader).made
    → is_answered n (cancel (steps es new_reloader)).answers ≡ true
cancel_answers es n o b lt = unlost (steps es new_reloader) n (steps-IsAccounted es o) b lt

-- A shutdown that comes between `create_task` and the first step of the task is not like that: the task
-- ends before its `try`, and the future of the request that made it is never done, whatever comes next.
pub cancel_unbegun :
    (es es' : List Event) (n : ℕ) (t : String)
    → (steps es new_reloader).closed ≡ false
    → (steps es new_reloader).task ≡ created n t
    → is_answered n (steps es' (cancel (steps es new_reloader))).answers ≡ false
unfolding cancel
cancel_unbegun es es' n t o c =
    rw (cancel_final es' (steps es new_reloader))
      (ground (arith, (steps-IsAccounted es o).undone n, c))
