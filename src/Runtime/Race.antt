-- ===== src/Runtime/Race.antt =====
-- An app that dies while a reload starts its successor.
use beherouter.Prelude.{ℕ, ◌+◌, String, ◌≡◌, false, none, some, [], ◌∷◌, lookup, arith, eq_refl}
use beherouter.Errors.{ok}
use beherouter.Identity.Tables.{Entry}
use beherouter.Runtime.{
  Runtime, install, start_retry, retire, cancel_retry, serving_failed, end_task, ended, step, steps,
}
use beherouter.Runtime.Turn.{Outcome, settle_target}

-- The surface serves, in its slot `k`, the app of the task `n`, which is to be replaced.
pub record IsServing (g : Runtime) (name : String) (k n : ℕ) (old : Entry) : Type 0 where
  pub here : lookup name g.table ≡ some k
  pub named : (g.slots k).name ≡ name
  pub supervisor : (g.slots k).supervisor ≡ some n
  pub serves : g.supervisors n ≡ some (record { slot = k; stopped = false })
  pub entry : lookup name g.registry ≡ some old
  pub unretried : (g.slots k).retry ≡ none

-- If the app that a reload is about to replace dies while its successor starts, and that then starts,
-- the slot serves the new app, and a task is alive that retries the OLD entry for it: whenever that
-- attach succeeds, the old configuration is installed over the new one.
pub settle_target-stale_retry :
    (g : Runtime) (name : String) (k n : ℕ) (old new : Entry) (o : Outcome)
    → IsServing g name k n old
    → o.attach.result ≡ ok tt
    → o.meanwhile ≡ ended n ∷ []
    → o.start ≡ ok tt
    → let g' = settle_target name new o g in
      ((g'.slots k).retry ≡ some g.made)
      × ((g'.slots k).app ≡ some (g.made + 1))
      × (g'.retries g.made ≡ some (record { slot = k; entry = old; delay = g.retry_initial }))
unfolding settle_target install retire cancel_retry steps step end_task serving_failed start_retry
settle_target-stale_retry g name k n old new o h a m s =
    ground (arith, h.here, h.named, h.supervisor, h.serves, h.entry, h.unretried, eq_refl name)
