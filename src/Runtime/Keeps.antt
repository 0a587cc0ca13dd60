-- ===== src/Runtime/Keeps.antt =====
-- A surface whose new entry does not attach.
use beherouter.Prelude.{
  ℕ, ◌<◌, String, ◌≡◌, Bool, true, false, none, some, lookup, elem, arith, eq_refl,
}
use beherouter.Errors.{Exc, raise}
use beherouter.Identity.Tables.{Entry}
use beherouter.Runtime.{Runtime, is_config_fault, start_retry, cancel_retry}
use beherouter.Runtime.Turn.{Outcome, attach_failed, settle_target}

-- The retry of a slot: of this entry, after the first delay, or none, if waiting is of no use.
-- The retry that it had is cancelled: it is no task that runs any more.
pub record Retries (g g' : Runtime) (k : ℕ) (fault : Bool) (entry : Entry) : Type 0 where
  pub cancelled :
      (m : ℕ)
      → (g.slots k).retry ≡ some m
      → m < g.made
      → (g'.retries m ≡ none) × (g'.retiring m ≡ true)
  pub given_up : fault ≡ true → (g'.slots k).retry ≡ none
  pub under_way :
      fault ≡ false
      → (r : ℕ) × ((g'.slots k).retry ≡ some r)
        × (g'.retries r ≡ some (record { slot = k; entry = entry; delay = g.retry_initial }))

-- What a surface that served is after its new entry failed to attach.
pub record IsKept (g g' : Runtime) (name : String) (k : ℕ) : Type 0 where
  pub same_slot : lookup name g'.table ≡ some k
  pub same_app : (g'.slots k).app ≡ (g.slots k).app
  pub same_supervisor : (g'.slots k).supervisor ≡ (g.slots k).supervisor
  pub all_serve : g'.supervisors ≡ g.supervisors
  pub not_failed : g'.failed ≡ g.failed
  pub reported : elem name g'.reload_failed ≡ true

-- If the attach of a serving surface's new entry fails in a reload, the surface keeps its slot and the
-- app that serves there, no supervisor is told to stop, and the surface is reported as failed to
-- reload and not as failed. An earlier retry of the slot, of a number that was given out, is cancelled;
-- the new entry is retried after the first delay, unless its configuration is at fault: then nothing
-- is.
pub settle_target-IsKept :
    (g : Runtime) (name : String) (k n : ℕ) (new : Entry) (o : Outcome) (e : Exc)
    → lookup name g.table ≡ some k
    → (g.slots k).app ≡ some n
    → o.attach.result ≡ raise e
    → IsKept g (settle_target name new o g) name k
      × Retries g (settle_target name new o g) k (is_config_fault e) new
unfolding settle_target attach_failed start_retry cancel_retry
settle_target-IsKept g name k n new o e here a r = (
  record {
    same_slot = ground (arith, here, r);
    same_app = ground (arith, here, a, r);
    same_supervisor = ground (arith, here, a, r);
    all_serve = ground (arith, here, r);
    not_failed = ground (arith, here, a, r);
    reported = ground (arith, here, a, r, eq_refl name);
  },
  record {
    cancelled = λ m c l. (ground (arith, here, a, r, c, l), ground (arith, here, a, r, c, l));
    given_up = λ f. ground (arith, here, a, r);
    under_way = λ f. (g.made, ground (arith, here, a, r), ground (arith, here, a, r));
  },
)
