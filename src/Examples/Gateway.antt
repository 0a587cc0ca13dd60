-- ===== src/Examples/Gateway.antt =====
-- Runs of the gateway's runtime.
use beherouter.Prelude.{
  ◌+◌, String, ◌≡◌, refl, ◌⊎◌, true, false, none, some, List, [], ◌∷◌, has, elem, ◌===◌,
  if◌then◌else◌,
}
use beherouter.Data.{null}
use beherouter.Errors.{os_error, ok, raise}
use beherouter.Identity.Tables.{Entry}
use beherouter.Runtime.{Attach, attached, started, ended, install, start_retry}
use beherouter.Runtime.Turn.{
  Outcome, Turn, Act, task, reloaded, acts, reload, settle_target, prints_of,
}
use beherouter.Runtime.Boot.{boot, start}
use beherouter.Runtime.Tidy.Start.{Booted}
use beherouter.Runtime.Shutdown.{shutdown, shutdown_complete}
use beherouter.Runtime.InForce.{reload-AreInForce}
use beherouter.Runtime.Health.{health_body, IsDown, health_honest}
use beherouter.Runtime.Race.{IsServing, settle_target-stale_retry}
use beherouter.Runtime.Keeps.{IsKept, Retries, settle_target-IsKept}

abbrev entry_of : String → Entry
entry_of n = record { name = n; identity = null; authz = null; rate_limit = null }

abbrev served_now : Attach
served_now = record { missing = some []; limiter = none; result = ok tt }

abbrev refused_now : Attach
refused_now = record { missing = none; limiter = none; result = raise os_error }

-- A gateway of two surfaces, of which one attaches.
abbrev only_crm : String → Attach
only_crm n = if n === "crm" then served_now else refused_now

abbrev gateway : Booted
unfolding boot start install start_retry
gateway = record {
  registry = ("crm", entry_of "crm") ∷ ("git", entry_of "git") ∷ [];
  print = λ _. "v1";
  initial = 5;
  maximum = 300;
  attach = only_crm;
  starts = λ _. ok tt;
  runtime = start_retry 1 (entry_of "git") (
      install 0
        (boot (("crm", entry_of "crm") ∷ ("git", entry_of "git") ∷ []) (λ _. "v1") 5 300
          only_crm).0);
  is_started = refl;
}

abbrev quietly : Attach → Outcome
quietly a = record { attach = a; meanwhile = []; start = ok tt }

-- The pending surface attaches on retry; then a reload brings a third one and changes the first.
abbrev history : List Act
history =
    task (attached 3 served_now)
    ∷ task (started 3 true)
    ∷ reloaded
        (ok (("crm", entry_of "crm") ∷ ("git", entry_of "git") ∷ ("erp", entry_of "erp") ∷ []))
        (λ _. "v2") "noon" (record { during = []; outcome = λ n. quietly (only_crm n) })
    ∷ []

shutdown_complete_example : (shutdown (acts history gateway.runtime)).supervisors 2 ≡ none
shutdown_complete_example = shutdown_complete gateway history 2

reload-AreInForce_example :
    let g = acts history gateway.runtime in
    let t : Turn = record { during = []; outcome = λ n. quietly (only_crm n) } in
    (has "crm" g.table ≡ has "crm" g.registry)
    × (has "crm" (reload (ok []) (λ _. "v3") "noon" t g).1.table ≡ has {V = Entry} "crm" [])
    × ((reload (ok []) (λ _. "v3") "noon" t g).1.registry ≡ [])
    × ((reload (ok []) (λ _. "v3") "noon" t g).1.fingerprints ≡ prints_of (λ _. "v3") [])
    × ((reload (raise os_error) (λ _. "v3") "noon" t g).1
        ≡ record g { last_reload_failure = some "noon" })
reload-AreInForce_example =
    reload-AreInForce gateway history [] (λ _. "v3") "noon"
      (record { during = []; outcome = λ n. quietly (only_crm n) }) os_error "crm"

knows_erp : has "erp" (acts history gateway.runtime).registry ≡ true
unfolding acts
knows_erp = refl

health_honest_example :
    let g = acts history gateway.runtime in
    (elem "erp" (health_body none g).surfaces ≡ true) ⊎ IsDown g (health_body none g) "erp"
health_honest_example =
    health_honest none gateway history "erp" (tt, (tt, (λ _. refl, tt))) knows_erp

serving : IsServing gateway.runtime "crm" 0 2 (entry_of "crm")
unfolding boot start install start_retry
serving = record {
  here = refl;
  named = refl;
  supervisor = refl;
  serves = refl;
  entry = refl;
  unretried = refl;
}

abbrev dying : Outcome
dying = record { attach = served_now; meanwhile = ended 2 ∷ []; start = ok tt }

settle_target-stale_retry_example :
    let g = gateway.runtime in
    let g' = settle_target "crm" (entry_of "erp") dying g in
    ((g'.slots 0).retry ≡ some g.made)
    × ((g'.slots 0).app ≡ some (g.made + 1))
    × (g'.retries g.made
        ≡ some (record { slot = 0; entry = entry_of "crm"; delay = g.retry_initial }))
settle_target-stale_retry_example =
    settle_target-stale_retry gateway.runtime "crm" 0 2 (entry_of "crm") (entry_of "erp") dying
      serving refl refl refl

settle_target-IsKept_example :
    let g' = settle_target "crm" (entry_of "erp") (quietly refused_now) gateway.runtime in
    IsKept gateway.runtime g' "crm" 0 × Retries gateway.runtime g' 0 false (entry_of "erp")
unfolding boot start install start_retry
settle_target-IsKept_example =
    settle_target-IsKept gateway.runtime "crm" 0 2 (entry_of "erp") (quietly refused_now) os_error
      refl refl refl
