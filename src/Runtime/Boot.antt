-- ===== src/Runtime/Boot.antt =====
-- runtime.py: `GatewayRuntime`'s `boot` and `start`, with gateway.py: `build_surfaces`, from where all
-- attaches have ended. The registry has passed `preflight`.
use beherouter.Prelude.{
  ℕ, String, Bool, true, false, Option, none, some, List, [], ◌∷◌, Dict, lookup, keys, put, elem,
  select, if◌then◌else◌,
}
use beherouter.Errors.{Result, ok, raise, ◌>>=◌}
use beherouter.Identity.Tables.{Entry}
use beherouter.Runtime.{
  Slot, Runtime, is_config_fault, install, start_retry, Attach, attach_effects,
}
use beherouter.Runtime.Turn.{add_slot, prints_of}

abbrev nowhere : Slot
nowhere = record { name = ""; app = none; supervisor = none; retry = none; config_fault = false }

abbrev pub new_runtime : Dict Entry → Dict String → ℕ → ℕ → Runtime
new_runtime registry prints initial maximum = record {
  registry = registry;
  fingerprints = prints;
  table = [];
  slots = λ _. nowhere;
  supervisors = λ _. none;
  retries = λ _. none;
  retiring = λ _. false;
  made = 0;
  failed = [];
  config_faults = [];
  reload_failed = [];
  pinned_missing = [];
  limiters = [];
  last_reload_failure = none;
  retry_initial = initial;
  retry_max = maximum;
}

abbrev pub recorded : String → Result (Unit {0}) → Runtime → Runtime
recorded name (ok _) g = g
recorded name (raise e) g = record g {
  failed = put name e g.failed;
  config_faults = if is_config_fault e then name ∷ g.config_faults else g.config_faults;
}

-- The loop of `build_surfaces` over the results, with what the attaches have left.
unfoldable pub build_surfaces : List String → (String → Attach) → Runtime → Runtime
build_surfaces [] attach g = g
build_surfaces (n ∷ ns) attach g =
    build_surfaces ns attach (recorded n (attach n).result (attach_effects n (attach n) g))

unfoldable pub boot_slots : List String → Runtime → Runtime
boot_slots [] g = g
boot_slots (n ∷ ns) g = boot_slots ns (add_slot n (elem n g.config_faults) g)

abbrev pub attaches : Result (Unit {0}) → Bool
attaches (ok _) = true
attaches (raise _) = false

-- `boot`: the runtime, and the names in `_booted`.
unfoldable pub boot :
    Dict Entry → (Entry → String) → ℕ → ℕ → (String → Attach) → Runtime × List String
unfolding build_surfaces boot_slots
boot registry print initial maximum attach =
    let names = keys registry in
    (
      boot_slots names (
          build_surfaces names attach
            (new_runtime registry (prints_of print registry) initial maximum)),
      select (λ n. attaches (attach n).result) names,
    )

abbrev pub install_at : Option ℕ → Runtime → Runtime
install_at none g = g
install_at (some k) g = install k g

-- The loop of `start` that installs the apps; the first that fails to start ends it.
unfoldable pub install_all : List String → (String → Result (Unit {0})) → Runtime → Result Runtime
unfolding install
install_all [] start g = ok g
install_all (n ∷ ns) start g = do
  _ ← start n
  install_all ns start (install_at (lookup n g.table) g)

abbrev pub retry_at : Option ℕ → Option Entry → Runtime → Runtime
retry_at (some k) (some entry) g = start_retry k entry g
retry_at _ _ g = g

unfoldable pub retry_all : List String → Runtime → Runtime
unfolding start_retry
retry_all [] g = g
retry_all (n ∷ ns) g =
    retry_all ns
      (if elem n g.config_faults then g else retry_at (lookup n g.table) (lookup n g.registry) g)

-- `start`
unfoldable pub start : List String → (String → Result (Unit {0})) → Runtime → Result Runtime
unfolding install_all retry_all
start booted starts g = do g' ← install_all booted starts g; ok (retry_all (keys g'.failed) g')
