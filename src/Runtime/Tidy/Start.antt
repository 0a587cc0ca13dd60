-- ===== src/Runtime/Tidy/Start.antt =====
-- runtime.py: the supervisors after the boot and the start.
use beherouter.Prelude.{
  subst, keys, elem, if◌then◌else◌, ℕ, String, ◌≡◌, refl, true, false, Option, none, some, List, [],
  ◌∷◌, Dict, lookup, lookup-put, eq_iff, eq_refl, arith,
}
use beherouter.Identity.Tables.{Entry}
use beherouter.Errors.{Result, ok, >>=-eq-ok}
use beherouter.Runtime.Turn.{prints_of}
use beherouter.Runtime.Boot.{
  boot, start, boot_slots, build_surfaces, install_all, retry_all, new_runtime, install_at,
  retry_at,
}
use beherouter.Runtime.{Runtime, Attach}
use beherouter.Runtime.Tidy.{held, well_placed, IsTidy, start_retry-IsTidy, install-IsTidy}

-- Before the start nothing serves.
IsUnstarted : Runtime → Type 0
IsUnstarted g = ((n : ℕ) → g.supervisors n ≡ none) × ((name : String) → well_placed g name ≡ true)

build_surfaces-IsUnstarted :
    (ns : List String) (attach : String → Attach) (g : Runtime)
    → IsUnstarted g
    → IsUnstarted (build_surfaces ns attach g)
unfolding build_surfaces IsUnstarted
build_surfaces-IsUnstarted [] attach g h = h
build_surfaces-IsUnstarted (n ∷ ns) attach g h =
    build_surfaces-IsUnstarted ns attach _ (λ m. ground (arith, h.0 m), λ m. ground (arith, h.1 m))

boot_slots-IsUnstarted :
    (ns : List String) (g : Runtime) → IsUnstarted g → IsUnstarted (boot_slots ns g)
unfolding boot_slots IsUnstarted
boot_slots-IsUnstarted [] g h = h
boot_slots-IsUnstarted (n ∷ ns) g h = boot_slots-IsUnstarted ns _ (
  λ m. ground (arith, h.0 m),
  λ m. ground (arith, h.1 m, lookup-put n m g.made g.table, eq_iff n m, eq_refl m),
)

held_none : (g : Runtime) (n : ℕ) → g.supervisors n ≡ none → held g n ≡ true
held_none g n e = ground arith

boot-IsTidy :
    (registry : Dict Entry) (print : Entry → String) (initial maximum : ℕ)
    (attach : String → Attach)
    → IsTidy (boot registry print initial maximum attach).0
unfolding boot IsUnstarted
boot-IsTidy registry print initial maximum attach =
    let built =
      build_surfaces-IsUnstarted (keys registry) attach
        (new_runtime registry (prints_of print registry) initial maximum) (λ _. refl, λ _. refl) in
    let g = boot_slots-IsUnstarted (keys registry) _ built in
    record {
      held_all = λ n. held_none (boot registry print initial maximum attach).0 n (g.0 n);
      placed = g.1;
    }

install_at-IsTidy : (k : Option ℕ) (g : Runtime) → IsTidy g → IsTidy (install_at k g)
install_at-IsTidy none g h = h
install_at-IsTidy (some k) g h = install-IsTidy k g h

install_all-IsTidy :
    (ns : List String) (starts : String → Result (Unit {0})) (g g' : Runtime)
    → install_all ns starts g ≡ ok g'
    → IsTidy g
    → IsTidy g'
unfolding install_all
install_all-IsTidy [] starts g g' e h = subst IsTidy (ground arith) h
install_all-IsTidy (n ∷ ns) starts g g' e h =
    let (_, _, e') =
      >>=-eq-ok (starts n) (λ _. install_all ns starts (install_at (lookup n g.table) g)) e in
    install_all-IsTidy ns starts _ g' e' (install_at-IsTidy (lookup n g.table) g h)

retry_at-IsTidy :
    (k : Option ℕ) (entry : Option Entry) (g : Runtime) → IsTidy g → IsTidy (retry_at k entry g)
retry_at-IsTidy none entry g h = h
retry_at-IsTidy (some k) none g h = h
retry_at-IsTidy (some k) (some entry) g h = start_retry-IsTidy k entry g h

retry_all-IsTidy : (ns : List String) (g : Runtime) → IsTidy g → IsTidy (retry_all ns g)
unfolding retry_all
retry_all-IsTidy [] g h = h
retry_all-IsTidy (n ∷ ns) g h =
    let again = retry_at-IsTidy (lookup n g.table) (lookup n g.registry) g h in
    retry_all-IsTidy ns _
      (elim (elem n g.config_faults)
        as (λ b. IsTidy (if b then g else retry_at (lookup n g.table) (lookup n g.registry) g)) [
          | true ↦ h
          | false ↦ again
        ])

pub start-IsTidy :
    (booted : List String) (starts : String → Result (Unit {0})) (g g' : Runtime)
    → start booted starts g ≡ ok g'
    → IsTidy g
    → IsTidy g'
unfolding start
start-IsTidy booted starts g g' e h =
    let (m, e₁, e₂) =
      >>=-eq-ok (install_all booted starts g) (λ m. ok (retry_all (keys m.failed) m)) e in
    subst IsTidy (ground arith)
      (retry_all-IsTidy (keys m.failed) m (install_all-IsTidy booted starts g m e₁ h))

-- A runtime that has booted and started.
pub record Booted : Type 0 where
  pub registry : Dict Entry
  pub print : Entry → String
  pub initial : ℕ
  pub maximum : ℕ
  pub attach : String → Attach
  pub starts : String → Result (Unit {0})
  pub runtime : Runtime
  pub is_started :
      start
        (boot registry print initial maximum attach).1
        starts
        (boot registry print initial maximum attach).0
      ≡ ok runtime

pub Booted-IsTidy : (b : Booted) → IsTidy b.runtime
Booted-IsTidy b =
    start-IsTidy _ b.starts _ b.runtime b.is_started
      (boot-IsTidy b.registry b.print b.initial b.maximum b.attach)
