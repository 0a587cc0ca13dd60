-- ===== src/Runtime/InForce.antt =====
-- The surfaces in the table are those of the registry in force.
use beherouter.Prelude.{
  Option-cases, Bool-cases, inl, inr, ℕ, String, ◌≡◌, refl, sym, ◌∙◌, ◌&&◌, ◌||◌, not, Option, none,
  some, List, [], ◌∷◌, ◌++◌, Dict, lookup, has, keys, elem, elem-append, elem-keys, lookup-put,
  lookup-select_keys, arith, eq_iff, ◌===◌,
}
use beherouter.Errors.{Exc, Result, ok, raise, >>=-eq-ok}
use beherouter.Identity.Tables.{Entry}
use beherouter.Reload.{diff}
use beherouter.Reload.Partition.{diff-IsSorted}
use beherouter.Runtime.{
  Runtime, Attach, attach_effects, install, start_retry, retire, cancel_retry, serving_failed,
  end_task, retry_attached, retry_started, Event, ended, attached, started, step, steps,
}
use beherouter.Runtime.Boot.{
  recorded, build_surfaces, boot_slots, boot, install_at, install_all, retry_at, retry_all, start,
  new_runtime,
}
use beherouter.Runtime.Tidy.Start.{Booted}
use beherouter.Runtime.Turn.{
  add_slot, attach_failed, Outcome, settled, answer_of, slot_of, settle_target, settle_known,
  settle_targets, remove, remove_all, Turn, all_effects, prints_of, turned, reload, Act, task,
  reloaded, act, acts,
}

-- What only a reload changes.
abbrev pub frame : Runtime → Dict ℕ × Dict Entry × Dict String
frame g = (g.table, g.registry, g.fingerprints)

pub step-frame : (e : Event) (g : Runtime) → frame (step e g) ≡ frame g
unfolding step end_task serving_failed start_retry retry_attached retry_started install retire
step-frame (ended n) g = ground arith
step-frame (attached r a) g = ground arith
step-frame (started r b) g = ground arith

pub steps-frame : (es : List Event) (g : Runtime) → frame (steps es g) ≡ frame g
unfolding steps
steps-frame [] g = refl
steps-frame (e ∷ es) g = steps-frame es (step e g) ∙ step-frame e g

attach_failed-frame :
    (k : ℕ) (name : String) (entry : Entry) (e : Exc) (g : Runtime)
    → frame (attach_failed k name entry e g) ≡ frame g
unfolding attach_failed start_retry
attach_failed-frame k name entry e g = ground arith

settled-frame :
    (k : ℕ) (name : String) (entry : Entry) (r : Result (Unit {0})) (g : Runtime)
    → frame (settled k name entry r g) ≡ frame g
unfolding install retire
settled-frame k name entry (ok _) g = ground arith
settled-frame k name entry (raise e) g = attach_failed-frame k name entry e g

answer_of-frame :
    (k : ℕ) (name : String) (entry : Entry) (o : Outcome) (r : Result (Unit {0})) (g : Runtime)
    → frame (answer_of k name entry o r g) ≡ frame g
answer_of-frame k name entry o (ok _) g =
    settled-frame k name entry o.start (steps o.meanwhile g) ∙ steps-frame o.meanwhile g
answer_of-frame k name entry o (raise e) g = attach_failed-frame k name entry e g

pub cancel_retry-frame : (k : ℕ) (g : Runtime) → frame (cancel_retry k g) ≡ frame g
unfolding cancel_retry
cancel_retry-frame k g = ground arith

pub settle_target-has :
    (name : String) (entry : Entry) (o : Outcome) (g : Runtime) (m : String)
    → has m (settle_target name entry o g).table ≡ (has m g.table || (name === m))
unfolding settle_target
settle_target-has name entry o g m =
    let here = slot_of name (lookup name g.table) g in
    ground (
      arith,
      answer_of-frame here.0 name entry o o.attach.result (cancel_retry here.0 here.1),
      cancel_retry-frame here.0 here.1,
      lookup-put name m g.made g.table,
      eq_iff name m,
    )

settle_targets-has :
    (ns : List String) (new : Dict Entry) (outcome : String → Outcome) (g : Runtime) (m : String)
    → has m (settle_targets ns new outcome g).table ≡ (has m g.table || (elem m ns && has m new))
unfolding settle_targets
settle_targets-has [] new outcome g m = ground arith
settle_targets-has (n ∷ ns) new outcome g m = elim (Option-cases (lookup n new)) [
  | inl e ↦ ground (
    arith,
    settle_targets-has ns new outcome (settle_known n (lookup n new) (outcome n) g) m,
    eq_iff n m,
  )
  | inr (entry, e) ↦ ground (
    arith,
    settle_targets-has ns new outcome (settle_known n (lookup n new) (outcome n) g) m,
    settle_target-has n entry (outcome n) g m,
    eq_iff n m,
  )
]

remove-has :
    (name : String) (g : Runtime) (m : String)
    → has m (remove name g).table ≡ (has m g.table && not (m === name))
unfolding remove retire cancel_retry
remove-has name g m =
    ground (arith, lookup-select_keys (λ j. not (j === name)) m g.table, eq_iff m name)

remove_all-has :
    (ns : List String) (g : Runtime) (m : String)
    → has m (remove_all ns g).table ≡ (has m g.table && not (elem m ns))
unfolding remove_all
remove_all-has [] g m = ground arith
remove_all-has (n ∷ ns) g m =
    ground (arith, remove_all-has ns (remove n g) m, remove-has n g m, eq_iff n m, eq_iff m n)

pub all_effects-frame :
    (ns : List String) (outcome : String → Outcome) (g : Runtime)
    → frame (all_effects ns outcome g) ≡ frame g
all_effects-frame [] outcome g = refl
all_effects-frame (n ∷ ns) outcome g = all_effects-frame ns outcome _

prints_of-has :
    (print : Entry → String) (new : Dict Entry) (m : String)
    → has m (prints_of print new) ≡ has m new
prints_of-has print [] m = refl
prints_of-has print ((n, e) ∷ new) m = ground (arith, prints_of-has print new m)

-- The names of the table, of the registry and of the fingerprints are the same.
pub record AreInForce (g : Runtime) : Type 0 where
  pub served : (m : String) → has m g.table ≡ has m g.registry
  pub printed : (m : String) → has m g.fingerprints ≡ has m g.registry

turned-has :
    (new : Dict Entry) (print : Entry → String) (t : Turn) (g : Runtime) (m : String)
    → has m g.table ≡ has m g.fingerprints
    → has m (turned new (prints_of print new) (diff g.fingerprints (prints_of print new)) t g).table
      ≡ has m new
turned-has new print t g m h =
    let d = diff g.fingerprints (prints_of print new) in
    let targets = d.added ++ d.changed in
    let sorted = diff-IsSorted g.fingerprints (prints_of print new) m in
    let started = steps t.during g in
    let settling = all_effects targets t.outcome started in
    ground (
      arith,
      remove_all-has d.removed (settle_targets targets new t.outcome settling) m,
      settle_targets-has targets new t.outcome settling m,
      all_effects-frame targets t.outcome started,
      steps-frame t.during g,
      elem-append m d.added d.changed,
      prints_of-has print new m,
      sorted.added,
      sorted.removed,
      sorted.changed,
    )

pub act-AreInForce : (a : Act) (g : Runtime) → AreInForce g → AreInForce (act a g)
unfolding act reload
act-AreInForce (task e) g h = record {
  served = λ m. ground (arith, step-frame e g, h.served m);
  printed = λ m. ground (arith, step-frame e g, h.printed m);
}
act-AreInForce (reloaded (raise e) print now t) g h = record {
  served = h.served;
  printed = h.printed;
}
act-AreInForce (reloaded (ok new) print now t) g h = record {
  served = λ m. turned-has new print t g m (h.served m ∙ sym (h.printed m));
  printed = prints_of-has print new;
}

pub acts-AreInForce : (more : List Act) (g : Runtime) → AreInForce g → AreInForce (acts more g)
unfolding acts
acts-AreInForce [] g h = h
acts-AreInForce (a ∷ more) g h = acts-AreInForce more (act a g) (act-AreInForce a g h)

recorded-frame :
    (n : String) (r : Result (Unit {0})) (g : Runtime) → frame (recorded n r g) ≡ frame g
recorded-frame n (ok _) g = refl
recorded-frame n (raise e) g = refl

pub build_surfaces-frame :
    (ns : List String) (attach : String → Attach) (g : Runtime)
    → frame (build_surfaces ns attach g) ≡ frame g
unfolding build_surfaces
build_surfaces-frame [] attach g = refl
build_surfaces-frame (n ∷ ns) attach g =
    build_surfaces-frame ns attach _
    ∙ recorded-frame n (attach n).result (attach_effects n (attach n) g)

pub boot_slots-has :
    (ns : List String) (g : Runtime) (m : String)
    → (has m (boot_slots ns g).table ≡ (has m g.table || elem m ns))
      × ((boot_slots ns g).registry ≡ g.registry)
      × ((boot_slots ns g).fingerprints ≡ g.fingerprints)
unfolding boot_slots
boot_slots-has [] g m = ground arith
boot_slots-has (n ∷ ns) g m = ground (
  arith,
  boot_slots-has ns (add_slot n (elem n g.config_faults) g) m,
  lookup-put n m g.made g.table,
  eq_iff n m,
)

pub boot-AreInForce :
    (registry : Dict Entry) (print : Entry → String) (initial maximum : ℕ)
    (attach : String → Attach)
    → AreInForce (boot registry print initial maximum attach).0
unfolding boot
boot-AreInForce registry print initial maximum attach =
    let names = keys registry in
    let fresh = new_runtime registry (prints_of print registry) initial maximum in
    let built = build_surfaces names attach fresh in
    let same = build_surfaces-frame names attach fresh in
    record {
      served = λ m. ground (arith, boot_slots-has names built m, same, elem-keys m registry);
      printed =
          λ m. ground (arith, boot_slots-has names built m, same, prints_of-has print registry m);
    }

pub install_at-frame : (k : Option ℕ) (g : Runtime) → frame (install_at k g) ≡ frame g
unfolding install retire
install_at-frame none g = refl
install_at-frame (some k) g = ground arith

pub install_all-frame :
    (ns : List String) (starts : String → Result (Unit {0})) (g g' : Runtime)
    → install_all ns starts g ≡ ok g'
    → frame g' ≡ frame g
unfolding install_all
install_all-frame [] starts g g' e = ground arith
install_all-frame (n ∷ ns) starts g g' e =
    let (_, _, e') =
      >>=-eq-ok (starts n) (λ _. install_all ns starts (install_at (lookup n g.table) g)) e in
    install_all-frame ns starts _ g' e' ∙ install_at-frame (lookup n g.table) g

pub retry_at-frame :
    (k : Option ℕ) (entry : Option Entry) (g : Runtime) → frame (retry_at k entry g) ≡ frame g
unfolding start_retry
retry_at-frame none entry g = refl
retry_at-frame (some k) none g = refl
retry_at-frame (some k) (some entry) g = refl

retry_all-frame : (ns : List String) (g : Runtime) → frame (retry_all ns g) ≡ frame g
unfolding retry_all
retry_all-frame [] g = refl
retry_all-frame (n ∷ ns) g = elim (Bool-cases (elem n g.config_faults)) [
  | inl e ↦ rw (e, retry_all) (retry_all-frame ns g)
  | inr e ↦
      rw (e, retry_all)
        (retry_all-frame ns _ ∙ retry_at-frame (lookup n g.table) (lookup n g.registry) g)
]

pub Booted-AreInForce : (b : Booted) → AreInForce b.runtime
unfolding start
Booted-AreInForce b =
    let (g, names) = boot b.registry b.print b.initial b.maximum b.attach in
    let (m, e₁, e₂) =
      >>=-eq-ok (install_all names b.starts g) (λ m. ok (retry_all (keys m.failed) m))
        b.is_started in
    let h = boot-AreInForce b.registry b.print b.initial b.maximum b.attach in
    let e₀ = install_all-frame names b.starts g m e₁ in
    let e₃ = retry_all-frame (keys m.failed) m in
    record { served = λ n. ground (arith, h.served n); printed = λ n. ground (arith, h.printed n) }

-- After any history of the gateway, whatever failed and was retried or reloaded, in whatever order, the
-- surfaces in the table are those of the registry in force, by name. A reload that was not refused puts
-- the new registry in force, whichever of its surfaces attach. One that was refused changes nothing but
-- the time of the last failure.
pub reload-AreInForce :
    (b : Booted) (more : List Act) (new : Dict Entry) (print : Entry → String) (now : String)
    (t : Turn) (e : Exc) (m : String)
    → let g = acts more b.runtime in
      (has m g.table ≡ has m g.registry)
      × (has m (reload (ok new) print now t g).1.table ≡ has m new)
      × ((reload (ok new) print now t g).1.registry ≡ new)
      × ((reload (ok new) print now t g).1.fingerprints ≡ prints_of print new)
      × ((reload (raise e) print now t g).1 ≡ record g { last_reload_failure = some now })
unfolding reload
reload-AreInForce b more new print now t e m =
    let g = acts more b.runtime in
    let h = acts-AreInForce more b.runtime (Booted-AreInForce b) in
    (h.served m, turned-has new print t g m (h.served m ∙ sym (h.printed m)), refl, refl, refl)
