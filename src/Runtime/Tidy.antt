-- ===== src/Runtime/Tidy.antt =====
-- No supervisor is lost: whoever serves is in the slot of its surface, or is on its way out.
pub mod Start
use beherouter.Prelude.{
  subst, keys, elem, if◌then◌else◌, ℕ, String, ◌≡◌, refl, Bool, true, false, ◌&&◌, ◌||◌, not,
  Option, none, some, List, [], ◌∷◌, Dict, lookup, ◌++◌, lookup-put, lookup-select_keys, eq_iff,
  eq_refl, ltb, arith, ◌===◌,
}
use beherouter.Identity.Tables.{Entry}
use beherouter.Errors.{Exc, Result, ok, raise, >>=-eq-ok}
use beherouter.Runtime.Turn.{
  add_slot, attach_failed, settled, answer_of, slot_of, settle_known, all_effects, turned, Outcome,
  settle_target, settle_targets, remove, remove_all, Turn, reload, prints_of, Act, task, reloaded,
  act, acts,
}
use beherouter.Reload.{Diff, diff}
use beherouter.Runtime.Boot.{
  boot, start, boot_slots, build_surfaces, install_all, retry_all, new_runtime, install_at,
  retry_at,
}
use beherouter.Runtime.{
  forget_name, Runtime, is_number, is_current, start_retry, retire, cancel_retry, install,
  serving_failed, end_task, Attach, retry_attached, retry_started, Event, ended, attached, started,
  step, steps,
}

-- The task `n`, if it serves: it is retiring, or holds its slot, and that slot is in the table.
abbrev pub held : Runtime → ℕ → Bool
held g n = elim (g.supervisors n) [
  | none ↦ true
  | some s ↦ g.retiring n || (is_current g s.slot && is_number (g.slots s.slot).supervisor n)
]

-- A slot in the table is one that was made, under its own name.
abbrev pub well_placed : Runtime → String → Bool
well_placed g name = elim (lookup name g.table) [
  | none ↦ true
  | some k ↦ ltb k g.made && ((g.slots k).name === name)
]

pub record IsTidy (g : Runtime) : Type 0 where
  pub held_all : (n : ℕ) → held g n ≡ true
  pub placed : (name : String) → well_placed g name ≡ true

pub start_retry-IsTidy :
    (k : ℕ) (entry : Entry) (g : Runtime) → IsTidy g → IsTidy (start_retry k entry g)
unfolding start_retry
start_retry-IsTidy k entry g h = record {
  held_all = λ n. ground (arith, h.held_all n);
  placed = λ name. ground (arith, h.placed name);
}

pub install-IsTidy : (k : ℕ) (g : Runtime) → IsTidy g → IsTidy (install k g)
unfolding install retire
install-IsTidy k g h = record {
  held_all = λ n. ground (arith, h.held_all n);
  placed = λ name. ground (arith, h.placed name);
}

pub cancel_retry-IsTidy : (k : ℕ) (g : Runtime) → IsTidy g → IsTidy (cancel_retry k g)
unfolding cancel_retry
cancel_retry-IsTidy k g h = record {
  held_all = λ n. ground (arith, h.held_all n);
  placed = λ name. ground (arith, h.placed name);
}

pub end_task-IsTidy : (m : ℕ) (g : Runtime) → IsTidy g → IsTidy (end_task m g)
unfolding end_task serving_failed start_retry
end_task-IsTidy m g h = record {
  held_all = λ n. ground (arith, h.held_all n);
  placed = λ name. ground (arith, h.placed name);
}

pub retry_attached-IsTidy :
    (r : ℕ) (a : Attach) (g : Runtime) → IsTidy g → IsTidy (retry_attached r a g)
unfolding retry_attached
retry_attached-IsTidy r a g h = record {
  held_all = λ n. ground (arith, h.held_all n);
  placed = λ name. ground (arith, h.placed name);
}

retry_started-IsTidy : (r : ℕ) (b : Bool) (g : Runtime) → IsTidy g → IsTidy (retry_started r b g)
unfolding retry_started install retire
retry_started-IsTidy r b g h = record {
  held_all = λ n. ground (arith, h.held_all n);
  placed = λ name. ground (arith, h.placed name);
}

pub step-IsTidy : (e : Event) (g : Runtime) → IsTidy g → IsTidy (step e g)
unfolding step
step-IsTidy (ended n) g h = end_task-IsTidy n g h
step-IsTidy (attached r a) g h = retry_attached-IsTidy r a g h
step-IsTidy (started r b) g h = retry_started-IsTidy r b g h

pub steps-IsTidy : (es : List Event) (g : Runtime) → IsTidy g → IsTidy (steps es g)
unfolding steps
steps-IsTidy [] g h = h
steps-IsTidy (e ∷ es) g h = steps-IsTidy es (step e g) (step-IsTidy e g h)

-- The name of the slot that the task `n` serves.
abbrev served : Runtime → ℕ → String
served g n = elim (g.supervisors n) [ none ↦ "" | some s ↦ (g.slots s.slot).name ]

add_slot-IsTidy :
    (name : String) (fault : Bool) (g : Runtime)
    → lookup name g.table ≡ none
    → IsTidy g
    → IsTidy (add_slot name fault g)
add_slot-IsTidy name fault g e h = record {
  held_all = λ n. ground (
    arith,
    h.held_all n,
    h.placed (served g n),
    eq_iff name (served g n),
    lookup-put name (served g n) g.made g.table,
  );
  placed =
      λ m. ground (arith, h.placed m, lookup-put name m g.made g.table, eq_iff name m, eq_refl m);
}

attach_failed-IsTidy :
    (k : ℕ) (name : String) (entry : Entry) (e : Exc) (g : Runtime)
    → IsTidy g
    → IsTidy (attach_failed k name entry e g)
unfolding attach_failed start_retry
attach_failed-IsTidy k name entry e g h = record {
  held_all = λ n. ground (arith, h.held_all n);
  placed = λ m. ground (arith, h.placed m);
}

forget_name-IsTidy : (name : String) (g : Runtime) → IsTidy g → IsTidy (forget_name name g)
forget_name-IsTidy name g h = record {
  held_all = λ n. ground (arith, h.held_all n);
  placed = λ m. ground (arith, h.placed m);
}

settled-IsTidy :
    (k : ℕ) (name : String) (entry : Entry) (r : Result (Unit {0})) (g : Runtime)
    → IsTidy g
    → IsTidy (settled k name entry r g)
settled-IsTidy k name entry (raise e) g h = attach_failed-IsTidy k name entry e g h
settled-IsTidy k name entry (ok _) g h =
    let i = install-IsTidy k g h in
    record {
      held_all = λ n. ground (arith, i.held_all n);
      placed = λ m. ground (arith, i.placed m);
    }

answer_of-IsTidy :
    (k : ℕ) (name : String) (entry : Entry) (o : Outcome) (r : Result (Unit {0})) (g : Runtime)
    → IsTidy g
    → IsTidy (answer_of k name entry o r g)
answer_of-IsTidy k name entry o (ok _) g h =
    settled-IsTidy k name entry o.start (steps o.meanwhile g) (steps-IsTidy o.meanwhile g h)
answer_of-IsTidy k name entry o (raise e) g h = attach_failed-IsTidy k name entry e g h

slot_of-IsTidy :
    (name : String) (at : Option ℕ) (g : Runtime)
    → lookup name g.table ≡ at
    → IsTidy g
    → IsTidy (slot_of name at g).1
slot_of-IsTidy name none g e h = add_slot-IsTidy name false g e h
slot_of-IsTidy name (some k) g e h = h

settle_target-IsTidy :
    (name : String) (entry : Entry) (o : Outcome) (g : Runtime)
    → IsTidy g
    → IsTidy (settle_target name entry o g)
unfolding settle_target
settle_target-IsTidy name entry o g h =
    let here = slot_of name (lookup name g.table) g in
    answer_of-IsTidy here.0 name entry o o.attach.result (cancel_retry here.0 here.1)
      (cancel_retry-IsTidy here.0 here.1 (slot_of-IsTidy name (lookup name g.table) g refl h))

settle_known-IsTidy :
    (name : String) (entry : Option Entry) (o : Outcome) (g : Runtime)
    → IsTidy g
    → IsTidy (settle_known name entry o g)
settle_known-IsTidy name none o g h = h
settle_known-IsTidy name (some entry) o g h = settle_target-IsTidy name entry o g h

settle_targets-IsTidy :
    (ns : List String) (new : Dict Entry) (outcome : String → Outcome) (g : Runtime)
    → IsTidy g
    → IsTidy (settle_targets ns new outcome g)
unfolding settle_targets
settle_targets-IsTidy [] new outcome g h = h
settle_targets-IsTidy (n ∷ ns) new outcome g h =
    settle_targets-IsTidy ns new outcome _ (settle_known-IsTidy n (lookup n new) (outcome n) g h)

remove-IsTidy : (name : String) (g : Runtime) → IsTidy g → IsTidy (remove name g)
unfolding remove retire cancel_retry
remove-IsTidy name g h = record {
  held_all = λ n. ground (
    arith,
    h.held_all n,
    h.placed (served g n),
    eq_iff (served g n) name,
    lookup-select_keys (λ j. not (j === name)) (served g n) g.table,
  );
  placed = λ m.
      ground
        (arith, h.placed m, lookup-select_keys (λ j. not (j === name)) m g.table, eq_iff m name);
}

remove_all-IsTidy : (ns : List String) (g : Runtime) → IsTidy g → IsTidy (remove_all ns g)
unfolding remove_all
remove_all-IsTidy [] g h = h
remove_all-IsTidy (n ∷ ns) g h = remove_all-IsTidy ns (remove n g) (remove-IsTidy n g h)

all_effects-IsTidy :
    (ns : List String) (outcome : String → Outcome) (g : Runtime)
    → IsTidy g
    → IsTidy (all_effects ns outcome g)
all_effects-IsTidy [] outcome g h = h
all_effects-IsTidy (n ∷ ns) outcome g h = all_effects-IsTidy ns outcome _ (record {
  held_all = λ n. ground (arith, h.held_all n);
  placed = λ m. ground (arith, h.placed m);
})

turned-IsTidy :
    (new : Dict Entry) (prints : Dict String) (d : Diff) (t : Turn) (g : Runtime)
    → IsTidy g
    → IsTidy (turned new prints d t g)
turned-IsTidy new prints d t g h =
    let targets = d.added ++ d.changed in
    let attached =
      all_effects-IsTidy targets t.outcome (steps t.during g) (steps-IsTidy t.during g h) in
    let i =
      remove_all-IsTidy d.removed _ (settle_targets-IsTidy targets new t.outcome _ attached) in
    record { held_all = λ n. i.held_all n; placed = λ m. i.placed m }

pub act-IsTidy : (a : Act) (g : Runtime) → IsTidy g → IsTidy (act a g)
unfolding act reload
act-IsTidy (task e) g h = step-IsTidy e g h
act-IsTidy (reloaded (raise e) print now t) g h = record {
  held_all = λ n. h.held_all n;
  placed = λ m. h.placed m;
}
act-IsTidy (reloaded (ok new) print now t) g h =
    turned-IsTidy new (prints_of print new) (diff g.fingerprints (prints_of print new)) t g h

pub acts-IsTidy : (more : List Act) (g : Runtime) → IsTidy g → IsTidy (acts more g)
unfolding acts
acts-IsTidy [] g h = h
acts-IsTidy (a ∷ more) g h = acts-IsTidy more (act a g) (act-IsTidy a g h)
