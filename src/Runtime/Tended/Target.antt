-- ===== src/Runtime/Tended/Target.antt =====
-- A reload leaves every surface tended, if nothing else happens while one of its apps starts.
use beherouter.Prelude.{
  ℕ, String, ◌≡◌, refl, true, false, ◌||◌, not, Option, none, some, List, [], ◌∷◌, ◌++◌, Dict,
  lookup, has, lookup-put, lookup-select_keys, arith, eq_iff, eq_refl, ◌===◌,
}
use beherouter.Errors.{Exc, Result, ok, raise}
use beherouter.Identity.Tables.{Entry}
use beherouter.Runtime.Tidy.{well_placed}
use beherouter.Runtime.Turn.{
  add_slot, attach_failed, Outcome, settled, answer_of, slot_of, settle_target, settle_known,
  settle_targets, remove, remove_all, Turn, all_effects, prints_of, turned, reload, Act, task,
  reloaded, act, acts,
}
use beherouter.Runtime.{Runtime, install, start_retry, retire, cancel_retry, steps}
use beherouter.Runtime.Tended.{
  tended, owned, kept, IsTended, name_of_retry, step-IsTended, steps-IsTended,
}
use beherouter.Runtime.InForce.{act-AreInForce, AreInForce}
use beherouter.Reload.{Diff, diff}

-- Every surface but that of the target at hand is tended.
record IsOpen (name : String) (g : Runtime) : Type 0 where
  placed : (n : String) → well_placed g n ≡ true
  others : (n : String) → (tended g n || (n === name)) ≡ true
  owned_all : (k : ℕ) → owned g k ≡ true
  kept_all : (r : ℕ) → kept g r ≡ true

-- A target that has been answered is tended, and so are the others.
module _ (name : String) (entry : Entry) (k : ℕ) (g : Runtime) (h : IsOpen name g)
    (here : lookup name g.table ≡ some k) where
  failed_target-IsTended : (e : Exc) → IsTended (attach_failed k name entry e (cancel_retry k g))
  unfolding attach_failed start_retry cancel_retry
  failed_target-IsTended e = record {
    placed = λ n. ground (arith, h.placed n);
    tended_all = λ n. ground (
      arith,
      h.placed n,
      h.placed name,
      h.others n,
      h.owned_all k,
      lookup-put name n e g.failed,
      eq_iff n name,
      eq_iff name n,
    );
    owned_all = λ j. ground (arith, h.owned_all j, h.owned_all k);
    kept_all = λ r.
        ground (arith, h.kept_all r, h.owned_all k, h.placed name, eq_iff (g.slots k).name name);
  }

  started_target-IsTended : IsTended (settled k name entry (ok tt) (cancel_retry k g))
  unfolding install retire cancel_retry
  started_target-IsTended = record {
    placed = λ n. ground (arith, h.placed n);
    tended_all = λ n. ground (
      arith,
      h.placed n,
      h.placed name,
      h.others n,
      h.owned_all k,
      lookup-select_keys (λ j. not (j === name)) n g.failed,
      eq_iff n name,
      eq_iff (g.slots k).name name,
    );
    owned_all = λ j. ground (arith, h.owned_all j, h.owned_all k);
    kept_all = λ r. ground (arith, h.kept_all r, h.owned_all k);
  }

settled_target-IsTended :
    (name : String) (entry : Entry) (k : ℕ) (g : Runtime)
    → IsOpen name g
    → lookup name g.table ≡ some k
    → (r : Result (Unit {0})) → IsTended (settled k name entry r (cancel_retry k g))
settled_target-IsTended name entry k g h here (ok _) = started_target-IsTended name entry k g h here
settled_target-IsTended name entry k g h here (raise e) =
    failed_target-IsTended name entry k g h here e

answered_target-IsTended :
    (name : String) (entry : Entry) (k : ℕ) (g : Runtime) (o : Outcome)
    → o.meanwhile ≡ []
    → IsOpen name g
    → lookup name g.table ≡ some k
    → (r : Result (Unit {0})) → IsTended (answer_of k name entry o r (cancel_retry k g))
unfolding steps
answered_target-IsTended name entry k g o calm h here (ok _) =
    rw (calm, steps) (settled_target-IsTended name entry k g h here o.start)
answered_target-IsTended name entry k g o calm h here (raise e) =
    failed_target-IsTended name entry k g h here e

add_slot-IsOpen :
    (name : String) (g : Runtime)
    → IsTended g
    → lookup name g.table ≡ none
    → IsOpen name (add_slot name false g)
add_slot-IsOpen name g h e = record {
  placed =
      λ n. ground (arith, h.placed n, lookup-put name n g.made g.table, eq_iff name n, eq_refl n);
  others = λ n. ground (
    arith,
    h.placed n,
    h.tended_all n,
    lookup-put name n g.made g.table,
    eq_iff name n,
    eq_iff n name,
  );
  owned_all = λ k. ground (arith, h.owned_all k);
  kept_all = λ r. ground (
    arith,
    h.kept_all r,
    h.placed (name_of_retry g r),
    lookup-put name (name_of_retry g r) g.made g.table,
    eq_iff name (name_of_retry g r),
  );
}

target-IsTended :
    (name : String) (entry : Entry) (o : Outcome) (g : Runtime) (at : Option ℕ)
    → lookup name g.table ≡ at
    → o.meanwhile ≡ []
    → IsTended g
    → let (k, here) = slot_of name at g in
      IsTended (answer_of k name entry o o.attach.result (cancel_retry k here))
target-IsTended name entry o g none e calm h =
    answered_target-IsTended name entry g.made (add_slot name false g) o calm
      (add_slot-IsOpen name g h e)
      (ground (arith, lookup-put name name g.made g.table, eq_refl name)) o.attach.result
target-IsTended name entry o g (some k) e calm h =
    answered_target-IsTended name entry k g o calm
      (record {
        placed = h.placed;
        others = λ n. ground (arith, h.tended_all n);
        owned_all = h.owned_all;
        kept_all = h.kept_all;
      })
      e o.attach.result

settle_target-IsTended :
    (name : String) (entry : Entry) (o : Outcome) (g : Runtime)
    → o.meanwhile ≡ []
    → IsTended g
    → IsTended (settle_target name entry o g)
unfolding settle_target
settle_target-IsTended name entry o g calm h =
    target-IsTended name entry o g (lookup name g.table) refl calm h

settle_known-IsTended :
    (name : String) (entry : Option Entry) (o : Outcome) (g : Runtime)
    → o.meanwhile ≡ []
    → IsTended g
    → IsTended (settle_known name entry o g)
settle_known-IsTended name none o g calm h = h
settle_known-IsTended name (some entry) o g calm h = settle_target-IsTended name entry o g calm h

settle_targets-IsTended :
    (ns : List String) (new : Dict Entry) (outcome : String → Outcome) (g : Runtime)
    → ((n : String) → (outcome n).meanwhile ≡ [])
    → IsTended g
    → IsTended (settle_targets ns new outcome g)
unfolding settle_targets
settle_targets-IsTended [] new outcome g calm h = h
settle_targets-IsTended (n ∷ ns) new outcome g calm h =
    settle_targets-IsTended ns new outcome _ calm
      (settle_known-IsTended n (lookup n new) (outcome n) g (calm n) h)

abbrev slot_at : Runtime → String → ℕ
slot_at g name = elim (lookup name g.table) [ none ↦ 0 | some k ↦ k ]

remove-IsTended : (name : String) (g : Runtime) → IsTended g → IsTended (remove name g)
unfolding remove retire cancel_retry
remove-IsTended name g h =
    let left = λ (n : String). lookup-select_keys (λ j. not (j === name)) n g.table in
    record {
      placed = λ n. ground (arith, h.placed n, left n, eq_iff n name);
      tended_all = λ n. ground (
        arith,
        h.placed n,
        h.placed name,
        h.tended_all n,
        h.owned_all (slot_at g name),
        left n,
        lookup-select_keys (λ j. not (j === name)) n g.failed,
        eq_iff n name,
        eq_iff (g.slots (slot_at g name)).name n,
        eq_iff (g.slots (slot_at g name)).name name,
      );
      owned_all = λ k. ground (arith, h.owned_all k, h.owned_all (slot_at g name));
      kept_all = λ r. ground (
        arith,
        h.kept_all r,
        h.placed (name_of_retry g r),
        left (name_of_retry g r),
        eq_iff (name_of_retry g r) name,
      );
    }

remove_all-IsTended : (ns : List String) (g : Runtime) → IsTended g → IsTended (remove_all ns g)
unfolding remove_all
remove_all-IsTended [] g h = h
remove_all-IsTended (n ∷ ns) g h = remove_all-IsTended ns (remove n g) (remove-IsTended n g h)

all_effects-IsTended :
    (ns : List String) (outcome : String → Outcome) (g : Runtime)
    → IsTended g
    → IsTended (all_effects ns outcome g)
all_effects-IsTended [] outcome g h = h
all_effects-IsTended (n ∷ ns) outcome g h = all_effects-IsTended ns outcome _ (record {
  placed = h.placed;
  tended_all = h.tended_all;
  owned_all = h.owned_all;
  kept_all = h.kept_all;
})

turned-IsTended :
    (new : Dict Entry) (prints : Dict String) (d : Diff) (t : Turn) (g : Runtime)
    → ((n : String) → (t.outcome n).meanwhile ≡ [])
    → ((n : String) → has n g.table ≡ has n g.registry)
    → IsTended g
    → IsTended (turned new prints d t g)
turned-IsTended new prints d t g calm f h =
    let targets = d.added ++ d.changed in
    let attached =
      all_effects-IsTended targets t.outcome (steps t.during g) (steps-IsTended t.during g f h) in
    let i =
      remove_all-IsTended d.removed _
        (settle_targets-IsTended targets new t.outcome _ calm attached) in
    record {
      placed = i.placed;
      tended_all = i.tended_all;
      owned_all = i.owned_all;
      kept_all = i.kept_all;
    }

-- While an app of a reload starts, no other task makes a step.
abbrev pub IsCalm : Act → Type 0
IsCalm (task e) = Unit
IsCalm (reloaded loaded print now t) = (n : String) → (t.outcome n).meanwhile ≡ []

abbrev pub AreCalm : List Act → Type 0
AreCalm [] = Unit
AreCalm (a ∷ more) = IsCalm a × AreCalm more

act-IsTended : (a : Act) (g : Runtime) → IsCalm a → AreInForce g → IsTended g → IsTended (act a g)
unfolding act reload
act-IsTended (task e) g calm f h = step-IsTended e g f.served h
act-IsTended (reloaded (raise e) print now t) g calm f h = record {
  placed = h.placed;
  tended_all = h.tended_all;
  owned_all = h.owned_all;
  kept_all = h.kept_all;
}
act-IsTended (reloaded (ok new) print now t) g calm f h =
    turned-IsTended new (prints_of print new) (diff g.fingerprints (prints_of print new)) t g calm
      f.served h

pub acts-IsTended :
    (more : List Act) (g : Runtime)
    → AreCalm more
    → AreInForce g
    → IsTended g
    → IsTended (acts more g)
unfolding acts
acts-IsTended [] g calm f h = h
acts-IsTended (a ∷ more) g calm f h =
    acts-IsTended more (act a g) calm.1 (act-AreInForce a g f) (act-IsTended a g calm.0 f h)
