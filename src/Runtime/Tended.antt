-- ===== src/Runtime/Tended.antt =====
-- A surface that does not serve is reported, and is retried unless its configuration is at fault.
pub mod Target
pub mod Waiting
pub mod Started
use beherouter.Prelude.{
  ℕ, ◌+◌, ◌<◌, String, ◌≡◌, refl, sym, ap, ◌∙◌, Bool, true, false, ◌&&◌, ◌||◌, not, Option, none,
  some, List, [], ◌∷◌, ◌++◌, Dict, lookup, has, keys, put, elem, lookup-put, lookup-select_keys,
  arith, eq_iff, eq_refl, ◌===◌, ◌==◌, ltb, is_some, if◌then◌else◌,
}
use beherouter.Errors.{Exc, Result, ok, raise, >>=-eq-ok}
use beherouter.Identity.Tables.{Entry}
use beherouter.Runtime.Tidy.{well_placed}
use beherouter.Runtime.InForce.{step-frame}
use beherouter.Runtime.Turn.{
  add_slot, attach_failed, Outcome, settled, answer_of, slot_of, settle_target, settle_known,
  settle_targets, remove, remove_all, Turn, all_effects, prints_of, turned, reload, Act, task,
  reloaded, act, acts,
}
use beherouter.Runtime.{
  Slot, Retry, Supervisor, Runtime, is_number, is_current, Attach, install, start_retry, retire,
  cancel_retry, serving_failed, end_task, retry_attached, retry_started, Event, ended, attached,
  started, step, steps,
}

-- The retry that a slot names is alive and is for that slot.
abbrev pub is_retried : Runtime → ℕ → Option ℕ → Bool
is_retried g k none = false
is_retried g k (some r) = elim (g.retries r) [ none ↦ false | some t ↦ t.slot == k && ltb r g.made ]

-- What is asked of the slot `k` of the surface `n`.
abbrev pub well_tended : Runtime → String → ℕ → Bool
well_tended g n k =
    let s = g.slots k in
    is_some s.app || (has n g.failed && (s.config_fault || is_retried g k s.retry))

abbrev pub tended : Runtime → String → Bool
tended g n = elim (lookup n g.table) [ none ↦ true | some k ↦ well_tended g n k ]

abbrev pub owned : Runtime → ℕ → Bool
owned g k = elim (g.slots k).retry [ none ↦ true | some r ↦ is_retried g k (some r) ]

abbrev pub kept : Runtime → ℕ → Bool
kept g r = elim (g.retries r) [
  | none ↦ true
  | some t ↦
      ltb r g.made && ltb t.slot g.made && is_current g t.slot && is_number (g.slots t.slot).retry r
]

pub record IsTended (g : Runtime) : Type 0 where
  pub placed : (n : String) → well_placed g n ≡ true
  pub tended_all : (n : String) → tended g n ≡ true
  pub owned_all : (k : ℕ) → owned g k ≡ true
  pub kept_all : (r : ℕ) → kept g r ≡ true

abbrev name_of_task : Runtime → ℕ → String
name_of_task g n = elim (g.supervisors n) [ none ↦ "" | some s ↦ (g.slots s.slot).name ]

abbrev slot_of_task : Runtime → ℕ → ℕ
slot_of_task g n = elim (g.supervisors n) [ none ↦ 0 | some s ↦ s.slot ]

end_task-IsTended :
    (m : ℕ) (g : Runtime)
    → ((n : String) → has n g.table ≡ has n g.registry)
    → IsTended g
    → IsTended (end_task m g)
unfolding end_task serving_failed start_retry
end_task-IsTended m g f h = record {
  placed = λ n. ground (arith, h.placed n);
  tended_all = λ n. ground (
    arith,
    h.placed n,
    h.placed (name_of_task g m),
    h.tended_all n,
    h.owned_all (slot_of_task g m),
    f (name_of_task g m),
    lookup-put (name_of_task g m) n Exc.runtime_error g.failed,
    eq_iff n (name_of_task g m),
    eq_iff (name_of_task g m) n,
  );
  owned_all = λ k. ground (arith, h.owned_all k);
  kept_all = λ r. ground (arith, h.kept_all r, h.placed (name_of_task g m));
}

-- The slot and the surface of a retry.
abbrev pub slot_of_retry : Runtime → ℕ → ℕ
slot_of_retry g r = elim (g.retries r) [ none ↦ 0 | some t ↦ t.slot ]

abbrev pub name_of_retry : Runtime → ℕ → String
name_of_retry g r = (g.slots (slot_of_retry g r)).name

abbrev exc_of : Result (Unit {0}) → Exc
exc_of (ok _) = Exc.runtime_error
exc_of (raise e) = e

module _ (r : ℕ) (g : Runtime) (h : IsTended g) where
  retry_attached-IsTended : (a : Attach) → IsTended (retry_attached r a g)
  unfolding retry_attached
  retry_attached-IsTended a =
      let name = name_of_retry g r in
      record {
        placed = λ n. ground (arith, h.placed n);
        tended_all = λ n. ground (
          arith,
          h.placed n,
          h.placed name,
          h.tended_all n,
          h.kept_all r,
          h.owned_all (slot_of_retry g r),
          lookup-put name n (exc_of a.result) g.failed,
          eq_iff n name,
          eq_iff name n,
        );
        owned_all = λ k. ground (arith, h.owned_all k, h.kept_all r);
        kept_all = λ q. ground (arith, h.kept_all q, h.kept_all r);
      }

  retry_started-IsTended : (b : Bool) → IsTended (retry_started r b g)
  unfolding retry_started install retire
  retry_started-IsTended b =
      let name = name_of_retry g r in
      record {
        placed = λ n. ground (arith, h.placed n);
        tended_all = λ n. ground (
          arith,
          h.placed n,
          h.placed name,
          h.tended_all n,
          h.kept_all r,
          lookup-select_keys (λ j. not (j === name)) n g.failed,
          eq_iff n name,
        );
        owned_all = λ k. ground (arith, h.owned_all k, h.kept_all r);
        kept_all = λ q. ground (arith, h.kept_all q, h.kept_all r);
      }

pub step-IsTended :
    (e : Event) (g : Runtime)
    → ((n : String) → has n g.table ≡ has n g.registry)
    → IsTended g
    → IsTended (step e g)
unfolding step
step-IsTended (ended n) g f h = end_task-IsTended n g f h
step-IsTended (attached r a) g f h = retry_attached-IsTended r g h a
step-IsTended (started r b) g f h = retry_started-IsTended r g h b

pub steps-IsTended :
    (es : List Event) (g : Runtime)
    → ((n : String) → has n g.table ≡ has n g.registry)
    → IsTended g
    → IsTended (steps es g)
unfolding steps
steps-IsTended [] g f h = h
steps-IsTended (e ∷ es) g f h =
    steps-IsTended es (step e g) (λ n. ground (arith, step-frame e g, f n)) (step-IsTended e g f h)
