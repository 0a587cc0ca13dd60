-- ===== src/Runtime/Shutdown.antt =====
-- runtime.py: `shutdown` ends every task that it finds; each closes its backend.
use beherouter.Prelude.{
  Option-cases, inl, inr, ℕ, String, ◌≡◌, Bool, true, false, ◌||◌, none, List, [], ◌∷◌, Dict,
  lookup, arith, if◌then◌else◌,
}
use beherouter.Runtime.{Slot, Runtime, is_number}
use beherouter.Runtime.Turn.{Act, acts}
use beherouter.Runtime.Tidy.{held, acts-IsTidy}
use beherouter.Runtime.Tidy.Start.{Booted, Booted-IsTidy}

-- A slot of the table has the task, among its supervisors and among its retries.
abbrev supervised : (ℕ → Slot) → Dict ℕ → ℕ → Bool
supervised slots [] n = false
supervised slots ((_, k) ∷ table) n = is_number (slots k).supervisor n || supervised slots table n

abbrev retried : (ℕ → Slot) → Dict ℕ → ℕ → Bool
retried slots [] n = false
retried slots ((_, k) ∷ table) n = is_number (slots k).retry n || retried slots table n

unfoldable pub shutdown : Runtime → Runtime
shutdown g = record g {
  retries = λ n. if retried g.slots g.table n then none else g.retries n;
  supervisors = λ n. if supervised g.slots g.table n || g.retiring n then none else g.supervisors n;
}

current-supervised :
    (slots : ℕ → Slot) (table : Dict ℕ) (name : String) (k n : ℕ)
    → is_number (lookup name table) k ≡ true
    → is_number (slots k).supervisor n ≡ true
    → supervised slots table n ≡ true
current-supervised slots [] name k n c h = cc
current-supervised slots ((m, j) ∷ table) name k n c h =
    ground (arith, current-supervised slots table name k n)

shutdown_held : (g : Runtime) (n : ℕ) → held g n ≡ true → (shutdown g).supervisors n ≡ none
unfolding shutdown
shutdown_held g n h = elim (Option-cases (g.supervisors n)) [
  | inl e ↦ ground arith
  | inr (s, e) ↦ ground (arith, current-supervised g.slots g.table (g.slots s.slot).name s.slot n)
]

-- No task is lost: once the gateway has booted and started, after whatever failures, retries and
-- reloads, in whatever order, a shutdown ends every supervisor that serves or drains, so that each
-- closes its backend.
pub shutdown_complete :
    (b : Booted) (more : List Act) (n : ℕ) → (shutdown (acts more b.runtime)).supervisors n ≡ none
shutdown_complete b more n =
    shutdown_held (acts more b.runtime) n
      ((acts-IsTidy more b.runtime (Booted-IsTidy b)).held_all n)
