-- ===== src/Runtime/Health.antt =====
-- runtime.py: `health_body`, what /healthz tells of the gateway. A list that the body leaves out where it
-- is empty is an empty list here.
use beherouter.Prelude.{
  ℕ, String, ◌≡◌, refl, ◌⊎◌, inl, inr, Bool, true, false, not, Option, none, some, List, [], ◌∷◌,
  Dict, lookup, has, keys, elem, elem-keys, elem-sorted_set, select, sorted_set, map, is_nil,
  is_some, arith, Bool-cases, Option-cases, eq_iff, if◌then◌else◌,
}
use beherouter.KillSwitch.{KillState}
use beherouter.Runtime.{Slot, Runtime}
use beherouter.Runtime.Turn.{Act, acts}
use beherouter.Runtime.Tidy.Start.{Booted}
use beherouter.Runtime.InForce.{acts-AreInForce, Booted-AreInForce}
use beherouter.Runtime.Tended.{is_retried, well_tended}
use beherouter.Runtime.Tended.Target.{AreCalm, acts-IsTended}
use beherouter.Runtime.Tended.Started.{Booted-IsTended}

pub record Health : Type 0 where
  pub degraded : Bool
  pub surfaces : List String
  pub failed : List String
  pub needs_config_change : List String
  pub pinned_missing : List (String × Option (List String))
  pub reload_failed : List String
  pub last_reload : Option String
  pub disabled : List String
  pub stale : Bool

-- The names in the table whose slot has an app.
live_in : (ℕ → Slot) → Dict ℕ → List String
live_in slots [] = []
live_in slots ((n, k) ∷ table) =
    let rest = live_in slots table in if is_some (slots k).app then n ∷ rest else rest

-- `SurfaceTable.live`
unfoldable pub live : Runtime → List String
unfolding live_in
live g = sorted_set (live_in g.slots g.table)

abbrev stops_of : Option (KillState × Bool) → List String
stops_of none = []
stops_of (some (st, _)) = if is_some st.all then "*" ∷ [] else sorted_set (keys st.surfaces)

abbrev is_stale : Option (KillState × Bool) → Bool
is_stale none = false
is_stale (some (_, stale)) = stale

-- The kill switch, where one is configured, gives its state and whether that is stale.
unfoldable pub health_body : Option (KillState × Bool) → Runtime → Health
unfolding live
health_body kill g = record {
  degraded = not (is_nil g.failed);
  surfaces = live g;
  failed = sorted_set (keys g.failed);
  needs_config_change = sorted_set (select (λ n. has n g.failed) g.config_faults);
  pinned_missing = map (λ n. (n, lookup n g.pinned_missing)) (sorted_set (keys g.pinned_missing));
  reload_failed = sorted_set g.reload_failed;
  last_reload = g.last_reload_failure;
  disabled = stops_of kill;
  stale = is_stale kill;
}

live_in-lookup :
    (slots : ℕ → Slot) (table : Dict ℕ) (n : String) (k : ℕ)
    → lookup n table ≡ some k
    → is_some (slots k).app ≡ true
    → elem n (live_in slots table) ≡ true
unfolding live_in
live_in-lookup slots [] n k e a = cc
live_in-lookup slots ((m, j) ∷ table) n k e a =
    ground (arith, live_in-lookup slots table n k, eq_iff m n)

-- A surface serves, or it is reported as failed, and then its configuration is at fault or a retry
-- of it is under way.
pub record IsDown (g : Runtime) (body : Health) (n : String) : Type 0 where
  pub degraded : body.degraded ≡ true
  pub named : elem n body.failed ≡ true
  pub slot : ℕ
  pub is_slot : lookup n g.table ≡ some slot
  pub cared : ((g.slots slot).config_fault ≡ true) ⊎ (is_retried g slot (g.slots slot).retry ≡ true)

unnil : {V : Type 0} (n : String) (d : Dict V) → has n d ≡ true → is_nil d ≡ false
unnil n [] h = cc
unnil n (e ∷ d) h = refl

reported :
    (kill : Option (KillState × Bool)) (g : Runtime) (n : String) (k : ℕ)
    → lookup n g.table ≡ some k
    → well_tended g n k ≡ true
    → (elem n (health_body kill g).surfaces ≡ true) ⊎ IsDown g (health_body kill g) n
unfolding health_body
reported kill g n k e h = elim (Bool-cases (is_some (g.slots k).app)) [
  | inl a ↦ inl (
      ground
        (arith, elem-sorted_set n (live_in g.slots g.table), live_in-lookup g.slots g.table n k))
  | inr a ↦ inr (record {
    degraded = ground (arith, unnil n g.failed);
    named = ground (arith, elem-sorted_set n (keys g.failed), elem-keys n g.failed);
    slot = k;
    is_slot = e;
    cared = ground arith;
  })
]

-- Once the gateway has booted and started, after any history in which no task makes a step while an app
-- of a reload starts: each surface of the registry in force is listed by /healthz as live, or is named
-- there as failed, with the status degraded; it then has a slot whose configuration is at fault, or
-- which has a live task that retries it.
pub health_honest :
    (kill : Option (KillState × Bool)) (b : Booted) (more : List Act) (n : String)
    → AreCalm more
    → has n (acts more b.runtime).registry ≡ true
    → let g = acts more b.runtime in
      (elem n (health_body kill g).surfaces ≡ true) ⊎ IsDown g (health_body kill g) n
health_honest kill b more n calm known =
    let g = acts more b.runtime in
    let f = acts-AreInForce more b.runtime (Booted-AreInForce b) in
    let h = acts-IsTended more b.runtime calm (Booted-AreInForce b) (Booted-IsTended b) in
    elim (Option-cases (lookup n g.table)) [
      | inl e ↦ absurd (ground (arith, f.served n))
      | inr (k, e) ↦ reported kill g n k e (ground (arith, h.tended_all n))
    ]
