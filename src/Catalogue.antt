-- ===== src/Catalogue.antt =====
-- catalogue.py: a backend's tools, with freshness. `ensure_fresh` is split where it awaits the backend:
-- `begin` is the part before, and `listed`, `lost` and `dropped` are its ends. The clock counts
-- nanoseconds. `Index` and `build` are the search index and `build_index` with the surface's aliases.
pub mod Fresh
pub mod Drifted
use beherouter.Prelude.{
  ℕ, ◌-◌, ◌*◌, String, Bool, true, false, not, ◌&&◌, ◌||◌, Option, none, some, List, [], ◌∷◌, Dict,
  put, elem, map, select, is_nil, sorted_set, ltb, ◌==◌, if◌then◌else◌,
}
use beherouter.Models.{ToolDescriptor}

pub data Status : Type 0 where
  ok drifted stale nothing : Status

pub record Drift : Type 0 where
  pub added : List String
  pub removed : List String
  pub pinned_missing : List String

abbrev no_drift : Drift
no_drift = record { added = []; removed = []; pinned_missing = [] }

abbrev pub is_changed : Drift → Bool
is_changed d = not (is_nil d.added) || not (is_nil d.removed) || not (is_nil d.pinned_missing)

pub record Catalogue (Index : Type 0) : Type 0 where
  pub descriptors : List ToolDescriptor
  pub relists : Bool  -- whether there is a `relist`
  pub ttl_ms : Option ℕ
  pub pinned_names : List String
  pub fetched_at : ℕ
  pub refreshing : Bool
  pub index : Option Index
  pub by_name : Option (Dict ToolDescriptor)
  pub status : Status
  pub drift : Drift

-- `_enabled`, as the time to live if it is on.
abbrev pub ttl : Bool → Option ℕ → Option ℕ
ttl true (some ms) = if ms == 0 then none else some ms
ttl _ _ = none

abbrev pub names : List ToolDescriptor → List String
names ds = map (λ d. d.name) ds

abbrev status_at_first : Option ℕ → Status
status_at_first none = nothing
status_at_first (some _) = ok

pub new_catalogue : {Index : Type 0} → List ToolDescriptor → Bool → Option ℕ → ℕ → Catalogue Index
new_catalogue ds relists ttl_ms now = record {
  descriptors = ds;
  relists = relists;
  ttl_ms = ttl_ms;
  pinned_names = names (select (λ d. d.pinned) ds);
  fetched_at = now;
  refreshing = false;
  index = none;
  by_name = none;
  status = status_at_first (ttl relists ttl_ms);
  drift = no_drift;
}

-- `_diff`
pub diff : {Index : Type 0} → Catalogue Index → List ToolDescriptor → Drift
diff c fresh =
    let before = names c.descriptors in
    let after = names fresh in
    record {
      added = sorted_set (select (λ n. not (elem n before)) after);
      removed = sorted_set (select (λ n. not (elem n after)) before);
      pinned_missing = sorted_set (select (λ n. not (elem n after)) c.pinned_names);
    }

-- The part of `ensure_fresh` before the backend is asked, and whether it is asked.
abbrev is_due : {Index : Type 0} → Catalogue Index → ℕ → Bool
is_due c now = elim (ttl c.relists c.ttl_ms) [
  | none ↦ false
  | some ms ↦ not (ltb (now - c.fetched_at) (ms * 1_000_000)) && not c.refreshing
]

pub begin : {Index : Type 0} → ℕ → Catalogue Index → Bool × Catalogue Index
begin now c = if is_due c now then (true, record c { refreshing = true }) else (false, c)

-- The backend failed to list its tools.
pub lost : {Index : Type 0} → ℕ → Catalogue Index → Catalogue Index
lost now c = record c { refreshing = false; fetched_at = now; status = stale }

-- The caller went away while the backend was asked: only the `finally` runs.
pub dropped : {Index : Type 0} → Catalogue Index → Catalogue Index
dropped c = record c { refreshing = false }

pub listed : {Index : Type 0} → List ToolDescriptor → ℕ → Catalogue Index → Catalogue Index
unfolding diff
listed fresh now c = record c {
  refreshing = false;
  drift = diff c fresh;
  descriptors = fresh;
  index = none;
  by_name = none;
  fetched_at = now;
  status = if is_changed (diff c fresh) then drifted else ok;
}

-- `{d.name: d for d in ds}`, onto what is there.
abbrev pub named : List ToolDescriptor → Dict ToolDescriptor → Dict ToolDescriptor
named [] m = m
named (d ∷ ds) m = named ds (put d.name d m)

-- The properties `by_name` and `index`, which fill their caches.
pub get_by_name : {Index : Type 0} → Catalogue Index → Dict ToolDescriptor × Catalogue Index
get_by_name c = elim c.by_name [
  | some m ↦ (m, c)
  | none ↦ (named c.descriptors [], record c { by_name = some (named c.descriptors []) })
]

pub get_index :
    {Index : Type 0} → (List ToolDescriptor → Index) → Catalogue Index → Index × Catalogue Index
get_index build c = elim c.index [
  | some i ↦ (i, c)
  | none ↦ (build c.descriptors, record c { index = some (build c.descriptors) })
]
