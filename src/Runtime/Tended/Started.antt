-- ===== src/Runtime/Tended/Started.antt =====
-- The boot and the start leave every surface tended.
use beherouter.Prelude.{
  subst, ℕ, String, ◌≡◌, true, false, ◌&&◌, ◌||◌, not, none, some, List, [], ◌∷◌, lookup, has, keys,
  elem, elem-keys, arith, eq_iff, eq_refl, is_some, Bool-cases, Option-cases, inl, inr,
}
use beherouter.Errors.{ok, >>=-eq-ok}
use beherouter.Runtime.{Runtime, start_retry}
use beherouter.Runtime.Boot.{boot, install_all, retry_at, retry_all, start}
use beherouter.Runtime.Tidy.{well_placed}
use beherouter.Runtime.Tidy.Start.{Booted}
use beherouter.Runtime.InForce.{install_all-frame, boot-AreInForce}
use beherouter.Runtime.Tended.{tended, owned, kept, IsTended}
use beherouter.Runtime.Tended.Waiting.{
  distinct, slot_at, IsWaiting, boot-IsWaiting, install_all-IsWaiting,
}

-- The retries are started for all but the names that remain.
record IsRetrying (names : List String) (g : Runtime) : Type 0 where
  placed : (n : String) → well_placed g n ≡ true
  known : (n : String) → has n g.table ≡ has n g.registry
  all_tended :
      (n : String)
      → (tended g n || (elem n names && elem n (keys g.failed) && not (elem n g.config_faults)))
        ≡ true
  unretried :
      (n : String)
      → elem n names ≡ true
      → elim (lookup n g.table) [ none ↦ true | some k ↦ not (is_some (g.slots k).retry) ] ≡ true
  owned_all : (k : ℕ) → owned g k ≡ true
  kept_all : (r : ℕ) → kept g r ≡ true
  once : distinct names ≡ true

retry_at-IsRetrying :
    (m : String) (names : List String) (g : Runtime)
    → IsRetrying (m ∷ names) g
    → elem m g.config_faults ≡ false
    → IsRetrying names (retry_at (lookup m g.table) (lookup m g.registry) g)
unfolding start_retry
retry_at-IsRetrying m names g h e = elim (Option-cases (lookup m g.table)) [
  | inl lost ↦ rw lost (record {
    placed = h.placed;
    known = h.known;
    all_tended = λ n. ground (arith, h.all_tended n, eq_iff m n);
    unretried = λ n i. ground (arith, h.unretried n);
    owned_all = h.owned_all;
    kept_all = h.kept_all;
    once = ground (arith, h.once);
  })
  | inr (k, at) ↦ elim (Option-cases (lookup m g.registry)) [
    | inl lost ↦ absurd (ground (arith, h.known m))
    | inr (entry, known) ↦
        rw (at, known)
          (record {
            placed = λ n. ground (arith, h.placed n);
            known = h.known;
            all_tended = λ n. ground (
              arith,
              h.all_tended n,
              h.placed n,
              h.placed m,
              eq_iff m n,
              eq_iff (g.slots k).name m,
              eq_refl m,
              elem-keys n g.failed,
              h.owned_all k,
            );
            unretried = λ n i. ground (
              arith,
              h.unretried n,
              h.placed n,
              h.placed m,
              h.once,
              eq_iff m n,
              eq_iff (g.slots k).name m,
              eq_iff (g.slots k).name n,
            );
            owned_all = λ j. ground (arith, h.owned_all j);
            kept_all = λ r. ground (
              arith,
              h.kept_all r,
              h.placed m,
              h.unretried m,
              eq_refl m,
              eq_iff (g.slots k).name m,
            );
            once = ground (arith, h.once);
          })
  ]
]

skipped-IsRetrying :
    (m : String) (names : List String) (g : Runtime)
    → IsRetrying (m ∷ names) g
    → elem m g.config_faults ≡ true
    → IsRetrying names g
skipped-IsRetrying m names g h e = record {
  placed = h.placed;
  known = h.known;
  all_tended = λ n. ground (arith, h.all_tended n, eq_iff m n);
  unretried = λ n i. ground (arith, h.unretried n);
  owned_all = h.owned_all;
  kept_all = h.kept_all;
  once = ground (arith, h.once);
}

retry_all-IsTended :
    (names : List String) (g : Runtime) → IsRetrying names g → IsTended (retry_all names g)
unfolding retry_all
retry_all-IsTended [] g h = record {
  placed = h.placed;
  tended_all = λ n. ground (arith, h.all_tended n);
  owned_all = h.owned_all;
  kept_all = h.kept_all;
}
retry_all-IsTended (m ∷ names) g h = elim (Bool-cases (elem m g.config_faults)) [
  | inl e ↦ rw (e, retry_all) (retry_all-IsTended names g (skipped-IsRetrying m names g h e))
  | inr e ↦ rw (e, retry_all) (retry_all-IsTended names _ (retry_at-IsRetrying m names g h e))
]

waiting-IsRetrying :
    (g : Runtime)
    → ((n : String) → has n g.table ≡ has n g.registry)
    → IsWaiting [] g
    → IsRetrying (keys g.failed) g
waiting-IsRetrying g f h = record {
  placed = h.placed;
  known = f;
  all_tended = λ n. ground (arith, h.all_expected n, elem-keys n g.failed);
  unretried = λ n i. ground (arith, h.no_retry (slot_at g n));
  owned_all = λ k. ground (arith, h.no_retry k);
  kept_all = λ r. ground (arith, h.none_retried r);
  once = h.once;
}

pub Booted-IsTended : (b : Booted) → IsTended b.runtime
unfolding start
Booted-IsTended b =
    let (g, names) = boot b.registry b.print b.initial b.maximum b.attach in
    let (m, e₁, e₂) =
      >>=-eq-ok (install_all names b.starts g) (λ m. ok (retry_all (keys m.failed) m))
        b.is_started in
    let waiting =
      install_all-IsWaiting names b.starts g m e₁
        (boot-IsWaiting b.registry b.print b.initial b.maximum b.attach) in
    let frame = install_all-frame names b.starts g m e₁ in
    let known = boot-AreInForce b.registry b.print b.initial b.maximum b.attach in
    subst IsTended (ground arith) (
      retry_all-IsTended (keys m.failed) m
        (waiting-IsRetrying m (λ n. ground (arith, known.served n)) waiting))
