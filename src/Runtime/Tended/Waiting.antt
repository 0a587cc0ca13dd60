-- ===== src/Runtime/Tended/Waiting.antt =====
-- Up to the install of its apps the gateway has every surface expected.
use beherouter.Prelude.{
  subst, ℕ, String, ◌≡◌, refl, ap, Bool, true, false, ◌&&◌, ◌||◌, not, none, some, List, [], ◌∷◌,
  Dict, lookup, has, keys, put, elem, elem-keys, lookup-put, elem-select, arith, eq_iff, eq_refl,
  is_some, select, Bool-cases, Option-cases, inl, inr,
}
use beherouter.Errors.{Exc, Result, ok, raise, >>=-eq-ok}
use beherouter.Identity.Tables.{Entry}
use beherouter.Runtime.{Slot, Runtime, Attach, attach_effects, install, retire}
use beherouter.Runtime.Turn.{add_slot, prints_of}
use beherouter.Runtime.Boot.{
  attaches, recorded, build_surfaces, boot_slots, boot, install_at, install_all, new_runtime,
}
use beherouter.Runtime.Tidy.{well_placed}

-- No text comes twice.
abbrev pub distinct : List String → Bool
distinct [] = true
distinct (x ∷ xs) = not (elem x xs) && distinct xs

distinct-put {ℓ} :
    {V : Type ℓ} (k : String) (v : V) (d : Dict V)
    → distinct (keys d) ≡ true
    → distinct (keys (put k v d)) ≡ true
distinct-put k v [] h = refl
distinct-put k v ((j, w) ∷ d) h = ground (
  arith,
  distinct-put k v d,
  elem-keys j d,
  elem-keys j (put k v d),
  lookup-put k j v d,
  eq_iff j k,
  eq_iff k j,
)

-- The surface `n` is attached and waits for its start, or is among the failed ones.
abbrev pub expected : Runtime → List String → String → Bool
expected g waiting n = elim (lookup n g.table) [
  | none ↦ true
  | some k ↦
      let s = g.slots k in
      is_some s.app
      || (not (is_some s.retry)
          && (has n g.failed || elem n waiting)
          && (s.config_fault || not (elem n g.config_faults)))
]

pub record IsWaiting (waiting : List String) (g : Runtime) : Type 0 where
  pub placed : (n : String) → well_placed g n ≡ true
  pub all_expected : (n : String) → expected g waiting n ≡ true
  pub no_retry : (k : ℕ) → is_some (g.slots k).retry ≡ false
  pub none_retried : (r : ℕ) → g.retries r ≡ none
  pub once : distinct (keys g.failed) ≡ true

abbrev pub slot_at : Runtime → String → ℕ
slot_at g name = elim (lookup name g.table) [ none ↦ 0 | some k ↦ k ]

abbrev exc_of : Result (Unit {0}) → Exc
exc_of (ok _) = Exc.runtime_error
exc_of (raise e) = e

build_surfaces-failed :
    (ns : List String) (attach : String → Attach) (g : Runtime) (n : String)
    → (has n g.failed || (elem n ns && not (attaches (attach n).result))) ≡ true
    → has n (build_surfaces ns attach g).failed ≡ true
unfolding build_surfaces
build_surfaces-failed [] attach g n h = ground arith
build_surfaces-failed (m ∷ ns) attach g n h =
    build_surfaces-failed ns attach _ n
      (ground (arith, lookup-put m n (exc_of (attach m).result) g.failed, eq_iff m n))

build_surfaces-rest :
    (ns : List String) (attach : String → Attach) (g : Runtime)
    → distinct (keys g.failed) ≡ true
    → ((build_surfaces ns attach g).table ≡ g.table)
      × ((build_surfaces ns attach g).slots ≡ g.slots)
      × ((build_surfaces ns attach g).retries ≡ g.retries)
      × (distinct (keys (build_surfaces ns attach g).failed) ≡ true)
unfolding build_surfaces
build_surfaces-rest [] attach g h = (refl, refl, refl, h)
build_surfaces-rest (m ∷ ns) attach g h =
    let g' = recorded m (attach m).result (attach_effects m (attach m) g) in
    let d : distinct (keys g'.failed) ≡ true =
      ground (arith, distinct-put m (exc_of (attach m).result) g.failed) in
    let (t, s, r, o) = build_surfaces-rest ns attach g' d in
    (ground (arith, t), ground (arith, s), ground (arith, r), o)

boot_slots-IsWaiting :
    (ns booted : List String) (g : Runtime)
    → ((n : String) → elem n ns ≡ true → (has n g.failed || elem n booted) ≡ true)
    → IsWaiting booted g
    → IsWaiting booted (boot_slots ns g)
unfolding boot_slots
boot_slots-IsWaiting [] booted g f h = h
boot_slots-IsWaiting (m ∷ ns) booted g f h =
    let at = λ (n : String). lookup-put m n g.made g.table in
    boot_slots-IsWaiting ns booted (add_slot m (elem m g.config_faults) g)
      (λ n e. f n (ground arith))
      (record {
        placed = λ n. ground (arith, h.placed n, at n, eq_iff m n, eq_refl n);
        all_expected = λ n. ground (
          arith,
          h.placed n,
          h.all_expected n,
          at n,
          eq_iff m n,
          f m (ground (arith, eq_refl m)),
          Bool-cases (elem m g.config_faults),
        );
        no_retry = λ k. ground (arith, h.no_retry k);
        none_retried = h.none_retried;
        once = h.once;
      })

pub boot-IsWaiting :
    (registry : Dict Entry) (print : Entry → String) (initial maximum : ℕ)
    (attach : String → Attach)
    → let (g, booted) = boot registry print initial maximum attach in IsWaiting booted g
unfolding boot
boot-IsWaiting registry print initial maximum attach =
    let names = keys registry in
    let fresh = new_runtime registry (prints_of print registry) initial maximum in
    let (t, s, r, o) = build_surfaces-rest names attach fresh refl in
    boot_slots-IsWaiting names (select (λ n. attaches (attach n).result) names)
      (build_surfaces names attach fresh)
      (λ n e. ground (
        arith,
        build_surfaces-failed names attach fresh n,
        elem-select (λ n. attaches (attach n).result) n names,
      ))
      (record {
        placed = λ n. ground (arith, t);
        all_expected = λ n. ground (arith, t);
        no_retry = λ k. ground (arith, ap (λ (f : ℕ → Slot). is_some (f k).retry) s);
        none_retried = λ k. ap (λ f. f k) r;
        once = o;
      })

install_at-IsWaiting :
    (m : String) (waiting : List String) (g : Runtime)
    → IsWaiting (m ∷ waiting) g
    → IsWaiting waiting (install_at (lookup m g.table) g)
unfolding install retire
install_at-IsWaiting m waiting g h = elim (Option-cases (lookup m g.table)) [
  | inl e ↦ rw e (record {
    placed = h.placed;
    all_expected = λ n. ground (arith, h.all_expected n, eq_iff m n);
    no_retry = h.no_retry;
    none_retried = h.none_retried;
    once = h.once;
  })
  | inr (k, e) ↦ rw e (record {
    placed = λ n. ground (arith, h.placed n);
    all_expected = λ n.
        ground
          (arith, h.all_expected n, h.placed n, h.placed m, eq_iff m n, eq_iff (g.slots k).name m);
    no_retry = λ j. ground (arith, h.no_retry j);
    none_retried = λ r. ground (arith, h.none_retried r);
    once = ground (arith, h.once);
  })
]

pub install_all-IsWaiting :
    (ns : List String) (starts : String → Result (Unit {0})) (g g' : Runtime)
    → install_all ns starts g ≡ ok g'
    → IsWaiting ns g
    → IsWaiting [] g'
unfolding install_all
install_all-IsWaiting [] starts g g' e h = subst (IsWaiting []) (ground arith) h
install_all-IsWaiting (n ∷ ns) starts g g' e h =
    let (_, _, e') =
      >>=-eq-ok (starts n) (λ _. install_all ns starts (install_at (lookup n g.table) g)) e in
    install_all-IsWaiting ns starts _ g' e' (install_at-IsWaiting n ns g h)
