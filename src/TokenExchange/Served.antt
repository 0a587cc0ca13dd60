-- ===== src/TokenExchange/Served.antt =====
-- What the cache serves, and that an exchange is shared.
use beherouter.Prelude.{
  ℕ, ◌+◌, ◌≤◌, String, ◌≡◌, refl, Bool, true, false, not, ◌&&◌, ◌||◌, Option, none, some, List, [],
  ◌∷◌, ◌++◌, Dict, lookup, length, ltb, lookup-put, lookup-select_keys, arith, eq_iff, eq_refl,
  ◌===◌, Bool-cases, Option-cases, inl, inr,
}
use beherouter.Errors.{Result, ok, raise}
use beherouter.TokenExchange.{
  Until, Exchanger, new_exchanger, live_at, without, last, cached, waiting, token, max_entries,
  evict, since, is_task, settled,
}

-- What happens to an exchanger: a call asks at a time, or a task ends at a time.
pub data Event : Type 0 where
  asked : String → ℕ → Event
  ended : ℕ → ℕ → Result (String × Option Until) → Event

-- The tokens that were issued, each with the key of its exchange.
abbrev Log : Type 0
Log = List (String × String)

abbrev issue : Option String → Result (String × Option Until) → Log → Log
issue (some key) (ok (t, _)) log = (key, t) ∷ log
issue _ _ log = log

unfoldable pub step : Event → Exchanger × Log → Exchanger × Log
unfolding token settled
step (asked key now) (e, log) = ((token key now e).1, log)
step (ended n now r) (e, log) = (settled n now r e, issue (e.tasks n) r log)

unfoldable pub steps : List Event → Exchanger × Log → Exchanger × Log
unfolding step
steps [] s = s
steps (v ∷ vs) s = steps vs (step v s)

-- `t` was issued by an exchange for `key`.
abbrev pub was_issued : String → String → List (String × String) → Bool
was_issued key t [] = false
was_issued key t ((k, s) ∷ log) = ((k === key) && (s === t)) || was_issued key t log

-- Every entry of a cache was issued for its key.
abbrev genuine : Log → Dict (String × Until) → Bool
genuine log [] = true
genuine log ((k, (t, u)) ∷ d) = was_issued k t log && genuine log d

genuine-without :
    (log : Log) (k : String) (d : Dict (String × Until))
    → genuine log d ≡ true
    → genuine log (without k d) ≡ true
genuine-without log k [] h = refl
genuine-without log k ((j, (t, u)) ∷ d) h = ground (arith, genuine-without log k d)

genuine-append :
    (log : Log) (d d' : Dict (String × Until))
    → genuine log d ≡ true
    → genuine log d' ≡ true
    → genuine log (d ++ d') ≡ true
genuine-append log [] d' h h' = h'
genuine-append log ((j, (t, u)) ∷ d) d' h h' = ground (arith, genuine-append log d d')

genuine-evict :
    (log : Log) (d : Dict (String × Until)) → genuine log d ≡ true → genuine log (evict d) ≡ true
unfolding evict
genuine-evict log [] h = refl
genuine-evict log ((j, (t, u)) ∷ d) h = ground (arith, genuine-evict log d)

genuine-issued :
    (log : Log) (key t : String) (d : Dict (String × Until))
    → genuine log d ≡ true
    → genuine ((key, t) ∷ log) d ≡ true
genuine-issued log key t [] h = refl
genuine-issued log key t ((j, (s, u)) ∷ d) h = ground (arith, genuine-issued log key t d)

genuine-lookup :
    (log : Log) (key t : String) (u : Until) (d : Dict (String × Until))
    → genuine log d ≡ true
    → lookup key d ≡ some (t, u)
    → was_issued key t log ≡ true
genuine-lookup log key t u [] h e = cc
genuine-lookup log key t u ((j, (s, v)) ∷ d) h e =
    ground (arith, genuine-lookup log key t u d, eq_iff j key)

module _ {V : Type 0} where
  length-without : (k : String) (d : Dict V) → length (without k d) ≤ length d
  length-without k [] = omega arith
  length-without k ((j, v) ∷ d) = ground (arith, length-without k d)

  length-snoc : (d : Dict V) (k : String) (v : V) → length (d ++ (k, v) ∷ []) ≡ length d + 1
  length-snoc [] k v = omega arith
  length-snoc (_ ∷ d) k v = ground (arith, length-snoc d k v)

  length-evict : (d : Dict V) → length (evict d) ≤ max_entries
  unfolding evict
  length-evict [] = omega arith
  length-evict (e ∷ d) = ground (arith, length-evict d)

-- The entry that is used last makes the cache no longer if it was there.
length-last :
    {V : Type 0} (k : String) (v w : V) (d : Dict V)
    → lookup k d ≡ some w
    → length (last k v d) ≤ length d
length-last k v w [] e = cc
length-last k v w ((j, x) ∷ d) e = elim (Bool-cases (j === k)) [
  | inl here ↦ ground (arith, length-without k d, length-snoc (without k d) k v)
  | inr on ↦ ground (arith, length-last k v w d)
]

-- A running task is the one in flight for its key, and the cache is bounded and genuine.
pub record IsSound (e : Exchanger) (log : List (String × String)) : Type 0 where
  pub bounded : length e.cache ≤ max_entries
  pub issued : genuine log e.cache ≡ true
  pub shared :
      (n : ℕ)
      → elim (e.tasks n) [ none ↦ true | some k ↦ is_task (lookup k e.in_flight) n && ltb n e.made ]
        ≡ true

abbrev key_of : Exchanger → ℕ → String
key_of e n = elim (e.tasks n) [ none ↦ "" | some k ↦ k ]

waiting-IsSound :
    (key : String) (e : Exchanger) (log : Log)
    → IsSound e log
    → IsSound (waiting key (lookup key e.in_flight) e).1 log
waiting-IsSound key e log h = record {
  bounded = ground (arith, h.bounded);
  issued = ground (arith, h.issued);
  shared = λ n. ground (
    arith,
    h.shared n,
    lookup-put key (key_of e n) e.made e.in_flight,
    lookup-put key key e.made e.in_flight,
    eq_iff key (key_of e n),
    eq_refl key,
  );
}

token-IsSound :
    (key : String) (now : ℕ) (e : Exchanger) (log : Log)
    → IsSound e log
    → IsSound (token key now e).1 log
unfolding token
token-IsSound key now e log h = elim (Option-cases (lookup key e.cache)) [
  | inl c ↦ rw (c, token) (waiting-IsSound key e log h)
  | inr ((t, u), c) ↦ elim (Bool-cases (live_at now u)) [
    | inl l ↦
        rw (c, l, token)
          (record {
            bounded = ground (arith, h.bounded, length-last key (t, u) (t, u) e.cache);
            issued =
                genuine-append log (without key e.cache) _
                  (genuine-without log key e.cache h.issued)
                  (ground (arith, genuine-lookup log key t u e.cache));
            shared = h.shared;
          })
    | inr l ↦
        rw (c, l, token)
          (waiting-IsSound key (record e { cache = without key e.cache }) log
            (record {
              bounded = ground (arith, h.bounded, length-without key e.cache);
              issued = genuine-without log key e.cache h.issued;
              shared = h.shared;
            }))
  ]
]

module _ (n now : ℕ) (key : String) (e : Exchanger) (log : Log) (at : e.tasks n ≡ some key)
    (h : IsSound e log) where
  shared_after :
      (r : Result (String × Option Until)) (m : ℕ)
      → let e' = settled n now r e in
        elim (e'.tasks m) [
          | none ↦ true
          | some k ↦ is_task (lookup k e'.in_flight) m && ltb m e'.made
        ]
        ≡ true
  unfolding settled
  shared_after r m = ground (
    arith,
    at,
    h.shared n,
    h.shared m,
    lookup-select_keys (λ j. not (j === key)) (key_of e m) e.in_flight,
    eq_iff (key_of e m) key,
  )

  genuine-stored :
      (t : String) (u : Until)
      → genuine ((key, t) ∷ log) (evict (last key (t, since now u) e.cache)) ≡ true
  genuine-stored t u = genuine-evict ((key, t) ∷ log) (last key (t, since now u) e.cache) (
      genuine-append ((key, t) ∷ log) (without key e.cache) ((key, (t, since now u)) ∷ [])
        (genuine-without ((key, t) ∷ log) key e.cache (genuine-issued log key t e.cache h.issued))
        (ground (arith, eq_refl key, eq_refl t)))

  -- An exchange that ended, for the key `key`.
  ended-IsSound :
      (r : Result (String × Option Until)) → IsSound (settled n now r e) (issue (some key) r log)
  unfolding settled
  ended-IsSound (ok (t, some u)) = record {
    bounded = ground (arith, at, length-evict (last key (t, since now u) e.cache));
    issued = rw (at, settled) (genuine-stored t u);
    shared = shared_after (ok (t, some u));
  }
  ended-IsSound (ok (t, none)) = record {
    bounded = ground (arith, at, h.bounded);
    issued = ground (arith, at, h.issued, genuine-issued log key t e.cache);
    shared = shared_after (ok (t, none));
  }
  ended-IsSound (raise x) = record {
    bounded = ground (arith, at, h.bounded);
    issued = ground (arith, at, h.issued);
    shared = shared_after (raise x);
  }

step-IsSound :
    (v : Event) (e : Exchanger) (log : Log)
    → IsSound e log
    → IsSound (step v (e, log)).0 (step v (e, log)).1
unfolding step settled
step-IsSound (asked key now) e log h = token-IsSound key now e log h
step-IsSound (ended n now r) e log h = elim (Option-cases (e.tasks n)) [
  | inl at ↦ rw (at, settled) h
  | inr (key, at) ↦ rw (at, step) (ended-IsSound n now key e log at h r)
]

pub steps-IsSound :
    (vs : List Event) (e : Exchanger) (log : Log)
    → IsSound e log
    → IsSound (steps vs (e, log)).0 (steps vs (e, log)).1
unfolding steps
steps-IsSound [] e log h = h
steps-IsSound (v ∷ vs) e log h =
    steps-IsSound vs (step v (e, log)).0 (step v (e, log)).1 (step-IsSound v e log h)

abbrev pub run : List Event → Exchanger × List (String × String)
run vs = steps vs (new_exchanger, [])

new-IsSound : IsSound new_exchanger []
new-IsSound = record { bounded = omega arith; issued = refl; shared = λ n. refl }

-- After any calls and ends of exchanges, in any order: the cache holds at most 1024 tokens; no two
-- exchanges run for the same key; and a token that is then served from the cache was issued by an
-- exchange for that very key, and is cached for a time that has not passed.
pub steps-IsServed :
    (vs : List Event) (key t : String) (now m n : ℕ)
    → let (e, log) = run vs in
      (length e.cache ≤ max_entries)
      × ((k : String) → e.tasks m ≡ some k → e.tasks n ≡ some k → m ≡ n)
      × ((token key now e).0 ≡ cached t
          → (was_issued key t log ≡ true)
            × ((u : Until) × (lookup key e.cache ≡ some (t, u)) × (live_at now u ≡ true)))
unfolding token
steps-IsServed vs key t now m n =
    let (e, log) = run vs in
    let h = steps-IsSound vs new_exchanger [] new-IsSound in
    (h.bounded, λ k a b. ground (arith, h.shared m, h.shared n), λ c. hit e log h c)
  where
    hit :
        (e : Exchanger) (log : Log)
        → IsSound e log
        → (token key now e).0 ≡ cached t
        → (was_issued key t log ≡ true)
          × ((u : Until) × (lookup key e.cache ≡ some (t, u)) × (live_at now u ≡ true))
    hit e log h c = elim (Option-cases (lookup key e.cache)) [
      | inl miss ↦ absurd (ground (arith, miss, c))
      | inr ((s, u), at) ↦ elim (Bool-cases (live_at now u)) [
        | inl l ↦ (
          ground (arith, at, l, c, genuine-lookup log key s u e.cache h.issued),
          (u, ground (arith, at, l, c), l),
        )
        | inr l ↦ absurd (ground (arith, at, l, c))
      ]
    ]
