-- ===== src/KillSwitch/Cache/Tracking.antt =====
-- The cached state follows the file: every answer is the state that the file holds, or the last good
-- one while the file is malformed. A stamp stands for a content, as the cache takes it to.
use beherouter.Prelude.{
  ap, ap₂, subst, sym, ◌∙◌, Option-cases, false≢true, ◌≢◌, Dict, lookup, is_empty, ◌≡◌, refl, Bool,
  true, false, Option, none, some, List, [], ◌∷◌, arith, Bool-cases, inl, inr, if◌then◌else◌,
}
use beherouter.Data.{Value, Fields, null, obj, end, field, to_dict}
use beherouter.Errors.{Exc, Result, ok, raise, ◌>>=◌, fail, usage_error, check}
use beherouter.KillSwitch.{
  KillState, no_stops, parse_state, parse_dict, known_kinds, stop_all, table_value, table_entries,
}
use beherouter.KillSwitch.Cache.{
  Stamp, File, KillSwitch, Read, fresh, is_caught, same, same_option, was_bad, state, reread,
  settle, keep_good,
}

-- The specification keeps nothing but the last good state.
after_read : Option KillState → Result KillState → Option KillState
after_read good (ok st) = some st
after_read good (raise e) = good

expected : (Stamp → Result Value) → Option KillState → Result (Option Stamp) → Option KillState
unfolding after_read
expected content good (raise e) = good
expected content good (ok none) = some no_stops
expected content good (ok (some s)) = after_read good (content s >>= parse_state)

answer_of : Option KillState → Result KillState
answer_of none = fail usage_error
answer_of (some st) = ok st

abbrev pub Caught : {A : Type 0} → Result A → Type 0
Caught (ok a) = Unit {0}
Caught (raise e) = is_caught e ≡ true

file_at : (Stamp → Result Value) → Result (Option Stamp) → File
file_at content (ok (some s)) = record { stat = ok (some s); content = content s }
file_at content stat = record { stat = stat; content = raise Exc.os_error }

module _ {A B : Type 0} where
  Caught-bind :
      (m : Result A) (f : A → Result B) → Caught m → ((a : A) → Caught (f a)) → Caught (m >>= f)
  Caught-bind (ok a) f h k = k a
  Caught-bind (raise e) f h k = h

table_entries-Caught : (fs : Fields) → Caught (table_entries fs)
unfolding table_entries
table_entries-Caught end = tt
table_entries-Caught (field k (obj f) more) =
    Caught-bind (table_entries more) _ (table_entries-Caught more)
      (λ rest. by_name rest (is_empty k))
  where
    by_name :
        (rest : Dict Fields) (b : Bool)
        → Caught (if b then raise Exc.value_error else ok ((k, f) ∷ rest))
    by_name rest true = refl
    by_name rest false = tt
table_entries-Caught (field k _ more) = refl

table_value-Caught : (v : Option Value) → Caught (table_value v)
table_value-Caught none = tt
table_value-Caught (some (obj fs)) = table_entries-Caught fs
table_value-Caught (some _) = refl

stop_all-Caught : (v : Option Value) → Caught (stop_all v)
stop_all-Caught none = tt
stop_all-Caught (some null) = tt
stop_all-Caught (some (obj fs)) = tt
stop_all-Caught (some _) = refl

check-Caught : (b : Bool) → Caught (check b Exc.value_error)
check-Caught true = tt
check-Caught false = refl

parse_dict-Caught : (d : Dict Value) → Caught (parse_dict d)
unfolding parse_dict
parse_dict-Caught d =
    Caught-bind (check (known_kinds d) Exc.value_error) _ (check-Caught (known_kinds d)) λ _.
      Caught-bind (stop_all (lookup "all" d)) _ (stop_all-Caught (lookup "all" d)) λ a.
        Caught-bind (table_value (lookup "surfaces" d)) _ (table_value-Caught (lookup "surfaces" d))
          λ s.
            Caught-bind (table_value (lookup "subjects" d)) _
              (table_value-Caught (lookup "subjects" d)) λ t. tt

-- `parse_state` raises nothing that `state` does not catch.
parse_state-Caught : (v : Value) → Caught (parse_state v)
unfolding parse_state
parse_state-Caught (obj fs) = parse_dict-Caught (to_dict fs)
parse_state-Caught _ = refl

same-eq : (a b : Stamp) → same a b ≡ true → a ≡ b
same-eq a b h = ground arith

same_option-eq : (s : Stamp) (o : Option Stamp) → same_option (some s) o ≡ true → o ≡ some s
same_option-eq s none h = cc
same_option-eq s (some t) h = ap some (sym (same-eq s t h))

was_bad-eq :
    (ks : KillSwitch) (s : Stamp) → was_bad ks (some s) ≡ true → ks.bad_stamp ≡ some (some s)
was_bad-eq ks s h = elim (Option-cases ks.bad_stamp) [
  | inl e ↦ absurd (false≢true (rw e at h))
  | inr (o, e) ↦ e ∙ ap some (same_option-eq s o (rw e at h))
]

module _ (content : Stamp → Result Value) (readable : (s : Stamp) → Caught (content s)) where
  record IsCoherent (ks : KillSwitch) : Type 0 where
    good_read :
        (s : Stamp) (st : KillState)
        → ks.stamp ≡ some s
        → ks.good ≡ some st
        → (content s >>= parse_state) ≡ ok st
    bad_read :
        (s : Stamp) (st : KillState)
        → ks.bad_stamp ≡ some (some s)
        → (content s >>= parse_state) ≢ ok st

  parsed-Caught : (s : Stamp) → Caught (content s >>= parse_state)
  parsed-Caught s = Caught-bind (content s) parse_state (readable s) parse_state-Caught

  -- One call of `state`, from a coherent switch.
  abbrev Follows : KillSwitch → Result (Option Stamp) → Type 0
  Follows ks stat =
      ((state ks (file_at content stat)).answer ≡ answer_of (expected content ks.good stat))
      × ((state ks (file_at content stat)).switch.good ≡ expected content ks.good stat)
      × IsCoherent (state ks (file_at content stat)).switch

  read-IsCoherent :
      (s : Stamp) (st : KillState)
      → (content s >>= parse_state) ≡ ok st
      → IsCoherent (record { stamp = some s; good = some st; bad_stamp = none; stale = false })
  read-IsCoherent s st p = record { good_read = λ s' st' q q'. cc; bad_read = λ s' st' q. cc }

  broken-IsCoherent :
      (ks : KillSwitch) (s : Stamp) (x : Exc)
      → (content s >>= parse_state) ≡ raise x
      → IsCoherent ks
      → IsCoherent (record ks { bad_stamp = some (some s); stale = true })
  broken-IsCoherent ks s x p h = record { good_read = h.good_read; bad_read = λ s' st' q z. cc }

  stale-IsCoherent : (ks : KillSwitch) → IsCoherent ks → IsCoherent (record ks { stale = true })
  stale-IsCoherent ks h = record { good_read = h.good_read; bad_read = h.bad_read }

  abbrev Agrees : Read → Option KillState → Type 0
  Agrees r g = (r.answer ≡ answer_of g) × (r.switch.good ≡ g) × IsCoherent r.switch

  keep-Agrees :
      (ks : KillSwitch) (s : Stamp) (x : Exc) (g : Option KillState)
      → ks.good ≡ g
      → (content s >>= parse_state) ≡ raise x
      → IsCoherent ks
      → Agrees (keep_good ks (some s) g) g
  unfolding keep_good answer_of
  keep-Agrees ks s x none e p h = (refl, e, h)
  keep-Agrees ks s x (some g) e p h = (refl, e, broken-IsCoherent ks s x p h)

  settle-Agrees :
      (ks : KillSwitch) (s : Stamp) (r : Result KillState) (g : Option KillState)
      → ks.good ≡ g
      → (content s >>= parse_state) ≡ r
      → Caught r
      → IsCoherent ks
      → Agrees (settle ks (some s) r) (after_read g r)
  unfolding settle answer_of after_read
  settle-Agrees ks s (ok st) g e p c h = (refl, refl, read-IsCoherent s st p)
  settle-Agrees ks s (raise x) g e p c h =
      rw c (subst (Agrees (keep_good ks (some s) ks.good)) e (keep-Agrees ks s x ks.good refl p h))

  same-after_read :
      (g : KillState) (r : Result KillState) → r ≡ ok g → after_read (some g) r ≡ some g
  unfolding after_read
  same-after_read g (ok st) h = cc
  same-after_read g (raise x) h = refl

  bad-after_read :
      (g : KillState) (r : Result KillState)
      → ((st : KillState) → r ≢ ok st)
      → after_read (some g) r ≡ some g
  unfolding after_read
  bad-after_read g (ok st) h = absurd (h st refl)
  bad-after_read g (raise x) h = refl

  -- A read at a stamp, by what the file holds and by what was kept.
  reread-Agrees :
      (ks : KillSwitch) (s : Stamp) (r : Result KillState) (g : Option KillState)
      → ks.good ≡ g
      → (content s >>= parse_state) ≡ r
      → Caught r
      → IsCoherent ks
      → Agrees (reread ks s r g) (after_read g r)
  unfolding reread answer_of
  reread-Agrees ks s r none e p c h = settle-Agrees ks s r none e p c h
  reread-Agrees ks s r (some g) e p c h = elim (Bool-cases (same_option (some s) ks.stamp)) [
    | inl hit ↦
        let held : (content s >>= parse_state) ≡ ok g =
          h.good_read s g (same_option-eq s ks.stamp hit) e in
        let kept : after_read (some g) r ≡ some g = same-after_read g r (sym p ∙ held) in
        rw (hit, kept) (refl, refl, read-IsCoherent s g held)
    | inr miss ↦ elim (Bool-cases (was_bad ks (some s))) [
      | inl bad ↦
          let kept : after_read (some g) r ≡ some g =
            bad-after_read g r (λ st q. h.bad_read s st (was_bad-eq ks s bad) (p ∙ q)) in
          rw (miss, bad, kept) (refl, e, stale-IsCoherent ks h)
      | inr other ↦ rw (miss, other) (settle-Agrees ks s r (some g) e p c h)
    ]
  ]

  fresh_read :
      (ks : KillSwitch) (stat : Result (Option Stamp))
      → Caught stat
      → IsCoherent ks
      → Follows ks stat
  unfolding state expected answer_of file_at after_read
  fresh_read ks (raise e) c h = (
    ground arith,
    ground arith,
    record {
      good_read = λ s st p q. ground (arith, h.good_read s st);
      bad_read = λ s st p. ground (arith, h.bad_read s st);
    },
  )
  fresh_read ks (ok none) c h =
      (refl, refl, record { good_read = λ s st p q. cc; bad_read = λ s st p. cc })
  fresh_read ks (ok (some s)) c h = reread-Agrees ks s _ ks.good refl refl (parsed-Caught s) h

  pub run : KillSwitch → List (Result (Option Stamp)) → List (Result KillState)
  run ks [] = []
  run ks (stat ∷ stats) = let r = state ks (file_at content stat) in r.answer ∷ run r.switch stats

  pub specified : Option KillState → List (Result (Option Stamp)) → List (Result KillState)
  specified good [] = []
  specified good (stat ∷ stats) =
      let good' = expected content good stat in answer_of good' ∷ specified good' stats

  abbrev pub AllCaught : List (Result (Option Stamp)) → Type 0
  AllCaught [] = Unit {0}
  AllCaught (stat ∷ stats) = Caught stat × AllCaught stats

  run-specified :
      (ks : KillSwitch) (stats : List (Result (Option Stamp)))
      → AllCaught stats
      → IsCoherent ks
      → run ks stats ≡ specified ks.good stats
  unfolding run specified
  run-specified ks [] c h = refl
  run-specified ks (stat ∷ stats) (c, cs) h =
      let (answer, good, coherent) = fresh_read ks stat c h in
      ap₂ ◌∷◌ answer (
        run-specified (state ks (file_at content stat)).switch stats cs coherent
        ∙ ap (λ g. specified g stats) good)

  fresh-IsCoherent : IsCoherent fresh
  fresh-IsCoherent = record { good_read = λ s st p. cc; bad_read = λ s st p. cc }

  -- Over any sequence of calls from a new switch, whatever the file becomes between them: each call
  -- answers with the state that the file then holds; while the file is malformed or cannot be read,
  -- with the last good one, and with a `UsageError` if there is none yet. A missing file holds the
  -- empty state. Stamps stand for contents (`content`), and a read or a stat raises an `OSError` or
  -- a `ValueError` or nothing.
  pub state_tracks_file :
      (stats : List (Result (Option Stamp)))
      → AllCaught stats
      → run fresh stats ≡ specified none stats
  state_tracks_file stats c = run-specified fresh stats c fresh-IsCoherent
