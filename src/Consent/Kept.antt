-- ===== src/Consent/Kept.antt =====
-- What a change of one subject's entry leaves of the identity map.
use beherouter.Prelude.{
  String, ◌≡◌, refl, ap, Bool, true, not, Option, none, some, List, [], ◌∷◌, Dict, lookup, put, has,
  select, is_nil, ◌⊎◌, inl, inr, arith,
}
use beherouter.Data.{Value, Fields, obj, to_dict, of_dict}
use beherouter.Errors.{Exc, Result, ok, fail, usage_error, not_found}
use beherouter.Consent.Disk.{
  Toml, File, World, Action, Ended, done, threw, cut, Op, called, and_then, and_then-quiet, lift,
  return,
}
use beherouter.Consent.Writer.{
  Process, atomic_write, check_writable, read_doc, upsert_subject, remove_names, remove_from,
  table_at, put_all, entry_without, when,
}
use beherouter.Consent.Format.{IsToml, Holds}
use beherouter.Consent.Atomic.{written, atomic_write-IsAtomic}

-- The document with a subject's values set; none if the subject's entry is no table.
abbrev pub with_values : String → Dict String → Dict Value → Option (Dict Value)
with_values subject values doc = elim (table_at (lookup subject doc)) [
  | none ↦ none
  | some table ↦ some (put subject (obj (of_dict (put_all values table))) doc)
]

-- The document without some of a subject's names, and without the subject's entry if it is left empty;
-- none if the subject's entry is no table.
abbrev pub without_names : String → List String → Dict Value → Option (Dict Value)
without_names subject names doc = elim (lookup subject doc) [
  | some (obj fs) ↦
      some (entry_without (select (λ n. has n (to_dict fs)) names) subject (to_dict fs) doc)
  | _ ↦ none
]

module _ {T : Toml} where
  -- The document that the map's file is.
  abbrev pub doc_of : Option (File T) → Result (Dict Value)
  doc_of none = ok []
  doc_of (some f) = T.parse f.text

  pub doc_of-Holds :
      IsToml T → (old : Option (File T)) (doc : Dict Value) → doc_of old ≡ ok doc → Holds doc
  doc_of-Holds L none [] e = tt
  doc_of-Holds L none (_ ∷ _) e = cc
  doc_of-Holds L (some f) doc e = L.parse-Holds f.text doc e

  pub check_writable-quiet : (w : World T) → (check_writable w).1 ≡ w
  unfolding check_writable
  check_writable-quiet w = ground arith

module _ {T : Toml} (p : Process) where
  pub read_doc-quiet : (w : World T) → (read_doc p w).1 ≡ w
  unfolding read_doc
  read_doc-quiet w = ground arith

  pub called-quiet : (w : World T) (op : Op) → (called (λ (u : World T). u) (p.faults op) w).1 ≡ w
  called-quiet w op = ground arith

  pub read_doc-doc_of :
      (w : World T) (d : Dict Value) → read_doc p w ≡ (done d, w) → doc_of w.map ≡ ok d
  unfolding read_doc
  read_doc-doc_of w d h = ground arith

  -- The map after a write of `d`.
  abbrev pub rewritten : Dict Value → World T → World T
  rewritten d w = record w { map = some (written p (T.dumps d) w.map); temp = none }

  abbrev pub Rewritten : (Dict Value → Option (Dict Value)) → World T → World T → Type 0
  Rewritten next w w' =
      (doc : Dict Value) × (d : Dict Value) × (doc_of w.map ≡ ok doc)
      × (next doc ≡ some d)
      × (w' ≡ rewritten d w)

  -- An operation that leaves the map, or writes `next doc` in place of its document `doc`; the latter
  -- wherever it ends with a result that says so.
  pub record IsRewrite {A : Type 0} (wrote : A → Bool) (next : Dict Value → Option (Dict Value))
      (w : World T) (r : Ended A × World T) : Type 0 where
    pub whole : (r.1 ≡ record w { temp = r.1.temp }) ⊎ Rewritten next w r.1
    pub complete : (a : A) → wrote a ≡ true → r.0 ≡ done a → Rewritten next w r.1

  write-IsRewrite :
      (next : Dict Value → Option (Dict Value)) (w : World T) (doc d : Dict Value)
      → doc_of w.map ≡ ok doc
      → next doc ≡ some d
      → IsRewrite (λ _. true) next w (atomic_write p (T.dumps d) w)
  write-IsRewrite next w doc d e n =
      let h = atomic_write-IsAtomic p (T.dumps d) w in
      record { whole = kept_or h.whole; complete = λ _ _ r. (doc, d, e, n, h.complete r) }
    where
      kept_or :
          {u : World T}
          → (u ≡ record w { temp = u.temp }) ⊎ (u ≡ rewritten d w)
          → (u ≡ record w { temp = u.temp }) ⊎ Rewritten next w u
      kept_or (inl k) = inl k
      kept_or (inr m) = inr (doc, d, e, n, m)

  module _ {A : Type 0} (wrote : A → Bool) (next : Dict Value → Option (Dict Value))
      (w : World T) where
    threw-IsRewrite : (e : Exc) → IsRewrite wrote next w (threw e, w)
    threw-IsRewrite e = record { whole = inl refl; complete = λ a t h. cc }

    cut-IsRewrite : IsRewrite wrote next w (cut, w)
    cut-IsRewrite = record { whole = inl refl; complete = λ a t h. cc }

    -- The steps before the change: none of them writes.
    quiet-IsRewrite :
        {B : Type 0} (x : Ended B × World T) (f : B → Action T A)
        → x.1 ≡ w
        → ((b : B) → x ≡ (done b, w) → IsRewrite wrote next w (f b w))
        → IsRewrite wrote next w (and_then x f)
    quiet-IsRewrite x f same go =
        and_then-quiet w x f (IsRewrite wrote next w) same go threw-IsRewrite cut-IsRewrite

    returned-IsRewrite :
        (a : A) (x : Ended (Unit {0}) × World T)
        → IsRewrite (λ _. true) next w x
        → IsRewrite wrote next w (and_then x (λ _. return a))
    returned-IsRewrite a (done _, u) h = record {
      whole = h.whole;
      complete = λ _ _ _. h.complete tt refl refl;
    }
    returned-IsRewrite a (threw x, u) h = record { whole = h.whole; complete = λ a t h. cc }
    returned-IsRewrite a (cut, u) h = record { whole = h.whole; complete = λ a t h. cc }

  -- Wherever it ends, `upsert_subject` leaves the map or sets the values in the subject's entry; where
  -- it ends well, it has set them.
  pub upsert_subject-IsRewrite :
      (subject : String) (values : Dict String) (w : World T)
      → IsRewrite (λ _. true) (with_values subject values) w (upsert_subject p subject values w)
  unfolding upsert_subject
  upsert_subject-IsRewrite subject values w =
      quiet-IsRewrite _ _ w (check_writable w) _ (check_writable-quiet w) (λ _ _.
        quiet-IsRewrite _ _ w (called (λ u. u) (p.faults Op.lock) w) _ (called-quiet w Op.lock)
          (λ _ _.
            quiet-IsRewrite _ _ w (read_doc p w) _ (read_doc-quiet w)
              (λ doc e. set_in doc (table_at (lookup subject doc)) refl (read_doc-doc_of w doc e))))
    where
      set_in :
          (doc : Dict Value) (table : Option (Dict Value))
          → table_at (lookup subject doc) ≡ table
          → doc_of w.map ≡ ok doc
          → IsRewrite
              (λ _. true)
              (with_values subject values)
              w
              ((elim table as (λ _. Action T (Unit {0})) [
                | none ↦ lift (fail usage_error)
                | some t ↦
                    atomic_write p (T.dumps (put subject (obj (of_dict (put_all values t))) doc))
              ])
                w)
      set_in doc none e d = threw-IsRewrite _ _ w _
      set_in doc (some t) e d = write-IsRewrite _ w doc _ d (rw (e, with_values) refl)

  -- Wherever it ends, `remove_names` leaves the map or takes the names out of the subject's entry; it
  -- has done so where it ends well and tells a name that it removed.
  pub remove_names-IsRewrite :
      (subject : String) (names : List String) (w : World T)
      → IsRewrite
          (λ l. not (is_nil l))
          (without_names subject names)
          w
          (remove_names p subject names w)
  unfolding remove_names
  remove_names-IsRewrite subject names w =
      quiet-IsRewrite _ _ w (check_writable w) _ (check_writable-quiet w) (λ _ _.
        quiet-IsRewrite _ _ w (called (λ u. u) (p.faults Op.lock) w) _ (called-quiet w Op.lock)
          (λ _ _.
            quiet-IsRewrite _ _ w (read_doc p w) _ (read_doc-quiet w)
              (λ doc e. taken_from doc (lookup subject doc) refl (read_doc-doc_of w doc e))))
    where
      from_removed :
          (doc : Dict Value) (fs : Fields)
          → lookup subject doc ≡ some (obj fs)
          → doc_of w.map ≡ ok doc
          → (removed : List String) → select (λ n. has n (to_dict fs)) names ≡ removed
          → IsRewrite
              (λ l. not (is_nil l))
              (without_names subject names)
              w
              (and_then
                (when
                  (not (is_nil removed))
                  (atomic_write p (T.dumps (entry_without removed subject (to_dict fs) doc)))
                  w)
                (λ _. return removed))
      from_removed doc fs e d [] r = record {
        whole = inl refl;
        complete = λ a t h. ground (arith, h);
      }
      from_removed doc fs e d (n ∷ ns) r = returned-IsRewrite _ _ w (n ∷ ns) _ (
          write-IsRewrite _ w doc _ d
            (rw (e, without_names) (ap (λ l. some (entry_without l subject (to_dict fs) doc)) r)))

      from_table :
          (doc : Dict Value) (fs : Fields)
          → lookup subject doc ≡ some (obj fs)
          → doc_of w.map ≡ ok doc
          → IsRewrite
              (λ l. not (is_nil l))
              (without_names subject names)
              w
              (remove_from p names subject (to_dict fs) doc w)
      from_table doc fs e d =
          unfold remove_from in
          from_removed doc fs e d (select (λ n. has n (to_dict fs)) names) refl

      taken_from :
          (doc : Dict Value) (o : Option Value)
          → lookup subject doc ≡ o
          → doc_of w.map ≡ ok doc
          → IsRewrite
              (λ l. not (is_nil l))
              (without_names subject names)
              w
              ((elim o as (λ _. Action T (List String)) [
                | some (obj fs) ↦ remove_from p names subject (to_dict fs) doc
                | _ ↦ lift (fail not_found)
              ])
                w)
      taken_from doc none e d = threw-IsRewrite _ _ w _
      taken_from doc (some (obj fs)) e d = from_table doc fs e d
      taken_from doc (some Value.null) e d = threw-IsRewrite _ _ w _
      taken_from doc (some (Value.bool _)) e d = threw-IsRewrite _ _ w _
      taken_from doc (some (Value.int _)) e d = threw-IsRewrite _ _ w _
      taken_from doc (some (Value.float _)) e d = threw-IsRewrite _ _ w _
      taken_from doc (some (Value.str _)) e d = threw-IsRewrite _ _ w _
      taken_from doc (some (Value.arr _)) e d = threw-IsRewrite _ _ w _
