-- ===== src/Consent/Removed.antt =====
-- Consent/Writer.antt: a name taken out of a subject's entry by `remove_names`.
use beherouter.Prelude.{
  String, ◌≡◌, refl, ap, sym, ◌∙◌, Bool, true, false, not, Option, none, some, List, [], ◌∷◌, Dict,
  lookup, has, put, is_nil, is_some, ◌===◌, eq_iff, eq_refl, arith, if◌then◌else◌, lookup-put,
  lookup-select_keys, Bool-cases, inl, inr, ◌⊎◌,
}
use beherouter.Data.{Value, Fields, obj, to_dict, of_dict}
use beherouter.Errors.{ok, fail, not_found}
use beherouter.Consent.Disk.{
  Toml, World, Action, done, Op, called, and_then, and_then-eq-done, quiet-eq-done, lift, return,
}
use beherouter.Consent.Writer.{
  Process, remove, table_at, entry_without, atomic_write, check_writable, read_doc, remove_from,
  remove_names,
}
use beherouter.Consent.Atomic.{atomic_write-IsAtomic}
use beherouter.Consent.Format.{
  Holds, holds, to_dict-of_dict, of_dict-Holds, Holds-put, Holds-remove, Holds-table_at,
}
use beherouter.Consent.Kept.{
  doc_of, rewritten, check_writable-quiet, read_doc-quiet, called-quiet, read_doc-doc_of,
}

-- A name in a subject's entry.
abbrev pub name_in : Option (Dict Value) → String → Option Value
name_in none n = none
name_in (some table) n = lookup n table

abbrev pub entry_name : String → String → Dict Value → Option Value
entry_name subject n doc = name_in (table_at (lookup subject doc)) n

-- A document that lacks one name of a subject's entry, and is another one otherwise, but for an entry
-- that lost its last name: that is gone.
pub record IsWithout (subject name : String) (doc d : Dict Value) : Type 0 where
  pub gone : entry_name subject name d ≡ none
  pub kept : (n : String) → (name === n) ≡ false → entry_name subject n d ≡ entry_name subject n doc
  pub others : (k : String) → (subject === k) ≡ false → lookup k d ≡ lookup k doc
  pub tidied :
      is_some (entry_name subject name doc) ≡ true
      → (lookup subject d ≡ none)
        ⊎ ((table : Dict Value) × (lookup subject d ≡ some (obj (of_dict table)))
            × (is_nil table ≡ false))

lookup-remove :
    (k j : String) (d : Dict Value) → lookup j (remove k d) ≡ (if k === j then none else lookup j d)
lookup-remove k j d =
    lookup-select_keys (λ i. not (i === k)) j d ∙ ground (arith, eq_iff k j, eq_iff j k)

none_left : (n : String) (d : Dict Value) → is_nil d ≡ true → lookup n d ≡ none
none_left n [] h = refl
none_left n (_ ∷ d) h = cc

entry_name-put :
    (subject n : String) (table doc : Dict Value)
    → entry_name subject n (put subject (obj (of_dict table)) doc) ≡ lookup n table
entry_name-put subject n table doc =
    rw
      (lookup-put subject subject (obj (of_dict table)) doc, eq_refl subject, to_dict-of_dict table)
      refl

pub entry_without-IsWithout :
    (subject name : String) (doc : Dict Value) (fs : Fields)
    → lookup subject doc ≡ some (obj fs)
    → IsWithout subject name doc (entry_without (name ∷ []) subject (to_dict fs) doc)
entry_without-IsWithout subject name doc fs e =
    elim (Bool-cases (is_nil (remove name (to_dict fs)))) [
      | inl empty ↦ rw empty (record {
        gone = rw (lookup-remove subject subject doc, eq_refl subject) refl;
        kept = λ n other.
            rw (lookup-remove subject subject doc, eq_refl subject, e)
              (sym (none_left n _ empty) ∙ lookup-remove name n (to_dict fs) ∙ rw other refl);
        others = λ k other. lookup-remove subject k doc ∙ rw other refl;
        tidied = λ _. inl (rw (lookup-remove subject subject doc, eq_refl subject) refl);
      })
      | inr full ↦ rw full (record {
        gone =
            entry_name-put subject name _ doc
            ∙ lookup-remove name name (to_dict fs)
            ∙ rw (eq_refl name) refl;
        kept = λ n other.
            entry_name-put subject n _ doc ∙ lookup-remove name n (to_dict fs) ∙ rw (other, e) refl;
        others = λ k other.
            lookup-put subject k (obj (of_dict (remove name (to_dict fs)))) doc ∙ rw other refl;
        tidied = λ _. inr (
          remove name (to_dict fs),
          rw
              (
                lookup-put subject subject (obj (of_dict (remove name (to_dict fs)))) doc,
                eq_refl subject,
              )
              refl,
          full,
        );
      })
    ]

is_without-lacking :
    (subject name : String) (doc : Dict Value) (fs : Fields)
    → lookup subject doc ≡ some (obj fs)
    → has name (to_dict fs) ≡ false
    → IsWithout subject name doc doc
is_without-lacking subject name doc fs e b = record {
  gone = rw e (ground (arith, b));
  kept = λ n other. refl;
  others = λ k other. refl;
  tidied = λ held. absurd (ground (arith, b, e, held));
}

pub entry_without-Holds :
    (subject name : String) (doc : Dict Value) (fs : Fields)
    → Holds doc
    → lookup subject doc ≡ some (obj fs)
    → Holds (entry_without (name ∷ []) subject (to_dict fs) doc)
entry_without-Holds subject name doc fs h e =
    elim (Bool-cases (is_nil (remove name (to_dict fs)))) [
      | inl empty ↦ rw empty (Holds-remove subject doc h)
      | inr full ↦ rw full (
          Holds-put subject (obj (of_dict (remove name (to_dict fs)))) doc h (
            unfold holds in
            of_dict-Holds (remove name (to_dict fs)) (
              Holds-remove name (to_dict fs)
                (Holds-table_at subject doc (to_dict fs) h (rw e refl)))))
    ]

module _ {T : Toml} (p : Process) (subject name : String) where
  -- What a removal that ends well leaves: the document without the name, or the map as it is where the
  -- entry does not have it.
  abbrev pub Removed : World T → World T → Type 0
  Removed w w' =
      (doc : Dict Value) × (d : Dict Value) × (doc_of w.map ≡ ok doc)
      × IsWithout subject name doc d
      × (Holds doc → Holds d)
      × (((w' ≡ w) × (d ≡ doc)) ⊎ (w' ≡ rewritten p d w))

  remove_from-held :
      (doc table : Dict Value) (w : World T)
      → has name table ≡ true
      → remove_from p (name ∷ []) subject table doc w
        ≡ and_then
            (atomic_write p (T.dumps (entry_without (name ∷ []) subject table doc)) w)
            (λ _. return (name ∷ []))
  unfolding remove_from
  remove_from-held doc table w e = rw e refl

  remove_from-lacking :
      (doc table : Dict Value) (w : World T)
      → has name table ≡ false
      → remove_from p (name ∷ []) subject table doc w ≡ (done [], w)
  unfolding remove_from
  remove_from-lacking doc table w e = rw e refl

  pub remove_names-Removed :
      (w w' : World T) (l : List String)
      → remove_names p subject (name ∷ []) w ≡ (done l, w')
      → Removed w w'
  unfolding remove_names
  remove_names-Removed w w' l h =
      let (_, _, h1) = quiet-eq-done (check_writable w) _ w (check_writable-quiet w) h in
      let (_, _, h2) =
        quiet-eq-done (called (λ u. u) (p.faults Op.lock) w) _ w (called-quiet p w Op.lock) h1 in
      let (doc, c, h3) = quiet-eq-done (read_doc p w) _ w (read_doc-quiet p w) h2 in
      from_entry doc (lookup subject doc) refl (read_doc-doc_of p w doc c) h3
    where
      from_removed :
          (doc : Dict Value) (fs : Fields)
          → lookup subject doc ≡ some (obj fs)
          → doc_of w.map ≡ ok doc
          → (b : Bool) → has name (to_dict fs) ≡ b
          → remove_from p (name ∷ []) subject (to_dict fs) doc w ≡ (done l, w')
          → Removed w w'
      from_removed doc fs e d true b h =
          let new = entry_without (name ∷ []) subject (to_dict fs) doc in
          let (_, u, c, r) =
            and_then-eq-done (atomic_write p (T.dumps new) w) (λ _. return (name ∷ []))
              (sym (remove_from-held doc (to_dict fs) w b) ∙ h) in
          (
            doc,
            new,
            d,
            entry_without-IsWithout subject name doc fs e,
            λ k. entry_without-Holds subject name doc fs k e,
            inr (
                sym (ap (λ x. x.1) r)
                ∙ sym (ap (λ x. x.1) c)
                ∙ (atomic_write-IsAtomic p (T.dumps new) w).complete (ap (λ x. x.0) c)),
          )
      from_removed doc fs e d false b h = (
        doc,
        doc,
        d,
        is_without-lacking subject name doc fs e b,
        λ k. k,
        inl (
          sym (ap (λ x. x.1) h) ∙ ap (λ x. x.1) (remove_from-lacking doc (to_dict fs) w b),
          refl,
        ),
      )

      from_entry :
          (doc : Dict Value) (o : Option Value)
          → lookup subject doc ≡ o
          → doc_of w.map ≡ ok doc
          → (elim o as (λ _. Action T (List String)) [
            | some (obj fs) ↦ remove_from p (name ∷ []) subject (to_dict fs) doc
            | _ ↦ lift (fail not_found)
          ])
              w
            ≡ (done l, w')
          → Removed w w'
      from_entry doc none e d h = cc
      from_entry doc (some (obj fs)) e d h = from_removed doc fs e d (has name (to_dict fs)) refl h
      from_entry doc (some Value.null) e d h = cc
      from_entry doc (some (Value.bool _)) e d h = cc
      from_entry doc (some (Value.int _)) e d h = cc
      from_entry doc (some (Value.float _)) e d h = cc
      from_entry doc (some (Value.str _)) e d h = cc
      from_entry doc (some (Value.arr _)) e d h = cc
