-- ===== src/Consent/Format.antt =====
-- What a TOML document can hold, and what the writer of the map relies on of tomlkit and of tomllib.
use beherouter.Prelude.{
  String, ◌≡◌, refl, ap, subst, Bool, true, false, not, ◌&&◌, Option, none, some, List, [], ◌∷◌,
  Dict, lookup, put, has, lookup-put, lookup-select_keys, arith, eq_iff, ◌===◌, Bool-cases, inl,
  inr,
}
use beherouter.Data.{
  Value, Items, Fields, null, arr, obj, str, nil, cons, end, field, to_dict, of_dict,
}
use beherouter.Errors.{ok}
use beherouter.Consent.Disk.{Toml}
use beherouter.Consent.Writer.{remove, put_all, remove_all, table_at}

-- There is no null, and no table has a key twice.
unfoldable mutual
  pub holds : Value → Bool
  holds null = false
  holds (arr vs) = holds_items vs
  holds (obj fs) = holds_fields fs
  holds _ = true

  pub holds_items : Items → Bool
  holds_items nil = true
  holds_items (cons v vs) = holds v && holds_items vs

  pub holds_fields : Fields → Bool
  holds_fields end = true
  holds_fields (field k v fs) = holds v && not (has k (to_dict fs)) && holds_fields fs

abbrev pub Holds : Dict Value → Type 0
Holds [] = Unit
Holds ((k, v) ∷ d) = (holds v ≡ true) × (has k d ≡ false) × Holds d

-- A text that parses is a document, and a document that is printed reads as itself, by either library.
pub record IsToml (T : Toml) : Type 0 where
  pub parse-Holds : (t : T.Text) (d : Dict Value) → T.parse t ≡ ok d → Holds d
  pub parse-dumps : (d : Dict Value) → Holds d → T.parse (T.dumps d) ≡ ok d
  pub loads-dumps : (d : Dict Value) → Holds d → T.loads (T.dumps d) ≡ ok d

pub to_dict-of_dict : (d : Dict Value) → to_dict (of_dict d) ≡ d
to_dict-of_dict [] = refl
to_dict-of_dict ((k, v) ∷ d) = ap (λ r. (k, v) ∷ r) (to_dict-of_dict d)

parts : (a b c : Bool) → (a && not b && c) ≡ true → (a ≡ true) × (b ≡ false) × (c ≡ true)
parts a b c h = ground arith

-- The fields of a table that is held.
pub Holds-to_dict : (fs : Fields) → holds_fields fs ≡ true → Holds (to_dict fs)
unfolding holds_fields
Holds-to_dict end h = tt
Holds-to_dict (field k v fs) h =
    let (held, fresh, rest) = parts (holds v) (has k (to_dict fs)) (holds_fields fs) h in
    (held, fresh, Holds-to_dict fs rest)

pub of_dict-Holds : (d : Dict Value) → Holds d → holds_fields (of_dict d) ≡ true
unfolding holds_fields
of_dict-Holds [] h = refl
of_dict-Holds ((k, v) ∷ d) (e, n, h) = ground (arith, e, n, of_dict-Holds d h, to_dict-of_dict d)

pub Holds-lookup :
    (k : String) (d : Dict Value) (v : Value) → Holds d → lookup k d ≡ some v → holds v ≡ true
Holds-lookup k [] v h e = cc
Holds-lookup k ((j, w) ∷ d) v (t, n, h) e = elim (Bool-cases (j === k)) [
  | inl y ↦ ground (arith, t, e, y)
  | inr y ↦ Holds-lookup k d v h (ground (arith, e, y))
]

pub Holds-put :
    (k : String) (v : Value) (d : Dict Value) → Holds d → holds v ≡ true → Holds (put k v d)
Holds-put k v [] h t = (t, refl, tt)
Holds-put k v ((j, w) ∷ d) (u, n, h) t = elim (Bool-cases (j === k)) [
  | inl y ↦ rw y (t, ground (arith, eq_iff j k, y, n), h)
  | inr y ↦
      rw y
        (u, ground (arith, lookup-put k j v d, eq_iff k j, eq_iff j k, n, y), Holds-put k v d h t)
]

pub Holds-remove : (k : String) (d : Dict Value) → Holds d → Holds (remove k d)
Holds-remove k [] h = tt
Holds-remove k ((j, w) ∷ d) (u, n, h) = elim (Bool-cases (j === k)) [
  | inl y ↦ rw y (Holds-remove k d h)
  | inr y ↦
      rw y (u, ground (arith, n, lookup-select_keys (λ i. not (i === k)) j d), Holds-remove k d h)
]

pub Holds-put_all : (vs : Dict String) (d : Dict Value) → Holds d → Holds (put_all vs d)
Holds-put_all [] d h = h
Holds-put_all ((k, v) ∷ vs) d h =
    Holds-put_all vs _ (Holds-put k (str v) d h (unfold holds in refl))

pub Holds-remove_all : (ks : List String) (d : Dict Value) → Holds d → Holds (remove_all ks d)
Holds-remove_all [] d h = h
Holds-remove_all (k ∷ ks) d h = Holds-remove_all ks _ (Holds-remove k d h)

-- A subject's entry, in a document that is held.
pub Holds-table_at :
    (subject : String) (doc table : Dict Value)
    → Holds doc
    → table_at (lookup subject doc) ≡ some table
    → Holds table
Holds-table_at subject doc table h e = of_entry (lookup subject doc) refl e
  where
    some_eq : (a b : Dict Value) → ◌≡◌ {A = Option (Dict Value)} (some a) (some b) → a ≡ b
    some_eq a b h = ground (arith, h)

    of_entry : (o : Option Value) → lookup subject doc ≡ o → table_at o ≡ some table → Holds table
    of_entry none l e = subst (λ t. Holds t) (some_eq [] table e) tt
    of_entry (some (obj fs)) l e =
        subst (λ t. Holds t) (some_eq (to_dict fs) table e)
          (Holds-to_dict fs (unfold holds in Holds-lookup subject doc (obj fs) h l))
    of_entry (some Value.null) l e = cc
    of_entry (some (Value.bool _)) l e = cc
    of_entry (some (Value.int _)) l e = cc
    of_entry (some (Value.float _)) l e = cc
    of_entry (some (Value.str _)) l e = cc
    of_entry (some (Value.arr _)) l e = cc
