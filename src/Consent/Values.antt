-- ===== src/Consent/Values.antt =====
-- consent.py: the values that a grant writes, and a subject's entry after them.
use beherouter.Prelude.{
  String, ◌≡◌, refl, Bool, false, not, ◌&&◌, ◌||◌, is_empty, Option, none, some, [], ◌∷◌, Dict,
  lookup, has, put, ◌===◌, eq_iff, eq_refl, arith, lookup-put, Bool-cases, Option-cases, inl, inr,
}
use beherouter.Data.{Value, str}
use beherouter.Consent.Writer.{put_all}
use beherouter.Consent.Grant.{granted_of, values_of}

abbrev pub AreUnique : Dict String → Type 0
AreUnique [] = Unit
AreUnique ((k, v) ∷ d) = (has k d ≡ false) × AreUnique d

AreUnique-put : (k v : String) (d : Dict String) → AreUnique d → AreUnique (put k v d)
AreUnique-put k v [] u = (refl, tt)
AreUnique-put k v ((j, x) ∷ d) (n, u) = elim (Bool-cases (j === k)) [
  | inl y ↦ rw y (ground (arith, eq_iff j k, y, n), u)
  | inr y ↦
      rw y (ground (arith, lookup-put k j v d, eq_iff k j, eq_iff j k, n, y), AreUnique-put k v d u)
]

pub AreUnique-values_of :
    (names granted values : Dict String)
    → AreUnique values
    → AreUnique (values_of names granted values)
AreUnique-values_of [] granted values u = u
AreUnique-values_of ((l, n) ∷ names) granted values u = elim (Option-cases (lookup l granted)) [
  | inl e ↦ rw e (AreUnique-values_of names granted values u)
  | inr (v, e) ↦
      rw e (AreUnique-values_of names granted (put n v values) (AreUnique-put n v values u))
]

-- A name in an entry after values are set there.
abbrev pub set_over : Option String → Option Value → Option Value
set_over none old = old
set_over (some v) old = some (str v)

pub lookup-put_all :
    (n : String) (vs : Dict String) (d : Dict Value)
    → AreUnique vs
    → lookup n (put_all vs d) ≡ set_over (lookup n vs) (lookup n d)
lookup-put_all n [] d u = refl
lookup-put_all n ((k, v) ∷ vs) d (f, u) = elim (Bool-cases (k === n)) [
  | inl y ↦
      rw (lookup-put_all n vs (put k (str v) d) u, lookup-put k n (str v) d, y)
        (ground (arith, f, y, eq_iff k n))
  | inr y ↦ rw (lookup-put_all n vs (put k (str v) d) u, lookup-put k n (str v) d, y) refl
]

-- Whether any credential but `l` has the name `r` in the map.
abbrev pub shared_name : String → String → Dict String → Bool
shared_name l r [] = false
shared_name l r ((j, n) ∷ names) = (not (j === l) && n === r) || shared_name l r names

-- The values hold the credential `l` as `v`, if the names cite it, and cite no other by its name.
abbrev pub Gives : Dict String → Dict String → String → String → Type 0
Gives names values l v =
    (r : String)
    → lookup l names ≡ some r
    → shared_name l r names ≡ false
    → lookup r values ≡ some v

module _ (l r v : String) (granted : Dict String) (has_it : lookup l granted ≡ some v) where
  values_of-keeps :
      (names values : Dict String)
      → shared_name l r names ≡ false
      → lookup r values ≡ some v
      → lookup r (values_of names granted values) ≡ some v
  values_of-keeps [] values h e = e
  values_of-keeps ((j, n) ∷ names) values h e = elim (Option-cases (lookup j granted)) [
    | inl x ↦ rw x (values_of-keeps names values (ground (arith, h)) e)
    | inr (u, x) ↦ rw x (
        values_of-keeps names (put n u values) (ground (arith, h))
          (ground (arith, h, e, x, has_it, lookup-put n r u values, eq_iff j l)))
  ]

  values_of-gives :
      (names values : Dict String)
      → lookup l names ≡ some r
      → shared_name l r names ≡ false
      → lookup r (values_of names granted values) ≡ some v
  values_of-gives [] values e h = cc
  values_of-gives ((j, n) ∷ names) values e h = elim (Bool-cases (j === l)) [
    | inl y ↦
        let same : lookup j granted ≡ some v = ground (arith, y, eq_iff j l, has_it) in
        let here : n ≡ r = ground (arith, e, y) in
        rw same (
          values_of-keeps names (put n v values) (ground (arith, h))
            (ground (arith, here, lookup-put n r v values, eq_refl r)))
    | inr y ↦ elim (Option-cases (lookup j granted)) [
      | inl x ↦ rw x (values_of-gives names values (ground (arith, e, y)) (ground (arith, h)))
      | inr (u, x) ↦
          rw x (values_of-gives names (put n u values) (ground (arith, e, y)) (ground (arith, h)))
    ]
  ]

-- What a grant gives the names of a map: the refresh token, the client's id and its secret, if it has
-- one.
pub record IsGiven (names values : Dict String) (token id : String) (secret : Option String)
    : Type 0 where
  pub token_given : Gives names values "refresh_token" token
  pub id_given : Gives names values "client_id" id
  pub secret_given :
      (s : String) → secret ≡ some s → is_empty s ≡ false → Gives names values "client_secret" s

pub values_of-IsGiven :
    (names : Dict String) (token id : String) (secret : Option String)
    → IsGiven names (values_of names (granted_of token id secret) []) token id secret
values_of-IsGiven names token id secret =
    let granted = granted_of token id secret in
    record {
      token_given =
          λ r e h. values_of-gives "refresh_token" r token granted (ground arith) names [] e h;
      id_given = λ r e h. values_of-gives "client_id" r id granted (ground arith) names [] e h;
      secret_given = λ s some_s full r e h.
          values_of-gives "client_secret" r s granted (ground arith) names [] e h;
    }
