-- ===== src/Prelude/Assoc.antt =====
-- Python's `dict` with text keys, as an association list: the first entry of a key counts.
use Prim.Native.String.{String}
use mathlib.Core.Path.{◌≡◌, refl}
use mathlib.Core.Bool.{Bool}
use mathlib.Core.Option.{Option, none, some}
use mathlib.Core.List.{List, [], ◌∷◌}
use native.Mathlib.Omega.{arith}
use text.Mathlib.Text.{◌==◌}
use text.Mathlib.TextEquality.{eq_iff}
use beherouter.Prelude.Tests.{if◌then◌else◌, is_some}
use beherouter.Prelude.Texts.{elem}

abbrev pub Dict {ℓ} : Type ℓ → Type ℓ
Dict V = List (String × V)

module _ {ℓ} {V : Type ℓ} where
  -- `d.get(k)`
  abbrev pub lookup : String → Dict V → Option V
  lookup k [] = none
  lookup k ((j, v) ∷ d) = if j == k then some v else lookup k d

  -- `k in d`
  abbrev pub has : String → Dict V → Bool
  has k d = is_some (lookup k d)

  abbrev pub keys : Dict V → List String
  keys [] = []
  keys ((k, _) ∷ d) = k ∷ keys d

  -- `d[k] = v`: the place of a key that is there already is kept.
  abbrev pub put : String → V → Dict V → Dict V
  put k v [] = (k, v) ∷ []
  put k v ((j, w) ∷ d) = if j == k then (k, v) ∷ d else (j, w) ∷ put k v d

  -- `d.setdefault(k, v)`
  abbrev pub set_default : String → V → Dict V → Dict V
  set_default k v [] = (k, v) ∷ []
  set_default k v ((j, w) ∷ d) = if j == k then (j, w) ∷ d else (j, w) ∷ set_default k v d

  -- The entries whose key passes a test.
  abbrev pub select_keys : (String → Bool) → Dict V → Dict V
  select_keys p [] = []
  select_keys p ((k, v) ∷ d) = if p k then (k, v) ∷ select_keys p d else select_keys p d

  pub lookup-put :
      (k j : String) (v : V) (d : Dict V)
      → lookup j (put k v d) ≡ (if k == j then some v else lookup j d)
  lookup-put k j v [] = refl
  lookup-put k j v ((i, w) ∷ d) =
      ground (arith, eq_iff k j, eq_iff i k, eq_iff i j, lookup-put k j v d)

  pub lookup-set_default :
      (k j : String) (v : V) (d : Dict V)
      → lookup j (set_default k v d)
        ≡ (if k == j then (if has k d then lookup k d else some v) else lookup j d)
  lookup-set_default k j v [] = refl
  lookup-set_default k j v ((i, w) ∷ d) =
      ground (arith, eq_iff k j, eq_iff i k, eq_iff i j, lookup-set_default k j v d)

  pub lookup-select_keys :
      (p : String → Bool) (j : String) (d : Dict V)
      → lookup j (select_keys p d) ≡ (if p j then lookup j d else none)
  lookup-select_keys p j [] = ground arith
  lookup-select_keys p j ((i, w) ∷ d) = ground (arith, eq_iff i j, lookup-select_keys p j d)

  pub elem-keys : (k : String) (d : Dict V) → elem k (keys d) ≡ has k d
  elem-keys k [] = refl
  elem-keys k ((j, v) ∷ d) = ground (arith, elem-keys k d)
