-- ===== src/Prelude/Texts.antt =====
-- Texts as keys: equality, membership in a list of names, and Python's `sorted(set(...))`.
use Prim.Native.Nat.{ℕ, Ordering}
use Prim.Native.Char.{Char, code}
use Prim.Native.String.{String, compare}
use mathlib.Core.Path.{◌≡◌, refl, ap, ◌∙◌}
use mathlib.Core.Bool.{Bool, false, ◌&&◌, ◌||◌}
use mathlib.Core.Option.{Option, none, some}
use mathlib.Core.List.{List, [], ◌∷◌, ◌++◌}
use native.Mathlib.Omega.{arith}
use text.Mathlib.Text.{◌==◌}
use text.Mathlib.TextEquality.{eq_iff, path_by_compare}
use beherouter.Prelude.Tests.{leb, ◌==◌ as ◌=ℕ◌, if◌then◌else◌, select}

infix 50 ◌===◌
-- Equality of two texts.
abbrev pub ◌===◌ : String → String → Bool
s === t = s == t

abbrev pub is_empty : String → Bool
is_empty s = s == ""

-- `name in names`
abbrev pub elem : String → List String → Bool
elem a [] = false
elem a (x ∷ xs) = (x == a) || elem a xs

pub elem-append : (a : String) (xs ys : List String) → elem a (xs ++ ys) ≡ (elem a xs || elem a ys)
elem-append a [] ys = refl
elem-append a (x ∷ xs) ys = ground (arith, elem-append a xs ys)

pub elem-select :
    (p : String → Bool) (a : String) (xs : List String) → elem a (select p xs) ≡ (elem a xs && p a)
elem-select p a [] = refl
elem-select p a (x ∷ xs) = ground (arith, elem-select p a xs, eq_iff x a)

abbrev placed : String → String → List String → List String → Ordering → List String
placed a x xs rest Ordering.lt = a ∷ x ∷ xs
placed a x xs rest Ordering.eq = x ∷ xs
placed a x xs rest Ordering.gt = x ∷ rest

-- Insertion into a sorted list without duplicates.
abbrev pub insert : String → List String → List String
insert a [] = a ∷ []
insert a (x ∷ xs) = let rest = insert a xs in placed a x xs rest (compare a x)

-- `sorted(set(names))`
abbrev pub sorted_set : List String → List String
sorted_set [] = []
sorted_set (x ∷ xs) = insert x (sorted_set xs)

pub elem-insert : (b a : String) (xs : List String) → elem b (insert a xs) ≡ ((a == b) || elem b xs)
elem-insert b a [] = ground arith
elem-insert b a (x ∷ xs) = elem-placed (elem-insert b a xs) (compare a x) refl
  where
    elem-placed :
        elem b (insert a xs) ≡ ((a == b) || elem b xs)
        → (o : Ordering) → compare a x ≡ o
        → elem b (placed a x xs (insert a xs) o) ≡ ((a == b) || ((x == b) || elem b xs))
    elem-placed h Ordering.lt e = refl
    elem-placed h Ordering.eq e = ground (arith, path_by_compare a x e)
    elem-placed h Ordering.gt e = ground (arith, h)

pub elem-sorted_set : (a : String) (xs : List String) → elem a (sorted_set xs) ≡ elem a xs
elem-sorted_set a [] = refl
elem-sorted_set a (x ∷ xs) =
    elem-insert a x (sorted_set xs) ∙ ap (λ b. (x == a) || b) (elem-sorted_set a xs)

-- `text.split(".")` and its like, at the one separator `sep`.
abbrev on_head : Char → List String → List String
on_head c [] = []
on_head c (w ∷ ws) = (String.◌∷◌ c w) ∷ ws

unfoldable pub split_at : ℕ → String → List String
split_at sep String.[] = "" ∷ []
split_at sep (String.◌∷◌ c s) =
    let rest = split_at sep s in if code c =ℕ sep then "" ∷ rest else on_head c rest

-- The text behind a prefix.
abbrev pub behind : String → String → Option String
behind String.[] s = some s
behind (String.◌∷◌ c p) String.[] = none
behind (String.◌∷◌ c p) (String.◌∷◌ d s) = if code c =ℕ code d then behind p s else none

-- Python's white space.
abbrev is_space : ℕ → Bool
is_space c =
    (leb 9 c && leb c 13)
    || (leb 28 c && leb c 32)
    || (c =ℕ 0x85)
    || (c =ℕ 0xa0)
    || (c =ℕ 0x1680)
    || (leb 0x2000 c && leb c 0x200a)
    || (c =ℕ 0x2028)
    || (c =ℕ 0x2029)
    || (c =ℕ 0x202f)
    || (c =ℕ 0x205f)
    || (c =ℕ 0x3000)

abbrev add_word : String → List String → List String
add_word w ws = if is_empty w then ws else w ∷ ws

-- The word that the text begins in the middle of, and the words behind it.
words_from : String → String × List String
words_from String.[] = ("", [])
words_from (String.◌∷◌ c s) =
    let (w, ws) = words_from s in
    if is_space (code c) then ("", add_word w ws) else (String.◌∷◌ c w, ws)

-- `text.split()`
unfoldable pub words : String → List String
unfolding words_from
words s = let (w, ws) = words_from s in add_word w ws
