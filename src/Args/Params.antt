-- ===== src/Args/Params.antt =====
-- The parameters' names: the loop that makes a name fresh ends, and no two arguments share a name.
use beherouter.Prelude.{
  ℕ, ◌+◌, ◌≤◌, ◌<◌, zero, suc, String, ◌≡◌, refl, ap, true, false, some, List, [], ◌∷◌, elem, map,
  length, leb, arith, eq_iff, Bool-cases, inl, inr, if◌then◌else◌,
}
use Prim.Native.String.{◌++◌ as ◌+++◌, len}
use text.Mathlib.TextPositions.{len-append}
use beherouter.Args.{Python, param_name, Raw, Spec, fresh, assign_params}

len-underscore : (s : String) → len (s +++ "_") ≡ len s + 1
len-underscore s = len-append s "_"

-- How many of the names have at least `n` bytes.
abbrev long : ℕ → List String → ℕ
long n [] = 0
long n (x ∷ xs) = (if leb n (len x) then 1 else 0) + long n xs

long-le-length : (n : ℕ) (xs : List String) → long n xs ≤ length xs
long-le-length n [] = omega arith
long-le-length n (x ∷ xs) = ground (arith, long-le-length n xs)

long_mono : (n : ℕ) (xs : List String) → long (n + 1) xs ≤ long n xs
long_mono n [] = omega arith
long_mono n (x ∷ xs) = ground (arith, long_mono n xs)

-- A name that is there is one of those of its length.
long-lt : (p : String) (xs : List String) → elem p xs ≡ true → long (len p + 1) xs < long (len p) xs
long-lt p [] h = cc
long-lt p (x ∷ xs) h = ground (arith, eq_iff x p, long-lt p xs, long_mono (len p) xs)

fresh-eq-some :
    (fuel : ℕ) (p : String) (seen : List String)
    → long (len p) seen < fuel
    → (q : String) × (fresh fuel p seen ≡ some q) × (elem q seen ≡ false)
unfolding fresh
fresh-eq-some zero p seen h = absurd (omega arith)
fresh-eq-some (suc fuel) p seen h = elim (Bool-cases (elem p seen)) [
  | inr e ↦ (p, rw e refl, e)
  | inl e ↦
      let (q, r, n) =
        fresh-eq-some fuel (p +++ "_") seen (ground (arith, len-underscore p, long-lt p seen)) in
      (q, rw e r, n)
]

-- The loop that makes a parameter's name fresh ends before its fuel, one round for each name that is
-- taken and one more, runs out: for every name and whatever is taken, and the name it gives is not
-- taken.
pub fresh_total :
    (p : String) (seen : List String)
    → (q : String) × (fresh (suc (length seen)) p seen ≡ some q) × (elem q seen ≡ false)
fresh_total p seen =
    fresh-eq-some (suc (length seen)) p seen (omega (arith, long-le-length (len p) seen))

-- No name comes twice, nor is one of those that are taken.
abbrev pub AreFresh : List String → List Spec → Type 0
AreFresh seen [] = Unit
AreFresh seen (s ∷ ss) = (elem s.param seen ≡ false) × AreFresh (s.param ∷ seen) ss

-- Every list of arguments gets its parameters: one for each argument, in the arguments' order, and no
-- two with the same name.
pub assign_params-AreFresh :
    (py : Python) (rs : List Raw) (seen : List String)
    → (specs : List Spec) × (assign_params py rs seen ≡ some specs)
      × (map (λ (s : Spec). s.raw) specs ≡ rs)
      × AreFresh seen specs
unfolding assign_params
assign_params-AreFresh py [] seen = ([], refl, refl, tt)
assign_params-AreFresh py (r ∷ rs) seen =
    let (q, e, n) = fresh_total (param_name py r.wire) seen in
    let (specs, e', same, f) = assign_params-AreFresh py rs (q ∷ seen) in
    (record { raw = r; param = q } ∷ specs, rw (e, e') refl, ap (λ l. r ∷ l) same, (n, f))
