-- ===== src/Naming/Collisions.antt =====
-- When `detect_collisions` lets the verbs of a tool pass.
use beherouter.Prelude.{
  String, ◌≡◌, refl, ◌↔◌, true, false, Option, none, some, List, [], ◌∷◌, Dict, lookup, put, elem,
  lookup-put, arith, eq_iff, eq_refl,
}
use beherouter.Errors.{ok}
use beherouter.Naming.{flatten, collides, detect_from, detect_collisions}

-- No two verbs have one name.
abbrev pub AreDistinct : String → List String → Type 0
AreDistinct tool verbs =
    (v w : String)
    → elem v verbs ≡ true
    → elem w verbs ≡ true
    → flatten tool v ≡ flatten tool w
    → v ≡ w

-- No verb has the name that another one was seen with.
abbrev AreNew : String → Dict String → List String → Type 0
AreNew tool seen verbs =
    (v u : String) → elem v verbs ≡ true → lookup (flatten tool v) seen ≡ some u → u ≡ v

-- What one verb says: it does not collide, and the rest of the loop runs with it seen.
step :
    (tool : String) (seen : Dict String) (x : String) (xs : List String)
    → detect_from tool seen (x ∷ xs) ≡ ok tt
    → (collides (lookup (flatten tool x) seen) x ≡ false)
      × (detect_from tool (put (flatten tool x) x seen) xs ≡ ok tt)
unfolding detect_from
step tool seen x xs h = (ground arith, ground arith)

seen_same : (o : Option String) (x u : String) → collides o x ≡ false → o ≡ some u → u ≡ x
seen_same o x u h e = ground (arith, eq_iff u x)

seen_new :
    (o : Option String) (x : String) → ((u : String) → o ≡ some u → u ≡ x) → collides o x ≡ false
seen_new none x h = refl
seen_new (some u) x h = ground (arith, eq_iff u x, h u refl)

detect_from_sound :
    (tool : String) (verbs : List String) (seen : Dict String)
    → detect_from tool seen verbs ≡ ok tt
    → AreNew tool seen verbs × AreDistinct tool verbs
detect_from_sound tool [] seen h = (λ v u e _. cc, λ v w e _ _. cc)
detect_from_sound tool (x ∷ xs) seen h =
    let (c, rest) = step tool seen x xs h in
    let (new, apart) = detect_from_sound tool xs (put (flatten tool x) x seen) rest in
    let f = flatten tool in
    (
      λ v u e l. ground (
        arith,
        eq_iff x v,
        eq_iff (f x) (f v),
        lookup-put (f x) (f v) x seen,
        new v u,
        new v x,
        seen_same (lookup (f x) seen) x u c,
      ),
      λ v w e e' q. ground (
        arith,
        eq_iff x v,
        eq_iff x w,
        eq_iff (f x) (f v),
        eq_iff (f x) (f w),
        lookup-put (f x) (f v) x seen,
        lookup-put (f x) (f w) x seen,
        new v x,
        new w x,
        apart v w,
      ),
    )

detect_from_complete :
    (tool : String) (verbs : List String) (seen : Dict String)
    → AreNew tool seen verbs
    → AreDistinct tool verbs
    → detect_from tool seen verbs ≡ ok tt
unfolding detect_from
detect_from_complete tool [] seen new apart = refl
detect_from_complete tool (x ∷ xs) seen new apart =
    let c = seen_new (lookup (flatten tool x) seen) x (λ u l. new x u (rw (eq_refl x) refl) l) in
    let rest =
      detect_from_complete tool xs (put (flatten tool x) x seen)
        (λ v u e l. ground (
          arith,
          eq_iff (flatten tool x) (flatten tool v),
          lookup-put (flatten tool x) (flatten tool v) x seen,
          new v u,
          apart x v,
          eq_refl x,
        ))
        (λ v w e e'. apart v w (ground arith) (ground arith)) in
    rw (c, rest, detect_from) refl

-- The verbs of a tool pass exactly when no two different ones get the same tool name.
pub detect_collisions-AreDistinct_iff :
    (tool : String) (verbs : List String)
    → (detect_collisions tool verbs ≡ ok tt) ↔ AreDistinct tool verbs
unfolding detect_collisions
detect_collisions-AreDistinct_iff tool verbs = (
  λ h. (detect_from_sound tool verbs [] h).1,
  λ h. detect_from_complete tool verbs [] (λ v u e l. cc) h,
)
