-- ===== src/Surface/Hidden.antt =====
-- A tool that is hidden from a caller.
use beherouter.Prelude.{
  ℕ, zero, suc, String, ◌≡◌, ◌≢◌, ◌+◌, refl, ap, ◌∙◌, ◌⊎◌, inl, inr, false, ◌&&◌, Option, none,
  some, List, [], ◌∷◌, lookup, elem, elem-select, select, arith, eq_iff, Option-cases,
  if◌then◌else◌,
}
use beherouter.Data.{Value, ℤ}
use beherouter.Errors.{AxiError, Exc, axi, Result, ok, raise, Result-cases}
use beherouter.Models.{ToolDescriptor}
use beherouter.Gates.{visible, check_visible}
use beherouter.Gates.Visibility.{visible-check_visible}
use beherouter.Surface.{
  Viewer, sees, hides, listed_after, list_tools, Tools, suggestions, at_most, clamped, gated_tools,
  found, may_see, described,
}

abbrev names_in : List (String × Value) → List String
names_in [] = []
names_in ((n, _) ∷ hs) = n ∷ names_in hs

unseen-select :
    (v : Viewer) (n : String) (hs : List (String × Value))
    → sees v n ≡ false
    → elem n (names_in (select (λ h. sees v h.0) hs)) ≡ false
unseen-select v n [] h = refl
unseen-select v n ((m, x) ∷ hs) h = ground (arith, unseen-select v n hs, eq_iff m n)

at_most-elem :
    (k : ℕ) (n : String) (hs : List (String × Value))
    → elem n (names_in hs) ≡ false
    → elem n (names_in (at_most k hs)) ≡ false
at_most-elem zero n hs h = refl
at_most-elem (suc k) n [] h = refl
at_most-elem (suc k) n ((m, x) ∷ hs) h = ground (arith, at_most-elem k n hs)

listed-unseen :
    (v : Viewer) (n : String) (names ns : List String) (r : Result (Unit {0}))
    → sees v n ≡ false
    → listed_after v names r ≡ ok ns
    → elem n ns ≡ false
unfolding visible
listed-unseen v n names ns (raise e) h l = ground arith
listed-unseen v n names ns (ok _) h l = ground (arith, elem-select (sees v) n names)

all_seen :
    (v : Viewer) (published : List String) (n : String)
    → elem n (if hides v.gates then select (sees v) published else published)
      ≡ (elem n published && sees v n)
unfolding visible
all_seen v published n = ground (arith, elem-select (sees v) n published)

-- How the listing, the suggestions, the search and the description do not show the tool `n`.
pub record IsHidden {W : Type 0} (v : Viewer) (t : Tools W) (w : W) (published : List String)
    (n : String) : Type 0 where
  pub not_listed :
      (guard : Option (Result (Unit {0}))) (ns : List String)
      → list_tools v guard published ≡ ok ns
      → elem n ns ≡ false
  pub not_suggested : (query : String) → elem n (suggestions v t w query) ≡ false
  pub not_found : (query : String) (limit : ℤ) → elem n (names_in (found v t query limit w)) ≡ false
  pub not_described :
      (d : ToolDescriptor)
      → lookup n (t.by_name w) ≡ some d
      → d.name ≡ n
      → (e : Exc) × (described v t published n w ≡ raise e)

unseen-refused : (v : Viewer) (n : String) → sees v n ≡ false → (e : Exc) × (may_see v n ≡ raise e)
unseen-refused v n h = elim (Option-cases v.gates) [
  | inl e ↦ absurd (ground (arith, e, h))
  | inr (g, e) ↦ elim (Result-cases (check_visible v.host g v.request n)) [
    | inl (_, m) ↦ absurd (ground (arith, e, h, m, visible-check_visible v.host g v.request n))
    | inr (x, m) ↦ (x, rw e m)
  ]
]

described-unseen :
    {W : Type 0} (v : Viewer) (t : Tools W) (w : W) (published : List String) (n : String)
    (d : ToolDescriptor)
    → sees v n ≡ false
    → lookup n (t.by_name w) ≡ some d
    → d.name ≡ n
    → (e : Exc) × (described v t published n w ≡ raise e)
unfolding described
described-unseen v t w published n d h l s =
    let (e, m) = unseen-refused v n h in
    let m' : may_see v d.name ≡ raise e = ap (may_see v) s ∙ m in
    (e, rw (l, described) (rw m' refl))

-- A tool that the gates of a surface hide from a caller is not shown to him by four operations: no
-- listing has it, whatever the guard says; nor have the suggestions for a name that is unknown, nor a
-- page of a search, whatever its query and limit; and where the catalogue has it under its name, its
-- description is refused. Nothing is said of the names that `context_cost` reports.
pub sees-IsHidden :
    {W : Type 0} (v : Viewer) (t : Tools W) (w : W) (published : List String) (n : String)
    → sees v n ≡ false
    → IsHidden v t w published n
unfolding list_tools found
sees-IsHidden v t w published n h = record {
  not_listed = λ guard ns. unlisted guard ns;
  not_suggested = λ query. ground (arith, h, elem-select (sees v) n (t.suggest w query));
  not_found = λ query limit.
      at_most-elem (clamped limit) n
        (select (λ h. sees v h.0) (t.hits w query (clamped limit + gated_tools v.gates)))
        (unseen-select v n (t.hits w query (clamped limit + gated_tools v.gates)) h);
  not_described = λ d l s. described-unseen v t w published n d h l s;
}
  where
    unlisted :
        (guard : Option (Result (Unit {0}))) (ns : List String)
        → list_tools v guard published ≡ ok ns
        → elem n ns ≡ false
    unlisted none ns l = listed-unseen v n published ns (ok tt) h l
    unlisted (some r) ns l = listed-unseen v n published ns r h l

-- A listing never fails for want of permission or configuration: no error of that family is raised,
-- whatever the guard of the policy and the gates say. Without such an error from the guard, the names
-- listed are exactly the published ones that the caller may see.
pub list_tools-sees :
    (v : Viewer) (guard : Option (Result (Unit {0}))) (published : List String) (n : String)
    → ((e : AxiError) → list_tools v guard published ≢ raise (axi e))
      × ((guard ≡ none) ⊎ (guard ≡ some (ok tt))
          → (ns : List String) × (list_tools v guard published ≡ ok ns)
            × (elem n ns ≡ (elem n published && sees v n)))
unfolding list_tools visible
list_tools-sees v none published n =
    (λ e h. absurd (ground (arith, h)), λ _. (_, refl, all_seen v published n))
list_tools-sees v (some (ok _)) published n =
    (λ e h. absurd (ground (arith, h)), λ _. (_, refl, all_seen v published n))
list_tools-sees v (some (raise x)) published n =
    (λ e h. absurd (ground (arith, h)), λ g. absurd (ground (arith, g)))
