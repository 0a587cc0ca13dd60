-- ===== src/Catalogue/Drifted.antt =====
-- What a drift says, and which tools it is about.
use beherouter.Prelude.{
  ℕ, ◌≢◌, String, ◌≡◌, refl, Bool, true, false, not, ◌&&◌, List, [], ◌∷◌, select, sorted_set, elem,
  elem-sorted_set, elem-select, is_nil, arith,
}
use beherouter.Models.{ToolDescriptor}
use beherouter.Catalogue.{Catalogue, ok, drifted, names, diff, listed}

elem_picked :
    (p : String → Bool) (n : String) (xs : List String)
    → elem n (sorted_set (select p xs)) ≡ (elem n xs && p n)
elem_picked p n xs = rw (elem-sorted_set n (select p xs), elem-select p n xs) refl

-- After a listing: the drift has exactly the tools that appeared, those that vanished, and the pinned
-- ones that are not served; without one of these the status is `ok`, and with one `drifted`.
pub record IsReported {Index : Type 0} (c c' : Catalogue Index) (fresh : List ToolDescriptor)
    : Type 0 where
  pub added :
      (n : String)
      → elem n c'.drift.added ≡ (elem n (names fresh) && not (elem n (names c.descriptors)))
  pub removed :
      (n : String)
      → elem n c'.drift.removed ≡ (elem n (names c.descriptors) && not (elem n (names fresh)))
  pub pinned_missing :
      (n : String)
      → elem n c'.drift.pinned_missing ≡ (elem n c.pinned_names && not (elem n (names fresh)))
  pub steady :
      c'.status ≡ ok
      → (n : String)
      → (elem n (names fresh) ≡ elem n (names c.descriptors))
        × (elem n c.pinned_names ≡ true → elem n (names fresh) ≡ true)
  pub noted :
      (n : String) → elem n (names fresh) ≢ elem n (names c.descriptors) → c'.status ≡ drifted

nil-elem : (n : String) (xs : List String) → is_nil xs ≡ true → elem n xs ≡ false
nil-elem n [] h = refl
nil-elem n (x ∷ xs) h = cc

-- A listing reports every tool that appeared or vanished since the last one, every pinned tool that
-- is missing, and no other; a steady status means that there is none.
pub listed-IsReported :
    {Index : Type 0} (c : Catalogue Index) (fresh : List ToolDescriptor) (now : ℕ)
    → IsReported c (listed fresh now c) fresh
unfolding listed diff
listed-IsReported c fresh now = record {
  added = λ n. added n;
  removed = λ n. removed n;
  pinned_missing = λ n. missing n;
  steady = λ e n.
      let a = nil-elem n (diff c fresh).added in
      let r = nil-elem n (diff c fresh).removed in
      let m = nil-elem n (diff c fresh).pinned_missing in
      (ground (arith, a, r, added n, removed n), λ p. ground (arith, m, missing n));
  noted = λ n e.
      let a = nil-elem n (diff c fresh).added in
      let r = nil-elem n (diff c fresh).removed in ground (arith, a, r, added n, removed n);
}
  where
    added :
        (n : String)
        → elem n (diff c fresh).added ≡ (elem n (names fresh) && not (elem n (names c.descriptors)))
    added n = elem_picked (λ n. not (elem n (names c.descriptors))) n (names fresh)

    removed :
        (n : String)
        → elem n (diff c fresh).removed
          ≡ (elem n (names c.descriptors) && not (elem n (names fresh)))
    removed n = elem_picked (λ n. not (elem n (names fresh))) n (names c.descriptors)

    missing :
        (n : String)
        → elem n (diff c fresh).pinned_missing
          ≡ (elem n c.pinned_names && not (elem n (names fresh)))
    missing n = elem_picked (λ n. not (elem n (names fresh))) n c.pinned_names
