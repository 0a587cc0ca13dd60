-- ===== src/Identity/Policy/Complete.antt =====
-- An identity is made whole or not at all, and only for a caller who passes the gate.
use mathlib.Core.List.{append-nil}
use beherouter.Prelude.{
  not, false≢true, String, ◌≡◌, refl, sym, ap, ◌∙◌, true, false, Option, none, List, [], ◌∷◌, ◌++◌,
  Dict, arith, keys, is_empty, is_some, Bool-cases, inl, inr, ◌===◌, if◌then◌else◌,
}
use beherouter.Errors.{Result, ok, raise, check, bare, axi, auth_error, >>=-eq-ok, check-eq-ok}
use beherouter.Identity.{Host, RequestIdentity}
use beherouter.Identity.Policy.{
  IdentityPolicy, CallIdentity, IdentityMap, verified, gate, collect, material, by_lookup,
  materialise, into_slot, pending_exchange, authorise, map_path, claim, client_header, or_empty,
  no_material,
}
use beherouter.Identity.Policy.Gate.{Passes, gate-Passes_iff}

keys-collect :
    (f : String → Result String) (d : Dict String) (m : Dict String)
    → collect f d ≡ ok m
    → keys m ≡ keys d
unfolding collect
keys-collect f [] [] h = refl
keys-collect f [] (_ ∷ _) h = cc
keys-collect f ((k, s) ∷ d) m h =
    let (v, _, h₁) = >>=-eq-ok (f s) _ h in
    let (rest, read, last) = >>=-eq-ok (collect f d) _ h₁ in
    ground (arith, keys-collect f d rest read, ap keys_of last)
  where
    keys_of : Result (Dict String) → List String
    keys_of (ok d) = keys d
    keys_of (raise e) = []

-- The names that a mode must fill.
pub expected_keys : IdentityPolicy → List String
expected_keys p = if p.mode === "bearer" then p.header ∷ [] else keys p.map

module _ (host : Host) (env : Option String) (cf : IdentityMap) (p : IdentityPolicy)
    (req : RequestIdentity) where
  keys-by_lookup : (m : Dict String) → by_lookup host env cf p req ≡ ok m → keys m ≡ keys p.map
  unfolding by_lookup
  keys-by_lookup m h =
      let (path, _, h₁) = >>=-eq-ok (map_path env p) _ h in
      let (key, _, h₂) = >>=-eq-ok (claim host req p.key) _ h₁ in
      let (found, _, h₃) = >>=-eq-ok (cf path p.surface key p.key) _ h₂ in keys-collect _ p.map m h₃

  keys-material : (m : Dict String) → material host env cf p req ≡ ok m → keys m ≡ expected_keys p
  unfolding material expected_keys
  keys-material m h = ground (
    arith,
    keys-collect (claim host req) p.map m,
    keys-collect (client_header host req) p.map m,
    keys-by_lookup m,
  )

  -- The material stands in one slot, and nothing waits; or all of it waits.
  pub record IsComplete (ident : CallIdentity) : Type 0 where
    pub for_caller : ident.subject ≡ or_empty req.subject
    pub exchanged_later :
        (p.mode === "exchange") ≡ true
        → is_some ident.pending ≡ true
          × (ident.headers ≡ [])
          × (ident.env ≡ [])
          × (ident.credentials ≡ [])
    pub filled_now :
        (p.mode === "exchange") ≡ false
        → (ident.pending ≡ none)
          × (keys ident.headers ++ keys ident.env ++ keys ident.credentials ≡ expected_keys p)

  into_slot-IsComplete :
      (target key : String) (ident : CallIdentity) (m : Dict String)
      → keys m ≡ expected_keys p
      → (p.mode === "exchange") ≡ false
      → into_slot host env cf target
          (record (no_material (or_empty req.subject)) { cache_key = key })
          m
        ≡ ok ident
      → IsComplete ident
  unfolding into_slot
  into_slot-IsComplete target key ident m e x h = record {
    for_caller = ground arith;
    exchanged_later = λ q. absurd (false≢true (sym x ∙ q));
    filled_now = λ q. (ground arith, ground (arith, append-nil (keys m)));
  }

  pending-IsComplete :
      (ident : CallIdentity)
      → (p.mode === "exchange") ≡ true
      → pending_exchange host env cf p req ≡ ok ident
      → IsComplete ident
  unfolding pending_exchange
  pending-IsComplete ident x h = record {
    for_caller = ground arith;
    exchanged_later = λ q. (ground arith, ground arith, ground arith, ground arith);
    filled_now = λ q. absurd (false≢true (sym q ∙ x));
  }

  -- Whatever the mode, an identity that `materialise` makes is for a verified caller and is whole: in
  -- mode `exchange` everything waits for the exchange and nothing else is set; in any other mode
  -- nothing waits, and the names that are set are those that the policy lists, all of them, in order.
  pub materialise-IsComplete :
      (ident : CallIdentity)
      → materialise host env cf p req ≡ ok ident
      → (verified req ≡ true) × IsComplete ident
  unfolding materialise
  materialise-IsComplete ident h =
      let (_, known, h₁) = >>=-eq-ok (check (verified req) (axi (bare auth_error))) _ h in
      (
        check-eq-ok _ _ known,
        elim (Bool-cases (p.mode === "exchange")) [
          | inl x ↦ pending-IsComplete ident x (rw x at h₁)
          | inr x ↦
              let (m, made, h₂) = >>=-eq-ok (material host env cf p req) _ (rw x at h₁) in
              into_slot-IsComplete p.target _ ident m (keys-material m made) x h₂
        ],
      )

  -- A surface serves a call with an identity, or with none, only for a caller who passes its gate; it
  -- serves with none exactly when it has no mode.
  pub authorise-Passes :
      (r : Option CallIdentity)
      → authorise host env cf p req ≡ ok r
      → Passes host p req × (is_some r ≡ not (is_empty p.mode))
  unfolding authorise
  authorise-Passes r h =
      let (_, passed, h₁) = >>=-eq-ok (gate host p req) _ h in
      (
        (gate-Passes_iff host p req).0 passed,
        elim (Bool-cases (is_empty p.mode)) [
          | inl e ↦ rw e (ground arith)
          | inr e ↦
              let (ident, made, h₂) = >>=-eq-ok (materialise host env cf p req) _ (rw e at h₁) in
              rw e (ground arith)
        ],
      )
