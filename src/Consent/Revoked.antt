-- ===== src/Consent/Revoked.antt =====
-- consent.py: `revoke`, and the identity map after it.
use beherouter.Prelude.{
  String, ◌≡◌, ap, sym, ◌∙◌, not, Option, none, some, List, [], ◌∷◌, ◌++◌, Dict, lookup, is_empty,
  arith, inl, inr, subst,
}
use beherouter.Data.{Value}
use beherouter.Errors.{ok, check, axi, bare, usage_error}
use beherouter.Registry.{RegistryEntry}
use beherouter.Consent.{ConsentProvider, ConsentTarget, resolve_target}
use beherouter.Consent.Disk.{
  Toml, World, done, and_then, and_then-eq-done, quiet-eq-done, lift-eq-done, return,
}
use beherouter.Consent.Writer.{Process, check_writable, remove_names, read_subject}
use beherouter.Consent.Format.{IsToml}
use beherouter.Consent.Grant.{
  Setting, Options, Revoked, refresh_name, found, take_back, revoke, revoke_upstream,
}
use beherouter.Consent.Kept.{doc_of, doc_of-Holds, check_writable-quiet}
use beherouter.Consent.Removed.{IsWithout, Removed, remove_names-Removed}

module _ {T : Toml} (L : IsToml T) (s : Setting T) where
  -- What a revocation has posted.
  abbrev pub told_upstream : ConsentProvider → String → World T → List (String × Dict String)
  told_upstream provider token w = elim provider.revoke_url [
    | none ↦ w.posted
    | some url ↦ w.posted ++ ((url, ("token", token) ∷ []) ∷ [])
  ]

  -- A revocation that ended well: the token that the map held went to the provider, if it has an
  -- endpoint for it, and the map that there was then has lost the token's name and nothing else.
  pub record IsRevoked (e : RegistryEntry) (subject : String) (options : Options) (w w' : World T)
      : Type 0 where
    pub target : ConsentTarget
    pub name : String
    pub token : String
    pub current : Dict String
    pub resolved : resolve_target e options.identity_map s.default_map ≡ ok target
    pub named : lookup "refresh_token" target.names ≡ some name
    pub held :
        ((read_subject s.process s.host subject w).0 ≡ done current)
        × (lookup name current ≡ some token)
    pub told : w'.posted ≡ told_upstream target.provider token w
    pub before : Dict Value
    pub after : Dict Value
    pub read : (doc_of (s.meanwhile w.map) ≡ ok before) × (doc_of w'.map ≡ ok after)
    pub without : IsWithout subject name before after

  revoked_of :
      (p : Process) (subject name : String) (w w' : World T)
      → Removed p subject name w w'
      → (before : Dict Value) × (after : Dict Value) × (doc_of w.map ≡ ok before)
        × (doc_of w'.map ≡ ok after)
        × IsWithout subject name before after
        × (w'.posted ≡ w.posted)
  revoked_of p subject name w w' (doc, d, e, x, h, inl (same, d_same)) =
      (doc, d, e, rw (same, d_same) e, x, ap (λ u. u.posted) same)
  revoked_of p subject name w w' (doc, d, e, x, h, inr q) =
      (doc, d, e, rw q (L.parse-dumps d (h (doc_of-Holds L w.map doc e))), x, ap (λ u. u.posted) q)

  read_subject-quiet :
      (subject : String) (w : World T) → (read_subject s.process s.host subject w).1 ≡ w
  unfolding read_subject
  read_subject-quiet subject w = ground arith

  upstream-posts :
      (provider : ConsentProvider) (token : String) (w : World T)
      → (revoke_upstream s provider token w).1
        ≡ record w { posted = told_upstream provider token w }
  unfolding revoke_upstream
  upstream-posts provider token w = ground arith

  refresh_name-eq_ok :
      (names : Dict String) (n : String)
      → refresh_name s names ≡ ok n
      → lookup "refresh_token" names ≡ some n
  refresh_name-eq_ok names n h = ground (arith, h)

  found-eq_ok : (o : Option String) (t : String) → found s o ≡ ok t → o ≡ some t
  found-eq_ok o t h = ground (arith, h)

  record IsTaken (target : ConsentTarget) (subject name token : String) (w w' : World T)
      : Type 0 where
    told : w'.posted ≡ told_upstream target.provider token w
    before : Dict Value
    after : Dict Value
    read : (doc_of (s.meanwhile w.map) ≡ ok before) × (doc_of w'.map ≡ ok after)
    without : IsWithout subject name before after

  removed-Taken :
      (target : ConsentTarget) (subject name token : String) (w u z : World T) (l : List String)
      → u ≡ record w { posted = told_upstream target.provider token w }
      → remove_names s.process subject (name ∷ []) (record u { map = s.meanwhile u.map })
        ≡ (done l, z)
      → IsTaken target subject name token w z
  removed-Taken target subject name token w u z l sent y =
      let (before, after, d, d', lost, same) =
        revoked_of s.process subject name (record u { map = s.meanwhile u.map }) z
          (remove_names-Removed s.process subject name (record u { map = s.meanwhile u.map }) z l
            y) in
      record {
        told = same ∙ ap (λ q. q.posted) sent;
        before = before;
        after = after;
        read = (ap (λ m. doc_of (s.meanwhile m)) (sym (ap (λ q. q.map) sent)) ∙ d, d');
        without = lost;
      }

  take_back-Taken :
      (target : ConsentTarget) (subject name token : String) (w w' : World T) (r : Revoked)
      → take_back s target subject name token w ≡ (done r, w')
      → IsTaken target subject name token w w'
  unfolding take_back
  take_back-Taken target subject name token w w' r h =
      sent_back (and_then-eq-done (revoke_upstream s target.provider token w) _ h)
    where
      removed_back :
          (upstream : String) (u : World T)
          → u ≡ record w { posted = told_upstream target.provider token w }
          → (l : List String) × (z : World T) × (remove_names s.process subject
                (name ∷ [])
                (record u { map = s.meanwhile u.map })
              ≡ (done l, z))
            × (return
                  (record {
                    surface = target.surface;
                    subject = subject;
                    identity_map = target.map_path;
                    names_removed = l;
                    upstream = upstream;
                  })
                  z
                ≡ (done r, w'))
          → IsTaken target subject name token w w'
      removed_back upstream u sent (l, z, y, h) =
          subst (λ q. IsTaken target subject name token w q) {x = z} (ap (λ q. q.1) h)
            (removed-Taken target subject name token w u z l sent y)

      sent_back :
          (upstream : String) × (u : World T) × (revoke_upstream s target.provider token w
              ≡ (done upstream, u))
            × (and_then
                  (remove_names s.process subject
                    (name ∷ [])
                    (record u { map = s.meanwhile u.map }))
                  (λ l. return (record {
                    surface = target.surface;
                    subject = subject;
                    identity_map = target.map_path;
                    names_removed = l;
                    upstream = upstream;
                  }))
                ≡ (done r, w'))
          → IsTaken target subject name token w w'
      sent_back (upstream, u, x, h) =
          removed_back upstream u (sym (ap (λ q. q.1) x) ∙ upstream-posts target.provider token w) (
            and_then-eq-done
              (remove_names s.process subject (name ∷ []) (record u { map = s.meanwhile u.map })) _
              h)

  -- If TOML documents are read as they were printed, a revocation that ends well sent the token
  -- that the map held to the provider, if it has an endpoint for it, and took the token's name
  -- out of the subject's entry in the map that was there then: the entry has that name no more,
  -- and is itself gone if it had the name and no other; every other name and every other entry is
  -- as it was.
  pub revoke-IsRevoked :
      (e : RegistryEntry) (subject : String) (options : Options) (w w' : World T) (r : Revoked)
      → revoke s e subject options w ≡ (done r, w')
      → IsRevoked e subject options w w'
  unfolding revoke
  revoke-IsRevoked e subject options w w' r h =
      let (_, _, h0) =
        lift-eq-done (check (not (is_empty subject)) (axi (bare usage_error))) _ w h in
      let (target, resolved, h1) =
        lift-eq-done (resolve_target e options.identity_map s.default_map) _ w h0 in
      let (_, _, h2) = quiet-eq-done (check_writable w) _ w (check_writable-quiet w) h1 in
      let (current, c, h3) =
        quiet-eq-done (read_subject s.process s.host subject w) _ w (read_subject-quiet subject w)
          h2 in
      let (name, n, h4) = lift-eq-done (refresh_name s target.names) _ w h3 in
      let (token, t, h5) = lift-eq-done (found s (lookup name current)) _ w h4 in
      let back = take_back-Taken target subject name token w w' r h5 in
      record {
        target = target;
        name = name;
        token = token;
        current = current;
        resolved = resolved;
        named = refresh_name-eq_ok target.names name n;
        held = (ap (λ q. q.0) c, found-eq_ok (lookup name current) token t);
        told = back.told;
        before = back.before;
        after = back.after;
        read = back.read;
        without = back.without;
      }
