-- ===== src/Consent/Stored.antt =====
-- A grant from the browser to the identity map.
use beherouter.Prelude.{
  ℕ, String, ◌≡◌, refl, ap, ◌∙◌, false, not, Option, [], is_empty, inl, inr, subst,
}
use beherouter.Errors.{ok, axi, bare, check, usage_error}
use beherouter.Registry.{RegistryEntry}
use beherouter.Consent.{ConsentTarget, resolve_target}
use beherouter.Consent.Disk.{Toml, World, done, and_then-eq-done, quiet-eq-done, lift-eq-done}
use beherouter.Consent.Writer.{check_writable, upsert_subject}
use beherouter.Consent.Grant.{
  Setting, Options, Granted, grant, store, token_for, client_credentials, granted_of, values_of,
  hint_of,
}
use beherouter.Consent.Kept.{Rewritten, with_values, upsert_subject-IsRewrite, check_writable-quiet}
use beherouter.Consent.Redirected.Ours.{IsOurs, IsExchanged, obtain-IsOurs}

module _ {T : Toml} (s : Setting T) where
  -- A grant that ended well: a token from the exchange, and its values in the map that was there then.
  pub record IsGrant (e : RegistryEntry) (subject : String) (options : Options) (timeout : ℕ)
      (w w' : World T) (g : Granted) : Type 0 where
    pub target : ConsentTarget
    pub id : String
    pub secret : Option String
    pub token : String
    pub exchanged_in : World T
    pub resolved : resolve_target e options.identity_map s.default_map ≡ ok target
    pub client : client_credentials s.at e target.provider options ≡ ok (id, secret)
    pub ours :
        IsExchanged s.http s.drawn target.provider id secret s.redirect_uri s.rounds timeout
          (hint_of subject)
          w
          (done token, exchanged_in)
    pub same_map : exchanged_in.map ≡ w.map
    pub kept :
        Rewritten s.process
          (with_values subject (values_of target.names (granted_of token id secret) []))
          (record exchanged_in { map = s.meanwhile exchanged_in.map })
          w'

  token_for-IsExchanged :
      (target : ConsentTarget) (subject : String) (timeout : ℕ) (client : String × Option String)
      (w u : World T) (token : String)
      → is_empty s.drawn.state ≡ false
      → token_for s target subject timeout client w ≡ (done token, u)
      → IsExchanged s.http s.drawn target.provider client.0 client.1 s.redirect_uri s.rounds timeout
          (hint_of subject)
          w
          (done token, u)
        × (u.map ≡ w.map)
  unfolding token_for
  token_for-IsExchanged target subject timeout client w u token full c =
      let o : IsOurs s.http s.drawn target.provider client.0 client.1 s.redirect_uri s.rounds
          timeout (hint_of subject) w (done token, u) =
        subst
          (λ r.
            IsOurs s.http s.drawn target.provider client.0 client.1 s.redirect_uri s.rounds timeout
              (hint_of subject) w r)
          c
          (obtain-IsOurs s.http s.drawn target.provider client.0 client.1 s.redirect_uri s.rounds
            timeout (hint_of subject) w full) in
      (elim o.exchanged [ inl n ↦ absurd (n.1 token refl) | inr x ↦ x ], ap (λ v. v.map) o.rest)

  store-Rewritten :
      (target : ConsentTarget) (subject : String) (client : String × Option String) (token : String)
      (u w' : World T) (g : Granted)
      → store s target subject client token u ≡ (done g, w')
      → Rewritten s.process
          (with_values subject (values_of target.names (granted_of token client.0 client.1) []))
          (record u { map = s.meanwhile u.map })
          w'
  unfolding store
  store-Rewritten target subject client token u w' g k =
      let values = values_of target.names (granted_of token client.0 client.1) [] in
      let v : World T = record u { map = s.meanwhile u.map } in
      let (_, t, c, r) = and_then-eq-done (upsert_subject s.process subject values v) _ k in
      subst (λ x. Rewritten s.process (with_values subject values) v x)
        (ap (λ x. x.1) c ∙ ap (λ x. x.1) r)
        ((upsert_subject-IsRewrite s.process subject values v).complete tt refl (ap (λ x. x.0) c))

  pub grant-IsGrant :
      (e : RegistryEntry) (subject : String) (options : Options) (timeout : ℕ) (w w' : World T)
      (g : Granted)
      → is_empty s.drawn.state ≡ false
      → grant s e subject options timeout w ≡ (done g, w')
      → IsGrant e subject options timeout w w' g
  unfolding grant
  grant-IsGrant e subject options timeout w w' g full h =
      let (_, _, h0) =
        lift-eq-done (check (not (is_empty subject)) (axi (bare usage_error))) _ w h in
      let (target, resolved, h1) =
        lift-eq-done (resolve_target e options.identity_map s.default_map) _ w h0 in
      let (_, _, h2) = quiet-eq-done (check_writable w) _ w (check_writable-quiet w) h1 in
      let (client, credentials, h3) =
        lift-eq-done (client_credentials s.at e target.provider options) _ w h2 in
      stored target client resolved credentials
        (and_then-eq-done (token_for s target subject timeout client w) _ h3)
    where
      stored :
          (target : ConsentTarget) (client : String × Option String)
          → resolve_target e options.identity_map s.default_map ≡ ok target
          → client_credentials s.at e target.provider options ≡ ok client
          → (token : String) × (u : World T) × (token_for s target subject timeout client w
              ≡ (done token, u))
            × (store s target subject client token u ≡ (done g, w'))
          → IsGrant e subject options timeout w w' g
      stored target client resolved credentials (token, u, c, k) =
          let (x, same) = token_for-IsExchanged target subject timeout client w u token full c in
          record {
            target = target;
            id = client.0;
            secret = client.1;
            token = token;
            exchanged_in = u;
            resolved = resolved;
            client = credentials;
            ours = x;
            same_map = same;
            kept = store-Rewritten target subject client token u w' g k;
          }
