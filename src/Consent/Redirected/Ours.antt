-- ===== src/Consent/Redirected/Ours.antt =====
-- A grant's code: whose redirect it comes from, and where it goes.
use beherouter.Prelude.{
  ℕ, String, ◌≡◌, ◌≢◌, refl, false, Option, none, some, List, [], ◌∷◌, ◌++◌, Dict, lookup, has,
  is_empty, eq_iff, ◌⊎◌, inl, inr, arith, Option-cases,
}
use beherouter.Errors.{Result, ok, raise}
use beherouter.Digest.{compare_digest}
use beherouter.Consent.{ConsentProvider, google, microsoft}
use beherouter.Consent.Disk.{Toml, World, Ended, done, and_then, lift, Url}
use beherouter.Consent.Code.{
  Drawn, Round, Http, wait, waited, code_of, code_form, read_answer, exchange_code, authorize_url,
  obtain_refresh_token,
}

-- A redirect's code is worth something only if the redirect carries the state, and no error.
code_of-eq_ok :
    (state : String) (params : Dict String) (c : String)
    → is_empty state ≡ false
    → code_of state params ≡ ok c
    → (lookup "state" params ≡ some state)
      × (has "error" params ≡ false)
      × (lookup "code" params ≡ some c)
unfolding code_of compare_digest
code_of-eq_ok state params c full h = elim (Option-cases (lookup "state" params)) [
  | inl e ↦ absurd (ground (arith, h, e, full, eq_iff "" state, eq_iff state ""))
  | inr (s, e) ↦ (ground (arith, h, e, eq_iff s state), ground (arith, h), ground (arith, h))
]

module _ (http : Http) (drawn : Drawn) (provider : ConsentProvider) (client_id : String)
    (secret : Option String) (redirect_uri : String) (rounds : List Round) (timeout : ℕ)
    (hint : Option String) where
  abbrev pub url : Url
  url = authorize_url provider client_id redirect_uri drawn.state (drawn.s256 drawn.verifier) hint

  abbrev pub form : String → Dict String
  form c = code_form provider c drawn.verifier redirect_uri client_id secret

  -- What ties the code to this run: the browser is sent with the challenge of the verifier, which goes
  -- out with the code, and both requests name the same redirect URI and client.
  pub record IsBound : Type 0 where
    pub shown :
        (lookup "code_challenge" url.params ≡ some (drawn.s256 drawn.verifier))
        × (lookup "state" url.params ≡ some drawn.state)
        × (lookup "redirect_uri" url.params ≡ some redirect_uri)
        × (lookup "client_id" url.params ≡ some client_id)
    pub posted :
        (c : String)
        → (lookup "code_verifier" (form c) ≡ some drawn.verifier)
          × (lookup "code" (form c) ≡ some c)
          × (lookup "redirect_uri" (form c) ≡ some redirect_uri)
          × (lookup "client_id" (form c) ≡ some client_id)

  abbrev pub IsKnown : ConsentProvider → Type 0
  IsKnown p = (p ≡ google) ⊎ (p ≡ microsoft)

  module _ {T : Toml} where
    -- One form went out, to the provider's token endpoint, for a redirect that carried the state that the
    -- browser was sent with and no error. A token is what that endpoint answered.
    pub record IsExchanged (w : World T) (r : Ended String × World T) : Type 0 where
      pub params : Dict String
      pub redirect_code : String
      pub redirected : wait timeout rounds [] ≡ some (ok params)
      pub ours : lookup "state" params ≡ some drawn.state
      pub consented : has "error" params ≡ false
      pub carried : lookup "code" params ≡ some redirect_code
      pub sent : r.1.posted ≡ w.posted ++ ((provider.token_url, form redirect_code) ∷ [])
      pub answered :
          (token : String)
          → r.0 ≡ done token
          → read_answer (http provider.token_url (form redirect_code)) ≡ ok token

    pub record IsOurs (w : World T) (r : Ended String × World T) : Type 0 where
      pub rest : r.1 ≡ record w { shown = w.shown ++ (url ∷ []); posted = r.1.posted }
      pub exchanged :
          (r.1.posted ≡ w.posted) × ((token : String) → r.0 ≢ done token) ⊎ IsExchanged w r

    obtain : World T → Ended String × World T
    obtain =
        obtain_refresh_token http drawn provider client_id secret redirect_uri rounds timeout hint

    -- The world once the browser has been sent.
    abbrev sent_browser : World T → World T
    sent_browser w = record w { shown = w.shown ++ (url ∷ []) }

    exchange_cases :
        (w : World T) (params : Dict String) (c : String)
        → wait timeout rounds [] ≡ some (ok params)
        → (lookup "state" params ≡ some drawn.state)
          × (has "error" params ≡ false)
          × (lookup "code" params ≡ some c)
        → (a : Result String) → read_answer (http provider.token_url (form c)) ≡ a
        → IsOurs w (
            lift a (record (sent_browser w) {
              posted = w.posted ++ ((provider.token_url, form c) ∷ []);
            }))
    exchange_cases w params c e (o, n, k) (ok t) h = record {
      rest = refl;
      exchanged = inr (record {
        params = params;
        redirect_code = c;
        redirected = e;
        ours = o;
        consented = n;
        carried = k;
        sent = refl;
        answered = λ u d. cc (h, d);
      });
    }
    exchange_cases w params c e (o, n, k) (raise x) h = record {
      rest = refl;
      exchanged = inr (record {
        params = params;
        redirect_code = c;
        redirected = e;
        ours = o;
        consented = n;
        carried = k;
        sent = refl;
        answered = λ t d. cc;
      });
    }

    code_cases :
        (w : World T) (params : Dict String)
        → is_empty drawn.state ≡ false
        → wait timeout rounds [] ≡ some (ok params)
        → (r : Result String) → code_of drawn.state params ≡ r
        → IsOurs w (
            and_then
              (lift r (sent_browser w))
              (λ c. exchange_code http provider c drawn.verifier redirect_uri client_id secret))
    code_cases w params full e (raise x) h = record {
      rest = refl;
      exchanged = inl (refl, λ t k. cc);
    }
    code_cases w params full e (ok c) h =
        unfold exchange_code in
        exchange_cases w params c e (code_of-eq_ok drawn.state params c full h) _ refl

    redirect_cases :
        (w : World T)
        → is_empty drawn.state ≡ false
        → (o : Option (Result (Dict String))) → wait timeout rounds [] ≡ o
        → IsOurs w (
            and_then (waited o (sent_browser w)) (λ params u.
              and_then
                (lift (code_of drawn.state params) u)
                (λ c. exchange_code http provider c drawn.verifier redirect_uri client_id secret)))
    redirect_cases w full none e = record { rest = refl; exchanged = inl (refl, λ t h. cc) }
    redirect_cases w full (some (raise x)) e = record {
      rest = refl;
      exchanged = inl (refl, λ t h. cc);
    }
    redirect_cases w full (some (ok params)) e =
        code_cases w params full e (code_of drawn.state params) refl

    pub obtain-IsOurs :
        (w : World T)
        → is_empty drawn.state ≡ false
        → IsOurs w (
            obtain_refresh_token http drawn provider client_id secret redirect_uri rounds timeout
              hint w)
    unfolding obtain_refresh_token
    obtain-IsOurs w full = redirect_cases w full (wait timeout rounds []) refl

  url-IsBound : IsKnown provider → IsBound
  unfolding authorize_url code_form
  url-IsBound known = record {
    shown = elim known [ inl e ↦ rw e (ground arith) | inr e ↦ rw e (ground arith) ];
    posted = λ c. ground arith;
  }

  -- At most one form goes out in a grant whose drawn state is not empty, to the provider's token
  -- endpoint, and only for a redirect that carries the state the browser was sent with, a code
  -- and no error; a token is what that endpoint answers. For both providers the browser is sent
  -- with the challenge of the verifier that goes out with the code, and both requests name the
  -- same redirect URI and client.
  pub obtain_refresh_token-IsBound :
      {T : Toml} (w : World T)
      → is_empty drawn.state ≡ false
      → IsKnown provider
      → IsBound
        × IsOurs w (
            obtain_refresh_token http drawn provider client_id secret redirect_uri rounds timeout
              hint w)
  obtain_refresh_token-IsBound w full known = (url-IsBound known, obtain-IsOurs w full)
