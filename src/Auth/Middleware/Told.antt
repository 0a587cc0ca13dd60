-- ===== src/Auth/Middleware/Told.antt =====
-- What a client is told of an expired token.
use beherouter.Prelude.{
  ℕ, String, ◌≡◌, refl, ap, Bool, true, false, not, Option, List, [], ◌∷◌, ◌++◌, map, elem, select,
  all, ◌===◌, if◌then◌else◌, arith, eq_iff, Bool-cases, inl, inr,
}
use mathlib.Core.List.{append-nil}
use beherouter.Auth.Middleware.{
  Message, start, body, other, rewrite, rewritten, is_told, send, send_all, expired_body, challenge,
  joined, metadata_in,
}

select-append :
    {A : Type 0} (p : A → Bool) (xs ys : List A) → select p (xs ++ ys) ≡ select p xs ++ select p ys
select-append p [] ys = refl
select-append p (x ∷ xs) ys = ground (arith, select-append p xs ys)

module _ (lower : String → String) where
  -- The headers that the answer replaces.
  abbrev pub is_replaced : String × String → Bool
  is_replaced h = elem (lower h.0) ("www-authenticate" ∷ "content-length" ∷ "content-type" ∷ [])

  abbrev pub is_kept : String × String → Bool
  is_kept h = not (is_replaced h)

  -- A message that the middleware passes on: no answer for an expired token begins with it.
  abbrev pub passes : Option String × Message → Bool
  passes (r, start status headers) = not (is_told r status)
  passes (r, _) = true

  abbrev pub is_body : Option String × Message → Bool
  is_body (r, body _) = true
  is_body (r, _) = false

  send_all-passes :
      (ms : List (Option String × Message))
      → all passes ms ≡ true
      → send_all lower false ms ≡ map (λ p. p.1) ms
  unfolding send_all send
  send_all-passes [] h = refl
  send_all-passes ((r, start status headers) ∷ ms) h = elim (Bool-cases (is_told r status)) [
    | inl e ↦ absurd (ground (arith, e, h))
    | inr e ↦ rw e (ap (λ l. start status headers ∷ l) (send_all-passes ms (ground (arith, e, h))))
  ]
  send_all-passes ((r, body b) ∷ ms) h = ap (λ l. body b ∷ l) (send_all-passes ms h)
  send_all-passes ((r, other) ∷ ms) h = ap (λ l. other ∷ l) (send_all-passes ms h)

  send_all-bodies :
      (ms : List (Option String × Message)) → all is_body ms ≡ true → send_all lower true ms ≡ []
  unfolding send_all send
  send_all-bodies [] h = refl
  send_all-bodies ((r, body b) ∷ ms) h = send_all-bodies ms h
  send_all-bodies ((r, start status headers) ∷ ms) h = cc
  send_all-bodies ((r, other) ∷ ms) h = cc

  rewrite-kept :
      (headers : List (String × String)) (c : String)
      → (rewrite lower headers c).1 ≡ select is_kept headers
  unfolding rewrite
  rewrite-kept [] c = refl
  rewrite-kept ((name, value) ∷ headers) c = ground (
    arith,
    rewrite-kept headers
        (if lower name === "www-authenticate" then joined (metadata_in value) c else c),
    eq_iff (lower name) "www-authenticate",
    eq_iff "www-authenticate" (lower name),
  )

  select-kept :
      (headers : List (String × String))
      → select is_kept (select is_kept headers) ≡ select is_kept headers
  select-kept [] = refl
  select-kept (h ∷ headers) = elim (Bool-cases (is_replaced h)) [
    | inl e ↦ rw e (select-kept headers)
    | inr e ↦ rw e (rw e (ap (λ l. h ∷ l) (select-kept headers)))
  ]

  none_replaced :
      (headers : List (String × String)) → select is_replaced (select is_kept headers) ≡ []
  none_replaced [] = refl
  none_replaced (h ∷ headers) = elim (Bool-cases (is_replaced h)) [
    | inl e ↦ rw e (none_replaced headers)
    | inr e ↦ rw e (rw e (none_replaced headers))
  ]

  abbrev pub new_headers : String → List (String × String)
  new_headers c =
      ("www-authenticate", c) ∷ ("content-type", "application/json") ∷ ("content-length", "64") ∷ []

  rewritten-parts :
      (headers : List (String × String))
      → (lower "www-authenticate" ≡ "www-authenticate")
      → (lower "content-type" ≡ "content-type")
      → (lower "content-length" ≡ "content-length")
      → (select is_kept (rewritten lower headers) ≡ select is_kept headers)
        × (select is_replaced (rewritten lower headers)
            ≡ new_headers (rewrite lower headers challenge).0)
  rewritten-parts headers a b c =
      rw
        (
          rewrite-kept headers challenge,
          select-append is_kept,
          select-append is_replaced,
          select-kept headers,
          none_replaced headers,
          a,
          b,
          c,
        )
        (append-nil (select is_kept headers), refl)

  -- The answer for an expired token, a 401 with its body, is sent as one 401 with the body that
  -- says so and nothing more: with one header each for the challenge, the type and the length of
  -- that body, and every other header as it was. Messages among which no 401 begins while the
  -- reason is an expired token are sent as they are. Those three headers' names are taken to be
  -- their own lower case.
  pub send_all-IsTold :
      (lower "www-authenticate" ≡ "www-authenticate")
      → (lower "content-type" ≡ "content-type")
      → (lower "content-length" ≡ "content-length")
      → ((ms : List (Option String × Message))
          → all passes ms ≡ true
          → send_all lower false ms ≡ map (λ p. p.1) ms)
        × ((r : Option String) (status : ℕ) (headers : List (String × String))
              (ms : List (Option String × Message))
            → is_told r status ≡ true
            → all is_body ms ≡ true
            → (h : List (String × String)) × (send_all lower false ((r, start status headers) ∷ ms)
                ≡ start status h ∷ body expired_body ∷ [])
              × (select is_kept h ≡ select is_kept headers)
              × (select is_replaced h ≡ new_headers (rewrite lower headers challenge).0))
  unfolding send_all send
  send_all-IsTold a b c = (
    send_all-passes,
    λ r status headers ms e bodies.
        let (kept, new) = rewritten-parts headers a b c in
        (
          rewritten lower headers,
          rw e (
              ap (λ l. start status (rewritten lower headers) ∷ body expired_body ∷ l)
                (send_all-bodies ms bodies)),
          kept,
          new,
        ),
  )
