-- ===== src/Consent/Redirected.antt =====
-- The redirect that a grant waits for, and what its code is exchanged for.
pub mod Ours
use beherouter.Prelude.{
  ℕ, String, ◌≡◌, ◌≢◌, refl, ap, sym, ◌∙◌, Bool, true, false, not, ◌&&◌, ◌||◌, Option, none, some,
  List, [], ◌∷◌, ◌++◌, Dict, lookup, has, put, is_nil, leb, ltb, ◌<◌, ◌≤◌, ◌===◌, eq_iff, ◌⊎◌, inl,
  inr, arith, lookup-put, if◌then◌else◌, Bool-cases, Option-cases, subst,
}
use beherouter.Errors.{Exc, Result, ok, raise, fail, unavailable, Result-cases}
use beherouter.Consent.{ConsentProvider}
use beherouter.Consent.Disk.{Toml, World, Action, Ended, done, threw, cut, and_then, lift, Url}
use beherouter.Consent.Code.{
  Drawn, Request, Round, Http, Answer, do_get, wait, code_of, code_form, read_answer, exchange_code,
  authorize_url, obtain_refresh_token, text_at, put_texts, after_round,
}

-- A redirect as the listener takes it: at its root, with a code or an error.
abbrev pub is_redirect : Request → Bool
is_redirect r = (r.path === "/") && (has "code" r.query || has "error" r.query)

-- A round that the listener waits through: no redirect comes, and there is time left.
abbrev pub IsQuiet : ℕ → Round → Type 0
IsQuiet deadline round =
    (round.now < deadline) × ((r : Request) → round.request ≡ some r → is_redirect r ≡ false)

abbrev pub AllQuiet : ℕ → List Round → Type 0
AllQuiet deadline [] = Unit
AllQuiet deadline (round ∷ rounds) = IsQuiet deadline round × AllQuiet deadline rounds

has-put_texts : (k : String) (q d : Dict String) → has k (put_texts q d) ≡ (has k q || has k d)
has-put_texts k [] d = refl
has-put_texts k ((j, v) ∷ q) d = ground (arith, has-put_texts k q (put j v d), lookup-put j k v d)

quiet_round : (deadline : ℕ) (round : Round) → IsQuiet deadline round → after_round round [] ≡ []
unfolding do_get
quiet_round deadline round (_, h) = elim (Option-cases round.request) [
  | inl e ↦ rw e refl
  | inr (r, e) ↦ rw (e, do_get) (ground (arith, h r e))
]

has-nonempty : (k : String) (d : Dict String) → has k d ≡ true → is_nil d ≡ false
has-nonempty k [] h = cc
has-nonempty k (_ ∷ d) h = refl

redirect-nonempty : (r : Request) → is_redirect r ≡ true → is_nil (put_texts r.query []) ≡ false
redirect-nonempty r t = elim (Bool-cases (has "code" r.query)) [
  | inl h ↦ has-nonempty "code" _ (has-put_texts "code" r.query [] ∙ rw h refl)
  | inr h ↦ has-nonempty "error" _ (has-put_texts "error" r.query [] ∙ ground (arith, t, h))
]

taken :
    (round : Round) (r : Request)
    → round.request ≡ some r
    → is_redirect r ≡ true
    → after_round round [] ≡ put_texts r.query []
unfolding do_get
taken round r s t = rw (s, do_get) (ground (arith, t))

wait_received :
    (deadline : ℕ) (rounds : List Round) (received : Dict String)
    → is_nil received ≡ false
    → wait deadline rounds received ≡ some (ok received)
unfolding wait
wait_received deadline [] received h = rw h refl
wait_received deadline (round ∷ rounds) received h = rw h refl

-- After rounds in which no redirect came, the listener answers with the one that comes before the
-- deadline, whatever comes behind it, and gives up once the deadline has passed.
pub wait-first :
    (deadline : ℕ) (before : List Round) (round : Round) (after : List Round)
    → AllQuiet deadline before
    → ((r : Request)
        → round.request ≡ some r
        → is_redirect r ≡ true
        → round.now < deadline
        → wait deadline (before ++ (round ∷ after)) [] ≡ some (ok (put_texts r.query [])))
      × (deadline ≤ round.now
          → wait deadline (before ++ (round ∷ after)) [] ≡ some (fail unavailable))
unfolding wait do_get
wait-first deadline [] round after q = (
  λ r s t h.
      rw
        (
          taken round r s t,
          wait_received deadline after (put_texts r.query []) (redirect-nonempty r t),
        )
        (ground (arith, h)),
  λ h. ground (arith, h),
)
wait-first deadline (quiet ∷ before) round after (q, qs) =
    let ih = wait-first deadline before round after qs in
    let e = quiet_round deadline quiet q in
    (λ r s t h. rw e (ground (arith, q.0, ih.0 r s t h)), λ h. rw e (ground (arith, q.0, ih.1 h)))
