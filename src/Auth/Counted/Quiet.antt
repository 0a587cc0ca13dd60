-- ===== src/Auth/Counted/Quiet.antt =====
-- auth.py: what a verifier may do to the state of a request, and that each of them does no more.
use beherouter.Prelude.{
  String, ◌≡◌, refl, ap, ◌∙◌, subst, Bool, true, Option, none, some, List, [], ◌∷◌, elem, arith,
}
use beherouter.Errors.{ok, raise}
use beherouter.Auth.{
  Slot, AuthState, Verifier, Verdict, Jwt, or_next, noted, reason_of, log_line, log_all,
  shared_verifier, jwt_verifier, any_verifier,
}

-- auth.py: `REASONS`.
abbrev pub reasons : List String
reasons = "expired" ∷ "invalid" ∷ "issuer" ∷ "audience" ∷ "scope" ∷ []

abbrev pub is_known : Option String → Bool
is_known none = true
is_known (some r) = elem r reasons

-- What a verifier may do to the state of a request whose slot is open.
pub record IsQuiet (slot : Slot) (s s' : AuthState) : Type 0 where
  pub uncounted : s'.rejections ≡ s.rejections
  pub left :
      (slot' : Slot) × (s'.slot ≡ some slot')
      × (slot'.surface ≡ slot.surface)
      × (is_known slot'.reason ≡ true)

-- A verifier that counts nothing, keeps the surface of the slot and notes only known reasons.
abbrev pub AllQuiet : Verifier → Type 0
AllQuiet v =
    (token : String) (slot : Slot) (s : AuthState)
    → s.slot ≡ some slot
    → is_known slot.reason ≡ true
    → IsQuiet slot s (v token s).1

same-IsQuiet :
    (slot : Slot) (s : AuthState)
    → s.slot ≡ some slot
    → is_known slot.reason ≡ true
    → IsQuiet slot s s
same-IsQuiet slot s e k = record { uncounted = refl; left = (slot, e, refl, k) }

reason_of-known : (text : String) → is_known (reason_of text) ≡ true
unfolding reason_of
reason_of-known text = ground arith

log_line-IsQuiet :
    (line : Bool × String) (slot : Slot) (s : AuthState)
    → s.slot ≡ some slot
    → is_known slot.reason ≡ true
    → IsQuiet slot s (log_line line s)
log_line-IsQuiet (w, text) slot s e k = record {
  uncounted = unfold log_line in refl;
  left = noted_in (reason_of text) refl;
}
  where
    noted_in :
        (r : Option String)
        → reason_of text ≡ r
        → (slot' : Slot) × ((log_line (w, text) s).slot ≡ some slot')
          × (slot'.surface ≡ slot.surface)
          × (is_known slot'.reason ≡ true)
    noted_in none n =
        (slot, unfold log_line in (ap (λ o. noted o s.slot) n ∙ ap (noted none) e), refl, k)
    noted_in (some r) n = (
      record slot { reason = some r },
      unfold log_line in (ap (λ o. noted o s.slot) n ∙ ap (noted (some r)) e),
      refl,
      subst (λ o. is_known o ≡ true) n (reason_of-known text),
    )

-- One step after another.
then-IsQuiet :
    (slot : Slot) (s t : AuthState)
    → IsQuiet slot s t
    → (u : AuthState)
    → ((slot' : Slot) → t.slot ≡ some slot' → is_known slot'.reason ≡ true → IsQuiet slot' t u)
    → IsQuiet slot s u
then-IsQuiet slot s t q u next =
    let (slot', e, f, k) = q.left in
    let q' = next slot' e k in
    let (slot'', e', f', k') = q'.left in
    record { uncounted = q'.uncounted ∙ q.uncounted; left = (slot'', e', f' ∙ f, k') }

log_all-IsQuiet :
    (lines : List (Bool × String)) (slot : Slot) (s : AuthState)
    → s.slot ≡ some slot
    → is_known slot.reason ≡ true
    → IsQuiet slot s (log_all lines s)
log_all-IsQuiet [] slot s e k = same-IsQuiet slot s e k
log_all-IsQuiet (line ∷ lines) slot s e k =
    then-IsQuiet slot s (log_line line s) (log_line-IsQuiet line slot s e k) _
      (λ slot' e' k'. log_all-IsQuiet lines slot' (log_line line s) e' k')

pub shared-AllQuiet : (expected : Option String) → AllQuiet (shared_verifier expected)
unfolding shared_verifier
shared-AllQuiet expected token slot s e k = same-IsQuiet slot s e k

pub jwt-AllQuiet : (jwt : Jwt) → AllQuiet (jwt_verifier jwt)
unfolding jwt_verifier
jwt-AllQuiet jwt token slot s e k = log_all-IsQuiet (jwt.lines token) slot s e k

or_next-IsQuiet :
    (slot : Slot) (s : AuthState) (x : Verdict) (next : AuthState → Verdict)
    → IsQuiet slot s x.1
    → ((slot' : Slot)
        → x.1.slot ≡ some slot'
        → is_known slot'.reason ≡ true
        → IsQuiet slot' x.1 (next x.1).1)
    → IsQuiet slot s (or_next x next).1
or_next-IsQuiet slot s (ok none, t) next q h = then-IsQuiet slot s t q (next t).1 h
or_next-IsQuiet slot s (ok (some found), t) next q h = q
or_next-IsQuiet slot s (raise e, t) next q h = q

pub either-AllQuiet :
    (v u : Verifier) → AllQuiet v → AllQuiet u → AllQuiet (any_verifier (v ∷ u ∷ []))
unfolding any_verifier
either-AllQuiet v u q r token slot s e k =
    or_next-IsQuiet slot s (v token s) _ (q token slot s e k) (λ slot' e' k'.
      or_next-IsQuiet slot' (v token s).1 (u token (v token s).1) _
        (r token slot' (v token s).1 e' k') (λ slot'' e'' k''. same-IsQuiet slot'' _ e'' k''))
