-- ===== src/Admin/Actor.antt =====
-- Who an admin is, and what anyone else can do.
use beherouter.Prelude.{
  ℕ, String, ◌≡◌, refl, ◌⊎◌, inl, inr, Bool, true, false, not, ◌&&◌, Option, none, some, [], ◌∷◌,
  arith, eq_iff, is_empty, ◌===◌, Bool-cases, Option-cases, ap, sym, ◌∙◌,
}
use beherouter.Errors.{Exc, Result, ok, raise, ◌>>=◌, Result-cases, >>=-eq-ok}
use beherouter.Digest.{is_ascii, compare_digest}
use beherouter.Auth.{token_ok}
use beherouter.Identity.{check_roles}
use beherouter.Identity.Request.{AccessToken, shared_client_id, identity_from_token}
use beherouter.Admin.{
  AdminAuth, Request, Site, token_actor, refused_actor, name_or, verified, by_role, actor_if,
  actor_of, Action, Answer, problem, World, Setup, write_as, write,
}

-- The two ways to be an admin: by the admin token, or by a user's token that has the admin role.
pub data IsAdmin (site : Site) (admin : AdminAuth) (cred : String) : String → Type 0 where
  by_token : {a : String} → admin.token ≡ some cred → a ≡ token_actor → IsAdmin site admin cred a
  by_user :
      {a role : String} {found : AccessToken}
      → admin.role ≡ some role
      → site.verify cred ≡ ok (some found)
      → (found.client_id === shared_client_id) ≡ false
      → check_roles site.host
          (role ∷ [])
          site.roles_claim
          (identity_from_token site.host found []).claims
        ≡ ok tt
      → a ≡ name_or "<unknown-subject>" (identity_from_token site.host found []).subject
      → IsAdmin site admin cred a

by_role-IsAdmin :
    (site : Site) (admin : AdminAuth) (cred a role : String) (o : Option AccessToken)
    → admin.role ≡ some role
    → site.verify cred ≡ ok o
    → verified site role o ≡ inr a
    → IsAdmin site admin cred a
by_role-IsAdmin site admin cred a role none e v h = cc
by_role-IsAdmin site admin cred a role (some found) e v h =
    elim (Bool-cases (found.client_id === shared_client_id)) [
      | inl shared ↦ absurd (ground (arith, h, shared))
      | inr user ↦
          elim (Result-cases (
            check_roles site.host (role ∷ []) site.roles_claim
              (identity_from_token site.host found []).claims)) [
                | inl (_, granted) ↦
                    by_user e v user (ground (arith, granted)) (ground (arith, h, user, granted))
                | inr (x, refused) ↦ absurd (ground (arith, h, user, refused))
              ]
    ]

by_role-eq-ok :
    (site : Site) (admin : AdminAuth) (cred a : String) (role : Option String)
    → admin.role ≡ role
    → by_role site role cred ≡ ok (inr a)
    → IsAdmin site admin cred a
by_role-eq-ok site admin cred a none e h = cc
by_role-eq-ok site admin cred a (some role) e h =
    let (o, v, h') = >>=-eq-ok (site.verify cred) (λ found. ok (verified site role found)) h in
    by_role-IsAdmin site admin cred a role o e v (ground arith)

token_ok-eq : (t : Option String) (c : String) → token_ok t c ≡ ok true → t ≡ some c
unfolding token_ok compare_digest
token_ok-eq none c h = cc
token_ok-eq (some t) c h = ground (arith, eq_iff t c)

-- The credential of a request that goes on to be looked at.
abbrev is_bearer : Site → Request → Bool
is_bearer site r = (site.host.lower r.scheme === "bearer") && not (is_empty r.credential)

pub actor_of-IsAdmin :
    (site : Site) (admin : AdminAuth) (r : Request) (a : String)
    → actor_of site admin r ≡ ok (inr a)
    → (site.host.lower r.scheme ≡ "bearer")
      × (is_empty r.credential ≡ false)
      × IsAdmin site admin r.credential a
unfolding actor_of
actor_of-IsAdmin site admin r a h =
    let b : is_bearer site r ≡ true = ground arith in
    let h₁ : (token_ok admin.token r.credential >>= actor_if site admin r.credential) ≡ ok (inr a) =
      ground arith in
    let (same, t, h₂) =
      >>=-eq-ok (token_ok admin.token r.credential) (actor_if site admin r.credential) h₁ in
    (
      ground (arith, b, eq_iff (site.host.lower r.scheme) "bearer"),
      ground (arith, b),
      of_token same t h₂,
    )
  where
    of_token :
        (same : Bool)
        → token_ok admin.token r.credential ≡ ok same
        → actor_if site admin r.credential same ≡ ok (inr a)
        → IsAdmin site admin r.credential a
    of_token true t h = by_token (token_ok-eq admin.token r.credential t) (ground arith)
    of_token false t h = by_role-eq-ok site admin r.credential a admin.role refl h

-- What ends the check of a credential without an answer: the admin token or the credential is not
-- ASCII, so that they cannot be compared, or the verifier raises.
pub data IsUnchecked (site : Site) (admin : AdminAuth) (cred : String) (e : Exc) : Type 0 where
  not_ascii :
      (token : String)
      → admin.token ≡ some token
      → (is_ascii token && is_ascii cred) ≡ false
      → IsUnchecked site admin cred e
  unverified : site.verify cred ≡ raise e → IsUnchecked site admin cred e

token_ok-raise :
    (t : Option String) (c : String) (e : Exc)
    → token_ok t c ≡ raise e
    → (token : String) × (t ≡ some token) × ((is_ascii token && is_ascii c) ≡ false)
unfolding token_ok compare_digest
token_ok-raise none c e h = cc
token_ok-raise (some t) c e h = (t, refl, ground arith)

by_role-raise :
    (site : Site) (role : Option String) (cred : String) (e : Exc)
    → by_role site role cred ≡ raise e
    → site.verify cred ≡ raise e
by_role-raise site none cred e h = cc
by_role-raise site (some role) cred e h = elim (Result-cases (site.verify cred)) [
  | inl (o, v) ↦ absurd (ground (arith, h, v))
  | inr (x, v) ↦ ground (arith, h, v)
]

pub actor_of-raise :
    (site : Site) (admin : AdminAuth) (r : Request) (e : Exc)
    → actor_of site admin r ≡ raise e
    → IsUnchecked site admin r.credential e
unfolding actor_of
actor_of-raise site admin r e h =
    let h₁ : (token_ok admin.token r.credential >>= actor_if site admin r.credential) ≡ raise e =
      ground arith in
    elim (Result-cases (token_ok admin.token r.credential)) [
      | inl (same, t) ↦
          unverified (of_token same (ap (λ m. m >>= actor_if site admin r.credential) (sym t) ∙ h₁))
      | inr (x, t) ↦
          let (token, is_token, odd) = token_ok-raise admin.token r.credential x t in
          not_ascii token is_token odd
    ]
  where
    of_token :
        (same : Bool)
        → actor_if site admin r.credential same ≡ raise e
        → site.verify r.credential ≡ raise e
    of_token true h = cc
    of_token false h = by_role-raise site admin.role r.credential e h

-- A refusal: it is answered, recorded under no name, and changes nothing.
pub record IsRefused (action : Action) (w : World) (answer : Result Answer) (w' : World)
    : Type 0 where
  pub status : ℕ
  pub answered : answer ≡ ok (problem status)
  pub denied : (status ≡ 401) ⊎ (status ≡ 403)
  pub same_file : w'.file ≡ w.file
  pub same_switch : w'.switch ≡ w.switch
  pub one_line :
      w'.lines
      ≡ record { action = action; target = "-"; actor = refused_actor; outcome = "refused" }
        ∷ w.lines

actor_if-status :
    (site : Site) (admin : AdminAuth) (cred : String) (same : Bool) (n : ℕ)
    → actor_if site admin cred same ≡ ok (inl n)
    → (n ≡ 401) ⊎ (n ≡ 403)
actor_if-status site admin cred true n h = cc
actor_if-status site admin cred false n h = of_role admin.role h
  where
    of_role : (role : Option String) → by_role site role cred ≡ ok (inl n) → (n ≡ 401) ⊎ (n ≡ 403)
    of_role none h = ground arith
    of_role (some role) h =
        let (o, _, h') = >>=-eq-ok (site.verify cred) (λ found. ok (verified site role found)) h in
        elim (Option-cases o) [
          | inl x ↦ ground (arith, h', x)
          | inr (found, x) ↦ ground (arith, h', x)
        ]

pub actor_of-status :
    (site : Site) (admin : AdminAuth) (r : Request) (n : ℕ)
    → actor_of site admin r ≡ ok (inl n)
    → (n ≡ 401) ⊎ (n ≡ 403)
unfolding actor_of
actor_of-status site admin r n h = elim (Bool-cases (is_bearer site r)) [
  | inl b ↦
      let h₁ : (token_ok admin.token r.credential >>= actor_if site admin r.credential)
          ≡ ok (inl n) =
        ground arith in
      let (same, _, h₂) =
        >>=-eq-ok (token_ok admin.token r.credential) (actor_if site admin r.credential) h₁ in
      actor_if-status site admin r.credential same n h₂
  | inr b ↦ ground arith
]

-- What becomes of a request that is not an admin's: it is refused, or the check of its credential
-- raises, which changes nothing and leaves no line.
abbrev pub IsTurnedAway : Setup → Action → Request → World → Result Answer → World → Type 0
IsTurnedAway s action r w answer w' =
    IsRefused action w answer w'
    ⊎ ((e : Exc) × (answer ≡ raise e) × (w' ≡ w) × IsUnchecked s.site s.admin r.credential e)

-- A request that changes the kill switch comes from an admin: it bears the scheme "bearer" and a
-- credential that is the admin token, or that the verifier takes for a user's token, not the clients'
-- shared one, with the admin role. Any other is answered 401 or 403, leaves the file and the cached
-- state as they are, and one line that names neither a target nor an actor; or it ends in an error,
-- with no change and no line, and then the admin token or the credential is not ASCII, or the verifier
-- has raised that error.
pub write-IsRefused :
    (s : Setup) (action : Action) (r : Request) (w : World)
    → ((a : String) × (s.site.host.lower r.scheme ≡ "bearer")
        × (is_empty r.credential ≡ false)
        × IsAdmin s.site s.admin r.credential a)
      ⊎ IsTurnedAway s action r w (write s action r w).0 (write s action r w).1
unfolding write
write-IsRefused s action r w = answered (actor_of s.site s.admin r) refl
  where
    answered :
        (x : Result (ℕ ⊎ String))
        → actor_of s.site s.admin r ≡ x
        → ((a : String) × (s.site.host.lower r.scheme ≡ "bearer")
            × (is_empty r.credential ≡ false)
            × IsAdmin s.site s.admin r.credential a)
          ⊎ IsTurnedAway s action r w (write_as s action r x w).0 (write_as s action r x w).1
    answered (ok (inr a)) e =
        let (b, c, i) = actor_of-IsAdmin s.site s.admin r a e in inl (a, b, c, i)
    answered (ok (inl n)) e = inr (
        inl (record {
          status = n;
          answered = refl;
          denied = actor_of-status s.site s.admin r n e;
          same_file = refl;
          same_switch = refl;
          one_line = refl;
        }))
    answered (raise x) e = inr (inr (x, refl, refl, actor_of-raise s.site s.admin r x e))
