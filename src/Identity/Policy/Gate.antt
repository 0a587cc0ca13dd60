-- ===== src/Identity/Policy/Gate.antt =====
-- Who passes the gate of a surface.
use beherouter.Prelude.{
  String, ◌≡◌, refl, ◌↔◌, true, false, not, some, List, [], ◌∷◌, arith, elem, is_empty, is_nil,
  lookup, eq_iff, eq_refl, Option-cases, Bool-cases, inl, inr,
}
use beherouter.Data.{Value, Fields, to_dict}
use beherouter.Errors.{ok, check, bare, axi, auth_error, >>=-eq-ok, check-eq-ok}
use beherouter.Identity.{Host, RequestIdentity, claim_at, held_roles, check_roles, missing_of}
use beherouter.Identity.Policy.{
  IdentityPolicy, verified, when, gate, check_audience, audience_claim, meets,
}

abbrev pub Holds : List String → List String → Type 0
Holds required held = (r : String) → elem r required ≡ true → elem r held ≡ true

none_missing-Holds :
    (required held : List String) → missing_of required held ≡ [] → Holds required held
none_missing-Holds [] held e r h = cc
none_missing-Holds (x ∷ required) held e r h = elim (Bool-cases (elem x held)) [
  | inl here ↦
      let none_left : missing_of required held ≡ [] = ground arith in
      let rest : elem r required ≡ true → elem r held ≡ true =
        none_missing-Holds required held none_left r in
      ground (arith, eq_iff x r)
  | inr gone ↦ absurd (ground arith)
]

Holds-none_missing :
    (required held : List String) → Holds required held → missing_of required held ≡ []
Holds-none_missing [] held h = refl
Holds-none_missing (x ∷ required) held h =
    let here : elem x held ≡ true = h x (simp eq_refl) in
    rw here (Holds-none_missing required held (λ r k. h r (ground arith)))

module _ (host : Host) where
  -- The claim that the surface gates on is there, and holds every required role.
  pub record HasRoles (required : List String) (path : String) (claims : Fields) : Type 0 where
    pub configured : is_empty path ≡ false
    pub raw : Value
    pub present : claim_at claims path ≡ some raw
    pub held : List String
    pub read : held_roles host raw ≡ some held
    pub all_held : Holds required held

  check_roles-HasRoles :
      (required : List String) (path : String) (claims : Fields)
      → check_roles host required path claims ≡ ok tt
      → HasRoles required path claims
  unfolding check_roles
  check_roles-HasRoles required path claims h =
      let configured : is_empty path ≡ false = ground arith in
      elim (Option-cases (claim_at claims path)) [
        | inl absent ↦ absurd (ground arith)
        | inr (raw, present) ↦ elim (Option-cases (held_roles host raw)) [
          | inl odd ↦ absurd (ground arith)
          | inr (held, read) ↦ record {
            configured = configured;
            raw = raw;
            present = present;
            held = held;
            read = read;
            all_held = none_missing-Holds required held (ground arith);
          }
        ]
      ]

  HasRoles-check_roles :
      (required : List String) (path : String) (claims : Fields)
      → HasRoles required path claims
      → check_roles host required path claims ≡ ok tt
  unfolding check_roles
  HasRoles-check_roles required path claims h =
      ground (arith, Holds-none_missing required h.held h.all_held)

  -- The `aud` claim names one of the audiences of the surface.
  pub record HasAudience (p : IdentityPolicy) (req : RequestIdentity) : Type 0 where
    pub audience : List String
    pub read : audience_claim (lookup "aud" (to_dict req.claims)) ≡ ok audience
    pub met : meets audience p.audiences ≡ true

  pub record Passes (p : IdentityPolicy) (req : RequestIdentity) : Type 0 where
    pub caller_verified : verified req ≡ true
    pub addressed : is_nil p.audiences ≡ false → HasAudience p req
    pub permitted :
        is_nil p.require_roles ≡ false → HasRoles p.require_roles p.roles_claim req.claims

  check_audience-HasAudience :
      (p : IdentityPolicy) (req : RequestIdentity)
      → check_audience p req ≡ ok tt
      → HasAudience p req
  unfolding check_audience
  check_audience-HasAudience p req h =
      let (held, read, met) = >>=-eq-ok (audience_claim (lookup "aud" (to_dict req.claims))) _ h in
      record { audience = held; read = read; met = check-eq-ok _ _ met }

  HasAudience-check_audience :
      (p : IdentityPolicy) (req : RequestIdentity)
      → HasAudience p req
      → check_audience p req ≡ ok tt
  unfolding check_audience
  HasAudience-check_audience p req h = rw (h.read, h.met)

  gate-Passes :
      (p : IdentityPolicy) (req : RequestIdentity) → gate host p req ≡ ok tt → Passes p req
  unfolding gate
  gate-Passes p req h =
      let (_, is_verified, h₁) = >>=-eq-ok (check (verified req) (axi (bare auth_error))) _ h in
      let (_, audience, roles) =
        >>=-eq-ok (when (not (is_nil p.audiences)) (check_audience p req)) _ h₁ in
      record {
        caller_verified = check-eq-ok _ _ is_verified;
        addressed = λ e. check_audience-HasAudience p req (ground arith);
        permitted =
            λ e. check_roles-HasRoles p.require_roles p.roles_claim req.claims (ground arith);
      }

  Passes-gate :
      (p : IdentityPolicy) (req : RequestIdentity) → Passes p req → gate host p req ≡ ok tt
  unfolding gate
  Passes-gate p req h =
      let aud : is_nil p.audiences ≡ false → check_audience p req ≡ ok tt =
        λ e. HasAudience-check_audience p req (h.addressed e) in
      let roles : is_nil p.require_roles ≡ false
          → check_roles host p.require_roles p.roles_claim req.claims ≡ ok tt =
        λ e. HasRoles-check_roles p.require_roles p.roles_claim req.claims (h.permitted e) in
      ground (arith, h.caller_verified, aud, roles)

  -- A caller passes the gate of a surface exactly when a verifier knows them by a subject and not by
  -- the shared token, their token is addressed to one of the surface's audiences (if it names any),
  -- and the configured claim holds every role that the surface requires (if it requires any).
  pub gate-Passes_iff :
      (p : IdentityPolicy) (req : RequestIdentity) → (gate host p req ≡ ok tt) ↔ Passes p req
  gate-Passes_iff p req = (gate-Passes p req, Passes-gate p req)
