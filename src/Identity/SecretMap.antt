-- ===== src/Identity/SecretMap.antt =====
-- identity.py: `SecretMap`, the mounted file of the callers' credentials, cached under its stamp.
use beherouter.Prelude.{
  ℕ, String, ◌≡◌, Bool, true, false, ◌&&◌, Option, none, some, List, [], ◌∷◌, Dict, lookup, is_nil,
  arith, ◌==◌, if◌then◌else◌, Bool-cases, inl, inr, subst,
}
use beherouter.Data.{Value, obj, to_dict}
use beherouter.Errors.{
  Exc, Result, ok, raise, fail, unavailable, auth_error, os_error, value_error, Result-cases,
}
use beherouter.Identity.{Host}

pub record Stamp : Type 0 where
  pub mtime : ℕ
  pub size : ℕ

pub record SecretMap : Type 0 where
  pub stamp : Option Stamp
  pub content : Dict Value

abbrev pub new_map : SecretMap
new_map = record { stamp = none; content = [] }

abbrev pub same : Option Stamp → Stamp → Bool
same none s = false
same (some t) s = (t.mtime == s.mtime) && (t.size == s.size)

-- `except (OSError, TOMLDecodeError)` and `except OSError`; another exception is passed on.
abbrev is_caught : Exc → Bool
is_caught os_error = true
is_caught value_error = true
is_caught _ = false

abbrev turned : {A : Type 0} → Exc → Result A
turned e = if is_caught e then fail unavailable else raise e

abbrev parsed : Stamp → Result (Dict Value) → SecretMap → Result (Dict Value) × SecretMap
parsed s (raise e) m = (turned e, m)
parsed s (ok d) m = (ok d, record { stamp = some s; content = d })

-- `_load`, given what the stat and the parse of the file give.
unfoldable pub load :
    Result Stamp → Result (Dict Value) → SecretMap → Result (Dict Value) × SecretMap
load (raise os_error) content m = (fail unavailable, m)
load (raise e) content m = (raise e, m)
load (ok s) content m = if same m.stamp s then (ok m.content, m) else parsed s content m

abbrev pub shown : Host → Dict Value → Dict String
shown host [] = []
shown host ((k, v) ∷ d) = (k, host.show v) ∷ shown host d

abbrev pub entry_at : Host → Option Value → Result (Dict String)
entry_at host (some (obj fs)) =
    if is_nil (to_dict fs) then fail auth_error else ok (shown host (to_dict fs))
entry_at host _ = fail auth_error

-- `credentials_for`
unfoldable pub credentials_for :
    Host
    → String
    → Result Stamp
    → Result (Dict Value)
    → SecretMap
    → Result (Dict String) × SecretMap
unfolding load
credentials_for host key stat content m =
    let (r, m') = load stat content m in
    (elim r [ raise e ↦ raise e | ok d ↦ entry_at host (lookup key d) ], m')

-- What the file gives without a cache.
abbrev pub read_now : Result Stamp → Result (Dict Value) → Result (Dict Value)
read_now (raise os_error) content = fail unavailable
read_now (raise e) content = raise e
read_now (ok s) (raise e) = turned e
read_now (ok s) (ok d) = ok d

-- A request at a time when the stat gives this.
pub loads : (Stamp → Result (Dict Value)) → List (Result Stamp) → SecretMap → SecretMap
unfolding load
loads content [] m = m
loads content (raise e ∷ stats) m = loads content stats (load (raise e) (raise e) m).1
loads content (ok s ∷ stats) m = loads content stats (load (ok s) (content s) m).1

-- The cached content is the file's under the cached stamp.
IsCurrent : (Stamp → Result (Dict Value)) → SecretMap → Type 0
IsCurrent content m = (s : Stamp) → same m.stamp s ≡ true → content s ≡ ok m.content

same-eq : (s t : Stamp) → same (some t) s ≡ true → t ≡ s
same-eq s t h = ground arith

-- A request leaves the cache current, and answers what the file holds.
load-IsCurrent :
    (content : Stamp → Result (Dict Value)) (s : Stamp) (m : SecretMap)
    → IsCurrent content m
    → IsCurrent content (load (ok s) (content s) m).1
      × ((load (ok s) (content s) m).0 ≡ read_now (ok s) (content s))
unfolding load IsCurrent
load-IsCurrent content s m h = elim (Bool-cases (same m.stamp s)) [
  | inl e ↦ (λ t k. ground (arith, e, h t), ground (arith, e, h s))
  | inr e ↦ elim (Result-cases (content s)) [
    | inl (d, r) ↦ (
      λ t k.
          subst (λ u. content u ≡ ok (load (ok s) (content s) m).1.content)
            (same-eq t s (ground (arith, e, r))) (ground (arith, e, r)),
      ground (arith, e, r),
    )
    | inr (x, r) ↦ (λ t k. ground (arith, e, r, h t), ground (arith, e, r))
  ]
]

loads-IsCurrent :
    (content : Stamp → Result (Dict Value)) (stats : List (Result Stamp)) (m : SecretMap)
    → IsCurrent content m
    → IsCurrent content (loads content stats m)
unfolding loads load
loads-IsCurrent content [] m h = h
loads-IsCurrent content (raise e ∷ stats) m h = loads-IsCurrent content stats _ (unchanged e)
  where
    unchanged : (e : Exc) → IsCurrent content (load (raise e) (raise e) m).1
    unchanged os_error = h
    unchanged value_error = h
    unchanged Exc.type_error = h
    unchanged Exc.key_error = h
    unchanged Exc.timeout_error = h
    unchanged Exc.mcp_error = h
    unchanged Exc.runtime_error = h
    unchanged Exc.overflow_error = h
    unchanged Exc.cancelled = h
    unchanged (Exc.axi x) = h
loads-IsCurrent content (ok s ∷ stats) m h =
    loads-IsCurrent content stats _ (load-IsCurrent content s m h).0

-- The cache never shows: if a stamp stands for one content, then, after any requests at which the file
-- could be read or not, or was changed or not, a request at which its stat succeeds answers what
-- the file holds then, or fails as a reader without a cache does.
pub load-read_now :
    (content : Stamp → Result (Dict Value)) (stats : List (Result Stamp)) (s : Stamp)
    → (load (ok s) (content s) (loads content stats new_map)).0 ≡ read_now (ok s) (content s)
unfolding IsCurrent
load-read_now content stats s =
    (load-IsCurrent content s (loads content stats new_map)
      (loads-IsCurrent content stats new_map (λ t k. absurd (ground arith)))).1
