-- ===== src/Admin/Stops.antt =====
-- A stop or a block that an admin asked for holds from then on.
use beherouter.Prelude.{
  String, ◌≡◌, refl, sym, ap, ◌∙◌, ◌⊎◌, inl, inr, true, false, some, [], ◌∷◌, Dict, lookup, has,
  put, lookup-put, eq_refl, eq_iff, Bool-cases, Option-cases, arith, is_some, is_empty,
}
use beherouter.Data.{Value, Fields, null, str, obj, get, to_dict, of_dict}
use beherouter.Errors.{Result, ok, raise, >>=-eq-ok}
use beherouter.Audit.{Caller}
use beherouter.KillSwitch.{KillState, parse_state, entry, disabled}
use beherouter.KillSwitch.Parsed.{parse_state-has}
use beherouter.KillSwitch.Cache.{File}
use beherouter.KillSwitch.Stage.{verdict, surface_disabled, caller_blocked}
use beherouter.KillSwitch.Write.{changed, IsWritten, changed-made, update-IsWritten}
use beherouter.Admin.{
  is_unknown, kind_of, table_at, Request, Action, disable_surface, block_subject, body_of,
  target_of, change_of, set_in, on_dict, text_of, actor_of, shown_as, Answer, World, Setup, write,
}

to_dict-of_dict : (d : Dict Value) → to_dict (of_dict d) ≡ d
to_dict-of_dict [] = refl
to_dict-of_dict ((k, v) ∷ d) = ap (λ r. (k, v) ∷ r) (to_dict-of_dict d)

-- What a change writes for a stop of one surface, or a block of one subject.
set_in-has :
    (kind name : String) (e : Fields) (raw new : Dict Value)
    → set_in kind name e raw ≡ ok new
    → (t : Fields) × (lookup kind new ≡ some (obj t)) × (has name (to_dict t) ≡ true)
set_in-has kind name e raw new h =
    let (t, _, h') = >>=-eq-ok (table_at (lookup kind raw)) _ h in
    let t' = put name (obj e) t in
    (
      of_dict t',
      ground (arith, lookup-put kind kind (obj (of_dict t')) raw, eq_refl kind),
      ground (arith, to_dict-of_dict t', lookup-put name name (obj e) t, eq_refl name),
    )

on_dict-eq-ok :
    (change : Dict Value → Result (Dict Value)) (raw new : Value)
    → on_dict change raw ≡ ok new
    → (d d' : Dict Value) × (change d ≡ ok d') × (new ≡ obj (of_dict d'))
on_dict-eq-ok change (obj fs) new h =
    let (d', e, h') = >>=-eq-ok (change (to_dict fs)) _ h in (to_dict fs, d', e, ground arith)
on_dict-eq-ok change null new h = cc
on_dict-eq-ok change (Value.bool b) new h = cc
on_dict-eq-ok change (Value.int n) new h = cc
on_dict-eq-ok change (Value.float x) new h = cc
on_dict-eq-ok change (str s) new h = cc
on_dict-eq-ok change (Value.arr xs) new h = cc

-- What is written for a stop of a surface parses to a state that has the stop; likewise for a block.
set_in-parses :
    (name : String) (e : Fields) (raw new : Value) (st : KillState)
    → parse_state new ≡ ok st
    → (on_dict (set_in "surfaces" name e) raw ≡ ok new → has name st.surfaces ≡ true)
      × (on_dict (set_in "subjects" name e) raw ≡ ok new → has name st.subjects ≡ true)
set_in-parses name e raw new st parses = (
  λ h.
      let (d, d', c, same) = on_dict-eq-ok (set_in "surfaces" name e) raw new h in
      let (t, at, member) = set_in-has "surfaces" name e d d' c in
      let p : parse_state (obj (of_dict d')) ≡ ok st = ap parse_state (sym same) ∙ parses in
      (parse_state-has (of_dict d') st name p).0 t
        (ap (λ f. lookup "surfaces" f) (to_dict-of_dict d') ∙ at)
      ∙ member,
  λ h.
      let (d, d', c, same) = on_dict-eq-ok (set_in "subjects" name e) raw new h in
      let (t, at, member) = set_in-has "subjects" name e d d' c in
      let p : parse_state (obj (of_dict d')) ≡ ok st = ap parse_state (sym same) ∙ parses in
      (parse_state-has (of_dict d') st name p).1 t
        (ap (λ f. lookup "subjects" f) (to_dict-of_dict d') ∙ at)
      ∙ member,
)

-- A request of an admin, with the change that it makes and a write that succeeds.
pub record IsAccepted (s : Setup) (action : Action) (r : Request) (w : World) (target : String)
    : Type 0 where
  pub actor : String
  pub is_actor : actor_of s.site s.admin r ≡ ok (inr actor)
  pub body : Dict Value
  pub is_body : body_of r ≡ some body
  pub is_target : target_of action r body ≡ some target
  pub shown : String
  pub is_shown : shown_as s.digest (kind_of action) target ≡ ok shown
  pub new : Value
  pub is_changed :
      changed w.file
        (change_of action target (entry s.site.now (text_of (get "reason" body)) actor))
      ≡ ok new
  pub file : File
  pub is_written : s.writer new ≡ ok file
  pub holds : IsWritten w.switch new file

-- The answer, and the state that the gateway has from then on.
pub record IsDone (s : Setup) (action : Action) (r : Request) (w : World) (st : KillState)
    : Type 0 where
  pub status : Answer
  pub answered : (write s action r w).0 ≡ ok status
  pub accepted : status.status ≡ 200
  pub told : status.state ≡ some st
  pub kept : (write s action r w).1.switch.good ≡ some st

accepted-IsDone :
    (s : Setup) (action : Action) (r : Request) (w : World) (target : String)
    (i : IsAccepted s action r w target)
    → (st : KillState) × (parse_state i.new ≡ ok st) × IsDone s action r w st
unfolding write
accepted-IsDone s action r w target i =
    let e = entry s.site.now (text_of (get "reason" i.body)) i.actor in
    let (st, parses, answer, good, _) =
      update-IsWritten w.switch w.file i.file (change_of action target e) s.writer i.new
        i.is_changed i.is_written i.holds in
    (
      st,
      parses,
      record {
        status = record {
          status = 200;
          state = some st;
          warning = is_unknown (kind_of action) target s.surfaces;
        };
        answered = rw (i.is_actor, i.is_body, i.is_target, i.is_shown, answer) refl;
        accepted = refl;
        told = refl;
        kept = rw (i.is_actor, i.is_body, i.is_target, i.is_shown, answer) good;
      },
    )

disabled-some :
    (st : KillState) (name : String)
    → has name st.surfaces ≡ true
    → (which : String) × (disabled st name ≡ some which)
unfolding disabled
disabled-some st name h = elim (Bool-cases (is_some st.all)) [
  | inl e ↦ ("all", rw e refl)
  | inr e ↦ ("surface", rw (e, h) refl)
]

refuses :
    (st : KillState) (surface : String) (c : Caller) (sub : String)
    → has sub st.subjects ≡ true
    → c.auth ≡ "oidc"
    → c.sub ≡ some sub
    → is_empty sub ≡ false
    → (verdict st surface c ≡ raise caller_blocked)
      ⊎ ((which : String) × (verdict st surface c ≡ raise (surface_disabled which)))
unfolding verdict
refuses st surface c sub member a b e = elim (Option-cases (disabled st surface)) [
  | inl free ↦ inl (ground (arith, free, member, a, b, e, eq_iff c.auth "oidc"))
  | inr (which, d) ↦ inr (which, rw (d, verdict) refl)
]

-- If an admin's request to stop a surface is written, it is answered with the new state, which the
-- gateway has from then on, and under which every caller of that surface is refused.
pub write-stops :
    (s : Setup) (r : Request) (w : World) (name : String)
    (i : IsAccepted s disable_surface r w name)
    → (st : KillState) × IsDone s disable_surface r w st
      × ((c : Caller) → (which : String) × (verdict st name c ≡ raise (surface_disabled which)))
unfolding change_of verdict
write-stops s r w name i =
    let (st, parses, done) = accepted-IsDone s disable_surface r w name i in
    let (raw, made) = changed-made w.file _ i.new i.is_changed in
    let (which, stopped) =
      disabled-some st name ((set_in-parses name _ raw i.new st parses).0 made) in
    (st, done, λ c. (which, rw (stopped, verdict) refl))

-- If an admin's request to block a subject is written, it is answered with the new state, which the
-- gateway has from then on, and under which a call of that verified user is refused on every surface:
-- as a blocked caller's, or because the surface is stopped.
pub write-blocks :
    (s : Setup) (r : Request) (w : World) (sub : String) (i : IsAccepted s block_subject r w sub)
    → (st : KillState) × IsDone s block_subject r w st
      × ((c : Caller) (surface : String)
          → c.auth ≡ "oidc"
          → c.sub ≡ some sub
          → is_empty sub ≡ false
          → (verdict st surface c ≡ raise caller_blocked)
            ⊎ ((which : String) × (verdict st surface c ≡ raise (surface_disabled which))))
unfolding change_of
write-blocks s r w sub i =
    let (st, parses, done) = accepted-IsDone s block_subject r w sub i in
    let (raw, made) = changed-made w.file _ i.new i.is_changed in
    let member = (set_in-parses sub _ raw i.new st parses).1 made in
    (st, done, λ c surface a b e. refuses st surface c sub member a b e)
