-- ===== src/Admin/Lines.antt =====
-- The audit lines of the admin API.
use beherouter.Prelude.{ℕ, String, ◌≡◌, ◌⊎◌, false, ◌||◌, some, ◌∷◌, Dict}
use beherouter.Data.{Value, get}
use beherouter.Errors.{Exc, Result, ok, raise}
use beherouter.KillSwitch.{KillState, entry}
use beherouter.KillSwitch.Cache.{KillSwitch, File}
use beherouter.KillSwitch.Write.{update}
use beherouter.Admin.Actor.{IsUnchecked}
use beherouter.Admin.{
  subject, text_of, change_of, Request, Action, kind_of, target_of, body_of, shown_as, AdminLine,
  Answer, World, Setup, has_class, is_conflict, is_usage,
}

-- The status that goes with an outcome.
pub data Agrees : String → ℕ → Type 0 where
  granted : {o : String} {n : ℕ} → o ≡ "ok" → n ≡ 200 → Agrees o n
  refused : {o : String} {n : ℕ} → o ≡ "refused" → (n ≡ 401) ⊎ (n ≡ 403) → Agrees o n
  bad : {o : String} {n : ℕ} → o ≡ "bad_request" → n ≡ 400 → Agrees o n
  conflicting : {o : String} {n : ℕ} → o ≡ "conflict" → n ≡ 409 → Agrees o n

-- A target that is a subject is shown by nothing but its digest.
abbrev pub IsShown : (String → Result String) → Action → Request → String → Type 0
IsShown digest action r shown =
    (shown ≡ "-")
    ⊎ ((d : Dict Value) × (target : String) × (body_of r ≡ some d)
        × (target_of action r d ≡ some target)
        × (shown_as digest (kind_of action) target ≡ ok shown))

pub record IsAudited (s : Setup) (action : Action) (r : Request) (w : World)
    (answer : Result Answer) (w' : World) : Type 0 where
  pub line : AdminLine
  pub reply : Answer
  pub answered : answer ≡ ok reply
  pub one_line : w'.lines ≡ line ∷ w.lines
  pub of_action : line.action ≡ action
  pub agrees : Agrees line.outcome reply.status
  pub shown : IsShown s.digest action r line.target

-- What no handler of `write` catches: the check of the credential raises, or the digest of the subject,
-- both before anything is changed; or the change of the file, with an error that is neither a
-- `Conflict` nor a `UsageError`.
pub data IsUncaught (s : Setup) (action : Action) (r : Request) (w : World) (e : Exc) (w' : World)
    : Type 0 where
  unchecked : IsUnchecked s.site s.admin r.credential e → w' ≡ w → IsUncaught s action r w e w'
  no_digest :
      (target : String) (d : Dict Value)
      → body_of r ≡ some d
      → target_of action r d ≡ some target
      → kind_of action ≡ subject
      → s.digest target ≡ raise e
      → w' ≡ w
      → IsUncaught s action r w e w'
  unchanged :
      (actor target : String) (d : Dict Value)
      → body_of r ≡ some d
      → target_of action r d ≡ some target
      → (update w.switch w.file
          (change_of action target (entry s.site.now (text_of (get "reason" d)) actor))
          s.writer).0
        ≡ raise e
      → (has_class is_conflict e || has_class is_usage e) ≡ false
      → IsUncaught s action r w e w'

-- It ends the request without an answer, and without a line.
pub record IsFailed (s : Setup) (action : Action) (r : Request) (w : World) (answer : Result Answer)
    (w' : World) : Type 0 where
  pub exc : Exc
  pub raised : answer ≡ raise exc
  pub uncaught : IsUncaught s action r w exc w'
  pub no_line : w'.lines ≡ w.lines

-- What `ks.update` is asked for.
abbrev update_of :
    Setup → Action → String → String → Dict Value → World → Result KillState × KillSwitch × File
update_of s action target actor d w =
    update w.switch w.file
      (change_of action target (entry s.site.now (text_of (get "reason" d)) actor)) s.writer

abbrev after_update : World → KillSwitch × File → World
after_update w (switch, file) = record w { switch = switch; file = file }
