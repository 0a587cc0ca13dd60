-- ===== src/Gates/Confirm.antt =====
-- When a mutating call goes through.
use beherouter.Prelude.{◌≡◌, ◌↔◌, ◌⊎◌, Bool, true, false, some, arith, elem}
use beherouter.Data.{Value}
use beherouter.Errors.{Result, ok}
use beherouter.Models.{ToolDescriptor}
use beherouter.Gates.{ConfirmGate, Answer, accept, confirm}

-- A human said yes: the client can ask its user, and the user accepted with `true`.
abbrev pub SaidYes : Bool → Result Answer → Type 0
SaidYes can_elicit elicited =
    (can_elicit ≡ true) × (elicited ≡ ok (accept (some (Value.bool true))))

-- What the gate lets through without a question: a tool that says that it is read-only, or one that
-- the operator exempts.
abbrev pub NeedsNone : ConfirmGate → ToolDescriptor → Type 0
NeedsNone g d = (d.mutating ≡ some false) ⊎ (elem d.name g.exempt ≡ true)

confirm-yes :
    (g : ConfirmGate) (can : Bool) (e : Result Answer) (d : ToolDescriptor)
    → confirm g can e d ≡ ok tt
    → NeedsNone g d ⊎ SaidYes can e
unfolding confirm
confirm-yes g can e d h = ground arith

yes-confirm :
    (g : ConfirmGate) (can : Bool) (e : Result Answer) (d : ToolDescriptor)
    → NeedsNone g d ⊎ SaidYes can e
    → confirm g can e d ≡ ok tt
unfolding confirm
yes-confirm g can e d h = ground arith

-- A call passes the confirmation gate exactly when it needs no confirmation or a human gave it: a
-- client that cannot ask, no answer in time, a failed question, a refusal, and an accepted answer
-- with no value or another than `true` all stop it, also where the backend did not say whether the
-- tool changes data.
pub confirm_iff :
    (g : ConfirmGate) (can : Bool) (e : Result Answer) (d : ToolDescriptor)
    → (confirm g can e d ≡ ok tt) ↔ (NeedsNone g d ⊎ SaidYes can e)
confirm_iff g can e d = (confirm-yes g can e d, yes-confirm g can e d)
