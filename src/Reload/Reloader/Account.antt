-- ===== src/Reload/Reloader/Account.antt =====
-- Every future that a request awaits is accounted for: it is done, or a reload will do it.
use beherouter.Prelude.{
  sym, ◌∙◌, false≢true, ℕ, String, ◌≡◌, refl, Bool, true, false, ◌||◌, ◌&&◌, List, [], ◌∷◌, arith,
  ltb, ◌==◌,
}
use beherouter.Data.{Fields}
use beherouter.Errors.{Result}
use beherouter.Reload.Reloader.{
  Task, idle, created, applying, Next, nobody, waiting, Reloader, new_reloader, is_answered,
  request, begin, finish, cancel, Event, requested, begun, finished, cancelled_by_shutdown, step,
  steps,
}

abbrev pub on_task : ℕ → Task → Bool
on_task n idle = false
on_task n (created m _) = m == n
on_task n (applying m _) = m == n

abbrev pub on_next : ℕ → Next → Bool
on_next n nobody = false
on_next n (waiting m _) = m == n

-- A future is made, exactly if it is done, or waits for the reload in flight, or for the next; and it
-- is one of these only. Without a reload in flight there is no follow-up.
pub record IsAccounted (r : Reloader) : Type 0 where
  pub covers :
      (n : ℕ) → (is_answered n r.answers || on_task n r.task || on_next n r.next) ≡ ltb n r.made
  pub undone : (n : ℕ) → (is_answered n r.answers && (on_task n r.task || on_next n r.next)) ≡ false
  pub apart : (n : ℕ) → (on_task n r.task && on_next n r.next) ≡ false
  pub quiet : r.task ≡ idle → r.next ≡ nobody

new-IsAccounted : IsAccounted new_reloader
new-IsAccounted = record {
  covers = λ n. ground arith;
  undone = λ n. refl;
  apart = λ n. refl;
  quiet = λ _. refl;
}

request-IsAccounted : (t : String) (r : Reloader) → IsAccounted r → IsAccounted (request t r).1
unfolding request
request-IsAccounted t r h = record {
  covers = λ n. ground (arith, h.covers n, h.covers r.made, h.quiet);
  undone = λ n. ground (arith, h.undone n, h.covers n, h.quiet);
  apart = λ n. ground (arith, h.apart n, h.covers n, h.quiet);
  quiet = λ e. ground (arith, h.quiet);
}

begin-IsAccounted : (r : Reloader) → IsAccounted r → IsAccounted (begin r)
unfolding begin
begin-IsAccounted r h = record {
  covers = λ n. ground (arith, h.covers n);
  undone = λ n. ground (arith, h.undone n);
  apart = λ n. ground (arith, h.apart n);
  quiet = λ e. ground (arith, h.quiet);
}

finish-IsAccounted : (a : Result Fields) (r : Reloader) → IsAccounted r → IsAccounted (finish a r)
unfolding finish
finish-IsAccounted a r h = record {
  covers = λ n. ground (arith, h.covers n);
  undone = λ n. ground (arith, h.undone n, h.apart n);
  apart = λ n. ground (arith, h.apart n);
  quiet = λ e. ground (arith, h.quiet);
}

step_closed : (e : Event) (r : Reloader) → r.closed ≡ true → (step e r).closed ≡ true
unfolding step request begin finish cancel
step_closed (requested t) r h = ground arith
step_closed begun r h = ground arith
step_closed (finished a) r h = ground arith
step_closed cancelled_by_shutdown r h = ground arith

steps_closed : (es : List Event) (r : Reloader) → r.closed ≡ true → (steps es r).closed ≡ true
unfolding steps
steps_closed [] r h = h
steps_closed (e ∷ es) r h = steps_closed es (step e r) (step_closed e r h)

cancel_closes : (r : Reloader) → (cancel r).closed ≡ true
unfolding cancel
cancel_closes r = ground arith

account :
    (es : List Event) (r : Reloader)
    → IsAccounted r
    → (steps es r).closed ≡ false
    → IsAccounted (steps es r)
unfolding steps step
account [] r h o = h
account (requested t ∷ es) r h o = account es (request t r).1 (request-IsAccounted t r h) o
account (begun ∷ es) r h o = account es (begin r) (begin-IsAccounted r h) o
account (finished a ∷ es) r h o = account es (finish a r) (finish-IsAccounted a r h) o
account (cancelled_by_shutdown ∷ es) r h o =
    absurd (false≢true (sym o ∙ steps_closed es (cancel r) (cancel_closes r)))

-- Whatever requests, reloads and failures come, in whatever order, until a shutdown no requester is
-- lost: every future that was handed out is done or waits for a reload that is in flight or follows,
-- none is done twice or waits in two places, and a follow-up always has a reload in flight before it.
pub steps-IsAccounted :
    (es : List Event) → (steps es new_reloader).closed ≡ false → IsAccounted (steps es new_reloader)
steps-IsAccounted es o = account es new_reloader new-IsAccounted o
