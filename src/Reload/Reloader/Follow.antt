-- ===== src/Reload/Reloader/Follow.antt =====
-- Coalescing: one follow-up, however many requests come during a reload.
use beherouter.Prelude.{
  ℕ, ◌<◌, String, ◌≡◌, refl, ap, ◌∙◌, Bool, true, false, List, [], ◌∷◌, arith, map,
}
use beherouter.Data.{Fields}
use beherouter.Errors.{Result}
use beherouter.Reload.Reloader.{
  Task, idle, Next, nobody, waiting, Reloader, new_reloader, is_answered, request, begin, finish,
  Event, requested, step, steps,
}
use beherouter.Reload.Reloader.Account.{IsAccounted, steps-IsAccounted}

-- `idle`
abbrev pub is_idle : Task → Bool
is_idle idle = true
is_idle _ = false

-- A reload is in flight and a follow-up waits.
record IsFull (r : Reloader) : Type 0 where
  open_still : r.closed ≡ false
  busy : is_idle r.task ≡ false
  followed : (m : ℕ) × (v : String) × (r.next ≡ waiting m v)

request-IsFull :
    (t : String) (r : Reloader) → r.closed ≡ false → is_idle r.task ≡ false → IsFull (request t r).1
unfolding request
request-IsFull t r o b = record {
  open_still = ground arith;
  busy = ground arith;
  followed = followed_by r.next refl;
}
  where
    followed_by :
        (k : Next) → r.next ≡ k → (m : ℕ) × (v : String) × ((request t r).1.next ≡ waiting m v)
    followed_by nobody e = (r.made, t, ground arith)
    followed_by (waiting m v) e = (m, v, ground arith)

full_request : (t : String) (r : Reloader) → IsFull r → (request t r).1 ≡ r
unfolding request
full_request t r h = let (m, v, e) = h.followed in ground (arith, h.open_still, h.busy, e)

full_steps : (us : List String) (r : Reloader) → IsFull r → steps (map requested us) r ≡ r
unfolding steps step
full_steps [] r h = refl
full_steps (u ∷ us) r h = ap (steps (map requested us)) (full_request u r h) ∙ full_steps us r h

-- While a reload is in flight, the first request makes the follow-up, if there is none, and every
-- further one, with whatever trigger, changes nothing and awaits the future that the first awaits.
pub request_coalesced :
    (r : Reloader) (t u : String) (us : List String)
    → r.closed ≡ false
    → is_idle r.task ≡ false
    → let r' = (request t r).1 in
      (steps (map requested us) r' ≡ r') × ((request u r').0 ≡ (request t r).0)
unfolding request
request_coalesced r t u us o b = (full_steps us _ (request-IsFull t r o b), ground arith)

-- However many requests wait, the ends of two reloads answer them all: after any history without a
-- shutdown, and two reloads that run from start to end with a report or an exception, every future
-- that was handed out is done and no reload is left.
pub two_reloads :
    (es : List Event) (a b : Result Fields) (n : ℕ)
    → (steps es new_reloader).closed ≡ false
    → n < (steps es new_reloader).made
    → let r' = finish b (finish a (begin (steps es new_reloader))) in
      (is_answered n r'.answers ≡ true) × (r'.task ≡ idle)
unfolding finish begin
two_reloads es a b n o lt = answers (steps es new_reloader) (steps-IsAccounted es o) lt
  where
    answers :
        (r : Reloader)
        → IsAccounted r
        → n < r.made
        → (is_answered n (finish b (finish a (begin r))).answers ≡ true)
          × ((finish b (finish a (begin r))).task ≡ idle)
    answers r h lt = (ground (arith, h.covers n, h.quiet), ground (arith, h.quiet))
