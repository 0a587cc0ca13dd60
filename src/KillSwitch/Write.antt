-- ===== src/KillSwitch/Write.antt =====
-- `update`: read, change and write the file, under the lock of the process.
use beherouter.Prelude.{
  Bool-cases, Option-cases, inl, inr, ◌≡◌, ap, ◌∙◌, Bool, true, false, none, some, arith,
  if◌then◌else◌,
}
use beherouter.Data.{Value, obj, end}
use beherouter.Errors.{
  ErrorClass, Exc, Result, ok, raise, ◌>>=◌, fail, conflict, usage_error, os_error, value_error,
  >>=-eq-ok,
}
use beherouter.KillSwitch.{KillState, parse_state}
use beherouter.KillSwitch.Cache.{Stamp, File, KillSwitch, is_caught, state, same_option, was_bad}

-- `except E: raise C(...)`, for the exceptions that `caught` names.
abbrev turn {ℓ} : {A : Type ℓ} → (Exc → Bool) → ErrorClass → Result A → Result A
turn caught c (ok a) = ok a
turn caught c (raise e) = if caught e then fail c else raise e

abbrev is_value_error : Exc → Bool
is_value_error value_error = true
is_value_error _ = false

abbrev is_os_error : Exc → Bool
is_os_error os_error = true
is_os_error _ = false

-- `_load_raw`
load_raw : File → Result Value
load_raw file = elim file.stat [
  | raise e ↦ raise e
  | ok none ↦ ok (obj end)
  | ok (some s) ↦ file.content
]

abbrev pub parsed : Value → Result Value
parsed raw = do st ← parse_state raw; ok raw

-- What the file is after `_write_raw`, or why it could not be written.
abbrev pub Writer : Type 0
Writer = Value → Result File

-- The value that is written.
unfoldable pub changed : File → (Value → Result Value) → Result Value
unfolding load_raw
changed file change = do
  raw ← turn is_caught conflict (do raw ← load_raw file; parsed raw)
  turn is_value_error usage_error (do new ← change raw; parsed new)

-- The answer, the switch and the file that the call leaves.
unfoldable pub update :
    KillSwitch → File → (Value → Result Value) → Writer → Result KillState × KillSwitch × File
update ks file change write = elim (changed file change) [
  | raise e ↦ (raise e, ks, file)
  | ok new ↦ elim (turn is_os_error conflict (write new)) [
    | raise e ↦ (raise e, ks, file)
    | ok file' ↦ (let read = state ks file' in (read.answer, read.switch, file'))
  ]
]

-- A written file holds what was written, under a stamp that the switch has not seen.
pub record IsWritten (ks : KillSwitch) (new : Value) (file : File) : Type 0 where
  pub stamp : Stamp
  pub stat : file.stat ≡ ok (some stamp)
  pub content : file.content ≡ ok new
  pub newer : same_option (some stamp) ks.stamp ≡ false
  pub not_bad : was_bad ks (some stamp) ≡ false

turn-eq-ok {ℓ} :
    {A : Type ℓ} (caught : Exc → Bool) (c : ErrorClass) (m : Result A) {a : A}
    → turn caught c m ≡ ok a
    → m ≡ ok a
turn-eq-ok caught c (ok b) h = h
turn-eq-ok caught c (raise e) h = elim (Bool-cases (caught e)) [
  | inl t ↦ absurd (ground arith)
  | inr t ↦ absurd (ground arith)
]

parsed-parses :
    (raw new : Value) → parsed raw ≡ ok new → (st : KillState) × (parse_state new ≡ ok st)
parsed-parses raw new h =
    let (st, read, same) = >>=-eq-ok (parse_state raw) _ h in (st, ground arith)

changed-parses :
    (file : File) (change : Value → Result Value) (new : Value)
    → changed file change ≡ ok new
    → (st : KillState) × (parse_state new ≡ ok st)
unfolding changed
changed-parses file change new h =
    let (raw, _, h₁) =
      >>=-eq-ok (turn is_caught conflict (do raw ← load_raw file; parsed raw)) _ h in
    let h₂ = turn-eq-ok is_value_error usage_error (do new ← change raw; parsed new) h₁ in
    let (made, _, h₃) = >>=-eq-ok (change raw) parsed h₂ in parsed-parses made new h₃

parsed-eq : (raw new : Value) → parsed raw ≡ ok new → raw ≡ new
parsed-eq raw new h = let (_, _, same) = >>=-eq-ok (parse_state raw) _ h in ground arith

-- What is written is what the change made of some raw state.
pub changed-made :
    (file : File) (change : Value → Result Value) (new : Value)
    → changed file change ≡ ok new
    → (raw : Value) × (change raw ≡ ok new)
unfolding changed
changed-made file change new h =
    let (raw, _, h₁) =
      >>=-eq-ok (turn is_caught conflict (do raw ← load_raw file; parsed raw)) _ h in
    let h₂ = turn-eq-ok is_value_error usage_error (do new ← change raw; parsed new) h₁ in
    let (made, e, h₃) = >>=-eq-ok (change raw) parsed h₂ in (raw, e ∙ ap ok (parsed-eq made new h₃))

parsed-raise :
    (m : Result Value) (e : Exc) → (m >>= parse_state) ≡ raise e → (m >>= parsed) ≡ raise e
parsed-raise (ok v) e h = rw h
parsed-raise (raise x) e h = ground arith

changed-malformed :
    (file : File) (change : Value → Result Value) (s : Stamp) (e : Exc)
    → file.stat ≡ ok (some s)
    → (file.content >>= parse_state) ≡ raise e
    → is_caught e ≡ true
    → changed file change ≡ fail conflict
unfolding changed
changed-malformed file change s e h k c =
    let read : (load_raw file >>= parsed) ≡ raise e =
      rw (h, load_raw) (parsed-raise file.content e k) in
    rw read (rw c)

state-unseen :
    (ks : KillSwitch) (file : File) (s : Stamp) (v : Value) (st : KillState)
    → file.stat ≡ ok (some s)
    → file.content ≡ ok v
    → parse_state v ≡ ok st
    → same_option (some s) ks.stamp ≡ false
    → was_bad ks (some s) ≡ false
    → ((state ks file).answer ≡ ok st) × ((state ks file).switch.good ≡ some st)
unfolding state
state-unseen ks file s v st h k p n b = elim (Option-cases ks.good) [
  | inl e ↦ (rw (h, k, p, e), rw (h, k, p, e))
  | inr (g, e) ↦ (rw (h, k, p, e, n, b), rw (h, k, p, e, n, b))
]

-- A file that is there and does not parse, or cannot be read, is never written over: whatever the
-- change and however the disk, the call raises `Conflict` and leaves the file and the cached state
-- as they are.
pub update-malformed :
    (ks : KillSwitch) (file : File) (change : Value → Result Value) (write : Writer) (s : Stamp)
    (e : Exc)
    → file.stat ≡ ok (some s)
    → (file.content >>= parse_state) ≡ raise e
    → is_caught e ≡ true
    → update ks file change write ≡ (fail conflict, ks, file)
unfolding update
update-malformed ks file change write s e h k c =
    rw (changed-malformed file change s e h k c, update)

-- If the change and the write succeed, and the file then holds what was written under a stamp that
-- the switch has not seen, the file holds a state that parses, and the call returns that very
-- state from the file, and not one that it has cached.
pub update-IsWritten :
    (ks : KillSwitch) (file file' : File) (change : Value → Result Value) (write : Writer)
    (new : Value)
    → changed file change ≡ ok new
    → write new ≡ ok file'
    → IsWritten ks new file'
    → (st : KillState) × (parse_state new ≡ ok st)
      × ((update ks file change write).0 ≡ ok st)
      × ((update ks file change write).1.good ≡ some st)
      × ((update ks file change write).2 ≡ file')
unfolding update
update-IsWritten ks file file' change write new h w d =
    let (st, parses) = changed-parses file change new h in
    let (answer, good) =
      state-unseen ks file' d.stamp new st d.stat d.content parses d.newer d.not_bad in
    (st, parses, rw (h, w, answer, update), rw (h, w, good, update), rw (h, w, update))
