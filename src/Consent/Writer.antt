-- ===== src/Consent/Writer.antt =====
-- The writer of the identity map. The lock lets one consent run at a time do what stands under it, so
-- that an operation under the lock is one action; the gateway only reads.
use beherouter.Prelude.{
  ℕ, String, Bool, not, ◌&&◌, Option, none, some, List, [], ◌∷◌, Dict, lookup, has, put, select,
  select_keys, is_nil, is_some, ◌===◌, if◌then◌else◌,
}
use beherouter.Data.{Value, str, obj, to_dict, of_dict}
use beherouter.Errors.{
  Exc, axi, bare, Result, ok, raise, fail, check, usage_error, not_found, os_error, value_error,
}
use beherouter.Identity.{Host}
use beherouter.Consent.Disk.{
  Toml, File, World, Action, done, cut, Op, Fault, lock, read, stat, mkstemp, fchmod, fchown, write,
  fsync, replace, unlink, open_dir, fsync_dir, ◌>>=◌, ◌>>◌, return, lift, handled, called,
}

-- `del d[k]`
abbrev pub remove {ℓ} : {V : Type ℓ} → String → Dict V → Dict V
remove k d = select_keys (λ j. not (j === k)) d

abbrev pub put_all : Dict String → Dict Value → Dict Value
put_all [] d = d
put_all ((k, v) ∷ vs) d = put_all vs (put k (str v) d)

abbrev pub remove_all : List String → Dict Value → Dict Value
remove_all [] d = d
remove_all (k ∷ ks) d = remove_all ks (remove k d)

-- A subject's entry, made where there is none; `none` is an entry that is no table.
abbrev pub table_at : Option Value → Option (Dict Value)
table_at none = some []
table_at (some (obj fs)) = some (to_dict fs)
table_at (some _) = none

-- The process: its user and group, and the calls that fail.
pub record Process : Type 0 where
  pub user : ℕ × ℕ
  pub is_root : Bool
  pub faults : Op → Option Fault

module _ {T : Toml} where
  abbrev pub owner_of : Option (File T) → ℕ × ℕ → ℕ × ℕ
  owner_of none user = user
  owner_of (some f) user = f.owner

  abbrev on_temp : (File T → File T) → World T → World T
  on_temp change w = record w { temp = elim w.temp [ none ↦ none | some f ↦ some (change f) ] }

  -- What `mkstemp` makes: an empty file that only its owner can read.
  abbrev pub fresh : Process → World T → World T
  fresh p w = record w { temp = some (record { text = T.blank; mode = 0o600; owner = p.user }) }

  abbrev pub when : Bool → Action T (Unit {0}) → Action T (Unit {0})
  when b m w = if b then m w else (done tt, w)

  unfoldable pub check_writable : Action T (Unit {0})
  check_writable w =
      (lift (check w.parent_is_dir (axi (bare usage_error)))
          >> lift (check (not w.is_symlink) (axi (bare usage_error))))
        w

-- In `_read_doc` every exception of the read and of the parse is a `UsageError`.
abbrev parsed_doc : Result (Dict Value) → Result (Dict Value)
parsed_doc (ok d) = ok d
parsed_doc (raise e) = fail usage_error

abbrev pub entry_without : List String → String → Dict Value → Dict Value → Dict Value
entry_without names subject table doc =
    let left = remove_all names table in
    if is_nil left then remove subject doc else put subject (obj (of_dict left)) doc

-- `str(value)`, which is the text itself for a text.
abbrev pub text_of : Host → Value → String
text_of host (str s) = s
text_of host v = host.show v

abbrev pub texts_in : Host → Dict Value → Dict String
texts_in host [] = []
texts_in host ((k, v) ∷ d) = (k, text_of host v) ∷ texts_in host d

abbrev entry_texts : Host → Option Value → Dict String
entry_texts host (some (obj fs)) = texts_in host (to_dict fs)
entry_texts host _ = []

abbrev loaded : Result (Dict Value) → Result (Dict Value)
loaded (raise value_error) = fail usage_error
loaded r = r

abbrev unread : Exc → Result (Dict String)
unread os_error = fail usage_error
unread e = raise e

module _ {T : Toml} (p : Process) where
  abbrev sys : Op → (World T → World T) → Action T (Unit {0})
  sys op effect = called effect (p.faults op)

  -- `_read_doc`
  unfoldable pub read_doc : Action T (Dict Value)
  read_doc w = elim w.map [
    | none ↦ (done [], w)
    | some f ↦ elim (p.faults read) [
      | none ↦ lift (parsed_doc (T.parse f.text)) w
      | some (Fault.failing e) ↦ lift (fail usage_error) w
      | some Fault.killing ↦ (cut, w)
    ]
  ]

  -- The block under `try`, up to the rename.
  unfoldable pub fill : T.Text → Option (File T) → Action T (Unit {0})
  fill t previous =
      sys fchmod (on_temp (λ f. record f { mode = 0o600 }))
      >> when (is_some previous && p.is_root)
          (sys fchown (on_temp (λ f. record f { owner = owner_of previous f.owner })))
      >> sys write (on_temp (λ f. record f { text = t }))
      >> sys fsync (λ w. w)
      >> sys replace (λ w. record w { map = w.temp; temp = none })

  -- The block under `try`, with its handler.
  unfoldable pub install : T.Text → Option (File T) → Action T (Unit {0})
  unfolding fill
  install t previous w = handled (sys unlink (λ u. record u { temp = none })) (fill t previous w)

  unfoldable pub sync_dir : Action T (Unit {0})
  sync_dir w = (sys open_dir (λ u. u) >> sys fsync_dir (λ u. u)) w

  -- `_atomic_write`
  unfoldable pub atomic_write : T.Text → Action T (Unit {0})
  unfolding install sync_dir
  atomic_write t w = (sys stat (λ u. u) >> sys mkstemp (fresh p) >> install t w.map >> sync_dir) w

  -- `upsert_subject`
  unfoldable pub upsert_subject : String → Dict String → Action T (Unit {0})
  unfolding check_writable read_doc atomic_write
  upsert_subject subject values = do
    check_writable
    sys lock (λ w. w)
    doc ← read_doc
    elim (table_at (lookup subject doc)) [
      | none ↦ lift (fail usage_error)
      | some table ↦ atomic_write (T.dumps (put subject (obj (of_dict (put_all values table))) doc))
    ]

  -- The end of `remove_names`, for a subject whose entry is a table.
  unfoldable pub remove_from :
      List String → String → Dict Value → Dict Value → Action T (List String)
  unfolding atomic_write
  remove_from names subject table doc =
      let removed = select (λ n. has n table) names in
      when (not (is_nil removed)) (atomic_write (T.dumps (entry_without removed subject table doc)))
      >> return removed

  -- `remove_names`
  unfoldable pub remove_names : String → List String → Action T (List String)
  unfolding check_writable read_doc remove_from
  remove_names subject names = do
    check_writable
    sys lock (λ w. w)
    doc ← read_doc
    elim (lookup subject doc) [
      | some (obj fs) ↦ remove_from names subject (to_dict fs) doc
      | _ ↦ lift (fail not_found)
    ]

  -- `read_subject`
  unfoldable pub read_subject : Host → String → Action T (Dict String)
  read_subject host subject w = elim w.map [
    | none ↦ (done [], w)
    | some f ↦ elim (p.faults read) [
      | none ↦
          (do d ← lift (loaded (T.loads f.text)); return (entry_texts host (lookup subject d))) w
      | some (Fault.failing e) ↦ lift (unread e) w
      | some Fault.killing ↦ (cut, w)
    ]
  ]
