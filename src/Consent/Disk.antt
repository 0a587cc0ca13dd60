-- ===== src/Consent/Disk.antt =====
-- The world of a consent run: the identity map's file, the browser and the provider's endpoints, and
-- the actions on it. An operation of the system can fail, and the process can end at any of them.
use beherouter.Prelude.{ℕ, String, Bool, Option, none, some, List, Dict, ◌≡◌, refl, sym, ap, subst}
use beherouter.Data.{Value}
use beherouter.Errors.{Exc, Result, ok, raise}

-- The texts of TOML documents: what tomlkit parses and prints, and what `tomllib.loads` reads.
pub record Toml : Type 1 where
  pub Text : Type 0
  pub blank : Text
  pub parse : Text → Result (Dict Value)
  pub loads : Text → Result (Dict Value)
  pub dumps : Dict Value → Text

-- How an action ends. `cut`: the process is gone, or what it waits for does not come.
pub data Ended {ℓ} (A : Type ℓ) : Type ℓ where
  done : A → Ended A
  threw : Exc → Ended A
  cut : Ended A

pub data Fault : Type 0 where
  failing : Exc → Fault
  killing : Fault

-- The calls of the system that write the map, or read it.
pub data Op : Type 0 where
  lock read stat mkstemp fchmod fchown write fsync replace unlink open_dir fsync_dir : Op

pub record Url : Type 0 where
  pub base : String
  pub params : Dict String

module _ (T : Toml) where
  pub record File : Type 0 where
    pub text : T.Text
    pub mode : ℕ
    pub owner : ℕ × ℕ

  -- The map's path and the temporary file beside it, what the browser was shown, and the forms that
  -- went to a provider.
  pub record World : Type 0 where
    pub parent_is_dir : Bool
    pub is_symlink : Bool
    pub map : Option File
    pub temp : Option File
    pub shown : List Url
    pub posted : List (String × Dict String)

  abbrev pub Action : Type 0 → Type 0
  Action A = World → Ended A × World

module _ {T : Toml} where
  abbrev pub and_then : {A B : Type 0} → Ended A × World T → (A → Action T B) → Ended B × World T
  and_then (done a, w) f = f a w
  and_then (threw e, w) f = (threw e, w)
  and_then (cut, w) f = (cut, w)

  infixl 5 ◌>>=◌ ◌>>◌
  abbrev pub ◌>>=◌ : {A B : Type 0} → Action T A → (A → Action T B) → Action T B
  ◌>>=◌ m f w = and_then (m w) f

  abbrev pub ◌>>◌ : {B : Type 0} → Action T (Unit {0}) → Action T B → Action T B
  m >> k = m >>= λ _. k

  abbrev pub return : {A : Type 0} → A → Action T A
  return a w = (done a, w)

  abbrev pub lift : {A : Type 0} → Result A → Action T A
  lift (ok a) w = (done a, w)
  lift (raise e) w = (threw e, w)

  -- `except BaseException: handler; raise`
  abbrev pub handled : {A : Type 0} → Action T (Unit {0}) → Ended A × World T → Ended A × World T
  handled handler (done a, w) = (done a, w)
  handled handler (threw e, w) = and_then (handler w) (λ _ u. (threw e, u))
  handled handler (cut, w) = (cut, w)

  -- One call of the system: it has its effect, or it fails and has none.
  abbrev pub called : (World T → World T) → Option Fault → World T → Ended (Unit {0}) × World T
  called effect none w = (done tt, effect w)
  called effect (some (failing e)) w = (threw e, w)
  called effect (some killing) w = (cut, w)

  -- Inversion of a step that ends well.
  pub and_then-eq-done :
      {A B : Type 0} (x : Ended A × World T) (f : A → Action T B) {b : B} {w : World T}
      → and_then x f ≡ (done b, w)
      → (a : A) × (u : World T) × (x ≡ (done a, u)) × (f a u ≡ (done b, w))
  and_then-eq-done (done a, u) f h = (a, u, refl, h)
  and_then-eq-done (threw e, u) f h = cc
  and_then-eq-done (cut, u) f h = cc

  -- A step that changes nothing, before others: what holds wherever they end.
  pub and_then-quiet :
      {A B : Type 0} (w : World T) (x : Ended A × World T) (f : A → Action T B)
      (Q : Ended B × World T → Type 0)
      → x.1 ≡ w
      → ((a : A) → x ≡ (done a, w) → Q (f a w))
      → ((e : Exc) → Q (threw e, w))
      → Q (cut, w)
      → Q (and_then x f)
  and_then-quiet w (done a, u) f Q same go stop none_of =
      subst (λ v. Q (f a v)) (sym same) (go a (ap (λ v. (done a, v)) same))
  and_then-quiet w (threw e, u) f Q same go stop none_of =
      subst (λ v. Q (threw e, v)) (sym same) (stop e)
  and_then-quiet w (cut, u) f Q same go stop none_of = subst (λ v. Q (cut, v)) (sym same) none_of

  -- The same, for a step that changes nothing.
  pub quiet-eq-done :
      {A B : Type 0} (x : Ended A × World T) (f : A → Action T B) {b : B} (w : World T)
      {w' : World T}
      → x.1 ≡ w
      → and_then x f ≡ (done b, w')
      → (a : A) × (x ≡ (done a, w)) × (f a w ≡ (done b, w'))
  quiet-eq-done (done a, u) f {b} w {w'} same h =
      (a, ap (λ v. (done a, v)) same, subst (λ v. f a v ≡ (done b, w')) same h)
  quiet-eq-done (threw e, u) f w same h = cc
  quiet-eq-done (cut, u) f w same h = cc

  pub lift-eq-done :
      {A B : Type 0} (r : Result A) (f : A → Action T B) {b : B} (w : World T) {w' : World T}
      → and_then (lift r w) f ≡ (done b, w')
      → (a : A) × (r ≡ ok a) × (f a w ≡ (done b, w'))
  lift-eq-done (ok a) f w h = (a, refl, h)
  lift-eq-done (raise e) f w h = cc
