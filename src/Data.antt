-- ===== src/Data.antt =====
-- The values that JSON, TOML and the arguments of a call bring into the program.
use beherouter.Prelude.{
  ℕ, zero, String, is_empty, not, ◌&&◌, none, some, lookup, Bool, true, false, List, [], ◌∷◌, Dict,
}

pub data ℤ : Type 0 where
  pos : ℕ → ℤ
  negsuc : ℕ → ℤ

-- A finite float is a whole number of nanoseconds: every float of the configuration is a duration.
pub data Float : Type 0 where
  nanos : ℤ → Float
  infinite : Bool → Float
  nan : Float

mutual
  pub data Fields : Type 0 where
    end : Fields
    field : String → Value → Fields → Fields

  pub data Value : Type 0 where
    null : Value
    bool : Bool → Value
    int : ℤ → Value
    float : Float → Value
    str : String → Value
    arr : Items → Value
    obj : Fields → Value

  pub data Items : Type 0 where
    nil : Items
    cons : Value → Items → Items

abbrev pub to_list : Items → List Value
to_list nil = []
to_list (cons v vs) = v ∷ to_list vs

abbrev pub to_dict : Fields → Dict Value
to_dict end = []
to_dict (field k v fs) = (k, v) ∷ to_dict fs

abbrev pub of_dict : Dict Value → Fields
of_dict [] = end
of_dict ((k, v) ∷ d) = field k v (of_dict d)

abbrev pub of_names : List String → Items
of_names [] = nil
of_names (s ∷ ss) = cons (str s) (of_names ss)

-- `bool(value)`
abbrev pub is_true : Value → Bool
is_true null = false
is_true (bool b) = b
is_true (int (pos zero)) = false
is_true (float (nanos (pos zero))) = false
is_true (str s) = not (is_empty s)
is_true (arr nil) = false
is_true (obj end) = false
is_true _ = true

-- `d.get(k)`, where an absent key reads as `None`.
abbrev pub get : String → Dict Value → Value
get k d = elim (lookup k d) [ none ↦ null | some v ↦ v ]

-- `isinstance(value, str) and value`
abbrev pub is_name : Value → Bool
is_name (str s) = not (is_empty s)
is_name _ = false

abbrev pub is_null : Value → Bool
is_null null = true
is_null _ = false

abbrev pub is_bool : Value → Bool
is_bool (bool _) = true
is_bool _ = false

abbrev pub is_text : Value → Bool
is_text (str _) = true
is_text _ = false

abbrev pub all_names : Items → Bool
all_names nil = true
all_names (cons v vs) = is_name v && all_names vs

abbrev pub texts_of : Items → List String
texts_of nil = []
texts_of (cons (str s) vs) = s ∷ texts_of vs
texts_of (cons _ vs) = texts_of vs
