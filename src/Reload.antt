-- ===== src/Reload.antt =====
-- reload.py: what a reload of the registry does to each surface, and the serialised reloader.
pub mod Reloader
pub mod Partition
use beherouter.Prelude.{
  String, Bool, false, not, ◌&&◌, Option, some, List, Dict, lookup, has, keys, select, sorted_set,
  ◌===◌,
}

pub record Diff : Type 0 where
  pub added : List String
  pub removed : List String
  pub changed : List String
  pub unchanged : List String

-- `new[n] == old[n]`, where both have `n`.
abbrev pub same_print : Option String → Option String → Bool
same_print (some a) (some b) = a === b
same_print _ _ = false

-- `diff` of two maps from a surface's name to its fingerprint.
unfoldable pub diff : Dict String → Dict String → Diff
diff old new = record {
  added = sorted_set (select (λ n. not (has n old)) (keys new));
  removed = sorted_set (select (λ n. not (has n new)) (keys old));
  changed =
      sorted_set
        (select (λ n. has n old && not (same_print (lookup n new) (lookup n old))) (keys new));
  unchanged =
      sorted_set (select (λ n. has n old && same_print (lookup n new) (lookup n old)) (keys new));
}
