-- ===== src/Reload/Partition.antt =====
-- `diff` sorts every surface into one of its lists.
use beherouter.Prelude.{
  String, ◌≡◌, refl, Bool, not, ◌&&◌, ◌||◌, Dict, lookup, has, keys, select, sorted_set, elem,
  arith, elem-sorted_set, elem-select, elem-keys,
}
use beherouter.Reload.{Diff, diff, same_print}

elem_picked :
    (p : String → Bool) (n : String) (d : Dict String)
    → elem n (sorted_set (select p (keys d))) ≡ (has n d && p n)
elem_picked p n d =
    rw (elem-sorted_set n (select p (keys d)), elem-select p n (keys d), elem-keys n d) refl

-- Where a surface stands after a reload: among the added ones if only the new registry has it, among
-- the removed ones if only the old one has it, and if both have it, among the unchanged ones or the
-- changed ones, as its fingerprints agree or not; and nowhere else.
pub record IsSorted (old new : Dict String) (d : Diff) (n : String) : Type 0 where
  pub added : elem n d.added ≡ (has n new && not (has n old))
  pub removed : elem n d.removed ≡ (has n old && not (has n new))
  pub changed :
      elem n d.changed ≡ (has n old && has n new && not (same_print (lookup n new) (lookup n old)))
  pub unchanged :
      elem n d.unchanged ≡ (has n old && has n new && same_print (lookup n new) (lookup n old))
  pub somewhere :
      (elem n d.added || elem n d.removed || elem n d.changed || elem n d.unchanged)
      ≡ (has n old || has n new)

-- A reload sorts every name of the two registries into one of the lists, and no other name.
pub diff-IsSorted : (old new : Dict String) (n : String) → IsSorted old new (diff old new) n
unfolding diff
diff-IsSorted old new n =
    let a = elem_picked (λ n. not (has n old)) n new in
    let r = elem_picked (λ n. not (has n new)) n old in
    let c = elem_picked (λ n. has n old && not (same_print (lookup n new) (lookup n old))) n new in
    let u = elem_picked (λ n. has n old && same_print (lookup n new) (lookup n old)) n new in
    record {
      added = a;
      removed = r;
      changed = ground (arith, c);
      unchanged = ground (arith, u);
      somewhere = ground (arith, a, r, c, u);
    }
