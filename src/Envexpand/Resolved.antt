-- ===== src/Envexpand/Resolved.antt =====
-- A table of credentials after its placeholders are resolved, and the files that it depends on.
use beherouter.Prelude.{
  String, ◌≡◌, refl, true, some, [], ◌∷◌, Dict, elem, arith, eq_iff, eq_refl, Option-cases, inl,
  inr,
}
use beherouter.Data.{Value, str, null, bool, int, float, arr, obj}
use beherouter.Envexpand.{
  Reading, Surroundings, file_placeholder, read_file, resolve_text, resolve_value, expand,
  file_refs,
}

module _ (env : Dict String) (before after : String → Reading) where
  abbrev at : (String → Reading) → Surroundings
  at read = record { environ = env; read = read }

  text_same :
      (s : String)
      → ((path : String) → file_placeholder s ≡ some path → before path ≡ after path)
      → resolve_text (at before) s ≡ resolve_text (at after) s
  unfolding resolve_text read_file
  text_same s h = elim (Option-cases (file_placeholder s)) [
    | inl e ↦ rw (e, resolve_text)
    | inr (path, e) ↦ rw (e, resolve_text) (rw (h path e, read_file))
  ]

  -- If the environment is the same, and so is every file that `file_refs` names, then so is the table
  -- after its placeholders are resolved, or the error.
  pub expand-file_refs :
      (d : Dict Value)
      → ((path : String) → elem path (file_refs d) ≡ true → before path ≡ after path)
      → expand (at before) d ≡ expand (at after) d
  unfolding expand file_refs resolve_value
  expand-file_refs [] h = refl
  expand-file_refs ((k, str s) ∷ d) h = elim (Option-cases (file_placeholder s)) [
    | inl e ↦ rw (text_same s (λ p q. cc), expand-file_refs d (λ p q. h p (ground (arith, e, q))))
    | inr (path, e) ↦ rw (
      text_same s (λ p q. h p (ground (arith, e, eq_refl p, eq_iff path p))),
      expand-file_refs d (λ p q. h p (ground (arith, e, q))),
    )
  ]
  expand-file_refs ((k, null) ∷ d) h = rw (expand-file_refs d h)
  expand-file_refs ((k, bool _) ∷ d) h = rw (expand-file_refs d h)
  expand-file_refs ((k, int _) ∷ d) h = rw (expand-file_refs d h)
  expand-file_refs ((k, float _) ∷ d) h = rw (expand-file_refs d h)
  expand-file_refs ((k, arr _) ∷ d) h = rw (expand-file_refs d h)
  expand-file_refs ((k, obj _) ∷ d) h = rw (expand-file_refs d h)
