-- ===== src/Naming.antt =====
-- naming.py: the flat tool name of a verb, and verbs that collide.
pub mod Collisions
use Prim.Native.String.{◌++◌ as ◌+++◌}
use Prim.Native.Char.{Char, code}
use beherouter.Prelude.{
  ℕ, String, ◌==◌, Bool, false, not, ◌&&◌, Option, none, some, List, [], ◌∷◌, Dict, lookup, put,
  ◌===◌, words, if◌then◌else◌,
}
use beherouter.Errors.{Result, ok, fail, conflict}

-- `verb.replace("-", " ")`
abbrev spaced : String → String
spaced String.[] = String.[]
spaced (String.◌∷◌ c s) =
    let rest = spaced s in if code c == b'-' then " " +++ rest else String.◌∷◌ c rest

-- `"_".join([tool, *parts])`
abbrev joined : String → List String → String
joined tool [] = tool
joined tool (part ∷ parts) = tool +++ ("_" +++ joined part parts)

unfoldable pub flatten : String → String → String
unfolding words
flatten tool verb = joined tool (words (spaced verb))

abbrev pub collides : Option String → String → Bool
collides none verb = false
collides (some other) verb = not (other === verb)

-- The loop of `detect_collisions`, after the names of `seen`.
unfoldable pub detect_from : String → Dict String → List String → Result (Unit {0})
detect_from tool seen [] = ok tt
detect_from tool seen (verb ∷ verbs) =
    let rest = detect_from tool (put (flatten tool verb) verb seen) verbs in
    if collides (lookup (flatten tool verb) seen) verb then fail conflict else rest

unfoldable pub detect_collisions : String → List String → Result (Unit {0})
unfolding detect_from
detect_collisions tool verbs = detect_from tool [] verbs
