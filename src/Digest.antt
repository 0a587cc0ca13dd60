-- ===== src/Digest.antt =====
-- `compare_digest` of hmac and secrets, by which auth.py and plugins/calendar/consent.py compare secrets.
use Prim.Native.Char.{code}
use beherouter.Prelude.{String, Bool, true, ◌&&◌, ltb, ◌===◌, if◌then◌else◌}
use beherouter.Errors.{Result, ok, raise, type_error}

unfoldable pub is_ascii : String → Bool
is_ascii String.[] = true
is_ascii (String.◌∷◌ c s) = ltb (code c) 128 && is_ascii s

-- Of two texts: they must be ASCII.
unfoldable pub compare_digest : String → String → Result Bool
compare_digest a b = if is_ascii a && is_ascii b then ok (a === b) else raise type_error
