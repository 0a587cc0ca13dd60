-- ===== src/Examples/Consent.antt =====
-- Grants of the calendar consent for the surface "gcal", to the subject "ann".
use beherouter.Prelude.{
  ◌<◌, ◌≤◌, ◌===◌, elem, eq_iff, arith, String, ◌≡◌, refl, subst, ◌∙◌, true, false, none, some, [],
  ◌∷◌, ◌++◌, Dict, if◌then◌else◌, inl, inr, Bool-cases,
}
use beherouter.Data.{Value, str, obj, end, field, of_dict}
use beherouter.Errors.{ok, raise, value_error, fail, unavailable}
use beherouter.Identity.{Host}
use beherouter.Registry.{RegistryEntry}
use beherouter.Envexpand.{Surroundings, Reading, expand, file_refs, file_placeholder}
use beherouter.Envexpand.Resolved.{expand-file_refs}
use beherouter.Digest.{compare_digest, is_ascii}
use beherouter.Consent.{google, resolve_target, providers, grant_names_in}
use beherouter.Consent.Disk.{Toml, File, World, Ended, done}
use beherouter.Consent.Writer.{
  Process, atomic_write, check_writable, read_doc, upsert_subject, install, fill, sync_dir,
  remove_names, remove_from, read_subject,
}
use beherouter.Consent.Atomic.{IsAtomic, atomic_write-IsAtomic}
use beherouter.Consent.Format.{
  IsToml, Holds, holds_fields, Holds-to_dict, to_dict-of_dict, of_dict-Holds,
}
use beherouter.Consent.Code.{
  Drawn, Round, Request, Http, Answer, wait, do_get, authorize_url, code_form, code_of, read_answer,
  exchange_code, obtain_refresh_token, put_texts,
}
use beherouter.Consent.Grant.{
  Setting, Options, Granted, Revoked, grant, store, token_for, client_credentials, values_of,
  granted_of, revoke, take_back, revoke_upstream,
}
use beherouter.Consent.Redirected.{is_redirect, wait-first}
use beherouter.Consent.Redirected.Ours.{IsBound, IsOurs, obtain_refresh_token-IsBound}
use beherouter.Consent.Stored.{IsGrant}
use beherouter.Consent.Served.{IsServed, grant-IsServed}
use beherouter.Consent.Values.{IsGiven}
use beherouter.Consent.Revoked.{IsRevoked, revoke-IsRevoked}

-- A text is the document that it prints.
abbrev memory : Toml
memory = record {
  Text = Dict Value;
  blank = [];
  parse = λ d. if holds_fields (of_dict d) then ok d else raise value_error;
  loads = λ d. if holds_fields (of_dict d) then ok d else raise value_error;
  dumps = λ d. d;
}

memory-Holds : (t d : Dict Value) → memory.parse t ≡ ok d → Holds d
memory-Holds t d h = elim (Bool-cases (holds_fields (of_dict t))) [
  | inl e ↦
      subst (λ x. Holds x) (to_dict-of_dict t ∙ ground (arith, h, e)) (Holds-to_dict (of_dict t) e)
  | inr e ↦ absurd (ground (arith, h, e))
]

memory-IsToml : IsToml memory
memory-IsToml = record {
  parse-Holds = memory-Holds;
  parse-dumps = λ d h. rw (of_dict-Holds d h) refl;
  loads-dumps = λ d h. rw (of_dict-Holds d h) refl;
}

abbrev showing : Value → String
showing (str s) = s
showing v = "value"

abbrev plain_host : Host
plain_host = record {
  lower = λ s. s;
  show = showing;
  sha256 = λ s. s;
  urlsplit = λ s. record {
    scheme = "https";
    hostname = some s;
    username = none;
    password = none;
    fragment = "";
  };
}

abbrev drawn : Drawn
drawn = record { verifier = "verifier"; state = "state"; s256 = λ s. s }

abbrev entry : RegistryEntry
entry = record {
  name = "gcal";
  plugin = str "gcal";
  body =
      (
        "identity",
        obj (
            field "mode" (str "lookup") (
              field "path" (str "map.toml")
                (field "map" (obj (field "refresh_token" (str "google") end)) end))),
      )
      ∷ ("env", obj (field "client_id" (str "id") (field "client_secret" (str "${SECRET}") end)))
      ∷ [];
}

abbrev surroundings : Surroundings
surroundings = record { environ = ("SECRET", "secret") ∷ []; read = λ path. Reading.unreadable }

abbrev process : Process
process = record { user = (1000, 1000); is_root = false; faults = λ op. none }

-- The browser asks for an icon first.
abbrev icon : Round
icon = record { now = 1; request = some (record { path = "/favicon.ico"; query = [] }) }

abbrev redirect : Round
redirect = record {
  now = 2;
  request = some (record { path = "/"; query = ("state", "state") ∷ ("code", "code") ∷ [] });
}

abbrev endpoint : Http
endpoint url form = Answer.response 200 (ok (obj (field "refresh_token" (str "token") end)))

abbrev setting : Setting memory
setting = record {
  host = plain_host;
  at = surroundings;
  process = process;
  drawn = drawn;
  http = endpoint;
  redirect_uri = "http://localhost:8765";
  rounds = icon ∷ redirect ∷ [];
  default_map = "";
  meanwhile = λ m. m;
}

abbrev options : Options
options = record { identity_map = ""; client_id = ""; secret_file = none }

-- The map of another user.
abbrev others_map : Dict Value
others_map = ("bob", obj (field "google" (str "his") end)) ∷ []

abbrev file_of : Dict Value → File memory
file_of d = record { text = d; mode = 0o600; owner = (1000, 1000) }

abbrev world_of : Dict Value → World memory
world_of d = record {
  parent_is_dir = true;
  is_symlink = false;
  map = some (file_of d);
  temp = none;
  shown = [];
  posted = [];
}

atomic_write_example :
    IsAtomic process others_map (world_of []) (atomic_write process others_map (world_of []))
atomic_write_example = atomic_write-IsAtomic process others_map (world_of [])

wait-first_example :
    ((r : Request)
      → redirect.request ≡ some r
      → is_redirect r ≡ true
      → redirect.now < 300
      → wait 300 ((icon ∷ []) ++ (redirect ∷ [])) [] ≡ some (ok (put_texts r.query [])))
    × (300 ≤ redirect.now → wait 300 ((icon ∷ []) ++ (redirect ∷ [])) [] ≡ some (fail unavailable))
wait-first_example =
    wait-first 300 (icon ∷ []) redirect [] ((omega arith, λ r h. ground (arith, h)), tt)

obtain_example :
    IsBound endpoint drawn google "id"
      (some "secret")
      "http://localhost:8765"
      (icon ∷ redirect ∷ [])
      300
      none
    × IsOurs endpoint drawn google "id"
        (some "secret")
        "http://localhost:8765"
        (icon ∷ redirect ∷ [])
        300
        none
        (world_of [])
        (obtain_refresh_token endpoint drawn google "id"
          (some "secret")
          "http://localhost:8765"
          (icon ∷ redirect ∷ [])
          300
          none
          (world_of []))
obtain_example =
    obtain_refresh_token-IsBound endpoint drawn google "id" (some "secret") "http://localhost:8765"
      (icon ∷ redirect ∷ []) 300 none (world_of []) refl (inl refl)

abbrev granted : Granted
granted = record {
  surface = "gcal";
  subject = "ann";
  key_claim = str "sub";
  identity_map = "map.toml";
  names_written = "google" ∷ [];
}

abbrev granting : Ended Granted × World memory
granting = grant setting entry "ann" options 300 (world_of others_map)

granted_run : granting ≡ (done granted, granting.1)
unfolding grant store token_for client_credentials resolve_target providers grant_names_in
    check_writable obtain_refresh_token authorize_url wait do_get code_of compare_digest is_ascii
    exchange_code code_form read_answer expand upsert_subject read_doc atomic_write install fill
    sync_dir holds_fields
granted_run = refl

show_text : (t : String) → plain_host.show (str t) ≡ t
show_text t = refl

grant-IsServed_example :
    (x : IsGrant setting entry "ann" options 300 (world_of others_map) granting.1 granted)
    × IsServed memory-IsToml plain_host "ann"
        (values_of x.target.names (granted_of x.token x.id x.secret) [])
        (some (file_of others_map))
        granting.1
    × IsGiven x.target.names
        (values_of x.target.names (granted_of x.token x.id x.secret) [])
        x.token
        x.id
        x.secret
grant-IsServed_example =
    grant-IsServed memory-IsToml setting entry "ann" options 300 (world_of others_map) granting.1
      granted refl show_text granted_run

-- The map that the grant has left.
abbrev granted_map : Dict Value
granted_map =
    ("bob", obj (field "google" (str "his") end))
    ∷ ("ann", obj (field "google" (str "token") end))
    ∷ []

abbrev revoked : Revoked
revoked = record {
  surface = "gcal";
  subject = "ann";
  identity_map = "map.toml";
  names_removed = "google" ∷ [];
  upstream = "revoked";
}

abbrev revoking : Ended Revoked × World memory
revoking = revoke setting entry "ann" options (world_of granted_map)

revoked_run : revoking ≡ (done revoked, revoking.1)
unfolding revoke take_back revoke_upstream resolve_target providers grant_names_in check_writable
    read_subject remove_names remove_from read_doc atomic_write install fill sync_dir holds_fields
revoked_run = refl

revoke-IsRevoked_example :
    IsRevoked memory-IsToml setting entry "ann" options (world_of granted_map) revoking.1
revoke-IsRevoked_example =
    revoke-IsRevoked memory-IsToml setting entry "ann" options (world_of granted_map) revoking.1
      revoked revoked_run

-- A file of a secret and another one, which changes.
abbrev before : String → Reading
before path = Reading.text path

abbrev after : String → Reading
after path = if path === "/secret" then Reading.text path else Reading.unreadable

abbrev credentials : Dict Value
credentials = ("client_id", str "id") ∷ ("client_secret", str "${file:/secret}") ∷ []

same_secret : (path : String) → elem path (file_refs credentials) ≡ true → before path ≡ after path
unfolding file_refs file_placeholder
same_secret path h = ground (arith, h, eq_iff path "/secret", eq_iff "/secret" path)

expand-file_refs_example :
    expand (record { environ = []; read = before }) credentials
    ≡ expand (record { environ = []; read = after }) credentials
expand-file_refs_example = expand-file_refs [] before after credentials same_secret
