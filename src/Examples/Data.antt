-- ===== src/Examples/Data.antt =====
-- The values that the examples share.
use beherouter.Prelude.{true, false, none, some, [], ◌∷◌}
use beherouter.Data.{Value, Fields, str, arr, end, field, of_names, null}
use beherouter.Errors.{ok}
use beherouter.Identity.{Host, RequestIdentity}
use beherouter.Identity.Policy.{IdentityPolicy, IdentityMap}
use beherouter.Audit.{Caller}
use beherouter.Models.{ToolDescriptor}
use beherouter.Pipeline.{Site}
use beherouter.Pipeline.Scope.{Trace}
use beherouter.KillSwitch.Cache.{Stamp, File}

abbrev pub host : Host
host = record {
  lower = λ s. s;
  show = λ v. "value";
  sha256 = λ s. s;
  urlsplit = λ s. record {
    scheme = "https";
    hostname = some s;
    username = none;
    password = none;
    fragment = "";
  };
}

abbrev pub claims : Fields
claims = field "roles" (arr (of_names ("sales" ∷ "staff" ∷ []))) (field "aud" (str "crm-api") end)

abbrev pub ann : RequestIdentity
ann = record {
  shared = false;
  subject = some "ann";
  claims = claims;
  raw_token = some "token";
  headers = [];
}

abbrev pub nobody : RequestIdentity
nobody = record { shared = false; subject = none; claims = end; raw_token = none; headers = [] }

-- Forwards the token of every verified caller.
abbrev pub policy : IdentityPolicy
policy = record {
  surface = "crm";
  mode = "bearer";
  target = "header";
  map = [];
  header = "Authorization";
  prefix = "Bearer ";
  exchange = none;
  key = "";
  path = none;
  require_roles = [];
  roles_claim = "roles";
  audiences = [];
  hide_tools = false;
}

-- The same, for callers of the role "sales" only.
abbrev pub sales_only : IdentityPolicy
sales_only = record policy { require_roles = "sales" ∷ [] }

abbrev pub identity_map : IdentityMap
identity_map path surface key claim = ok []

abbrev pub site : RequestIdentity → Site
site req = record {
  host = host;
  map_env = none;
  identity_map = identity_map;
  live = λ wanted. req;
  envelope = λ c. ("error", 1);
  internal_code = 70;
}

abbrev pub caller : Caller
caller = record { auth = "oidc"; sub = some "ann"; claims = [] }

abbrev pub find : ToolDescriptor
find = record {
  name = "crm_find";
  verb = "find";
  summary = "find a contact";
  schema = end;
  pinned = true;
  mutating = some false;
  annotations = null;
  output_schema = null;
}

abbrev pub stamp : Stamp
stamp = record { mtime = 7; size = 2; ino = 1 }

abbrev pub file_of : Value → File
file_of v = record { stat = ok (some stamp); content = ok v }

abbrev pub untouched : Trace
untouched = record { observed = []; audit = []; log = [] }
