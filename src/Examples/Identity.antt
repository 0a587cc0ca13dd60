-- ===== src/Examples/Identity.antt =====
-- Identities, roles and errors.
use beherouter.Identity.SecretMap
use beherouter.Prelude.{arith, String, ◌≡◌, refl, ◌↔◌, none, some, List, [], ◌∷◌, Dict}
use beherouter.Data.{Value, str, obj, end, field}
use beherouter.Errors.{Exc, Result, ok, raise}
use beherouter.Identity.Policy.{
  CallIdentity, IdentityPolicy, authorise, materialise, material, gate, resolve, material_key,
  wanted_headers,
}
use beherouter.Identity.Policy.Gate.{Passes, gate-Passes_iff}
use beherouter.Identity.Request.{AccessToken, request_identity}
use beherouter.Identity.Request.AllowList.{AgreeOn, resolve-allow_list}
use beherouter.Gates.{ConfirmGate}
use beherouter.Examples.Data.{host, ann, policy, sales_only, identity_map, claims}

gate_example : (gate host sales_only ann ≡ ok tt) ↔ Passes host sales_only ann
gate_example = gate-Passes_iff host sales_only ann

abbrev forwarded : CallIdentity
forwarded = record {
  subject = "ann";
  headers = ("Authorization", "Bearer token") ∷ [];
  env = [];
  credentials = [];
  cache_key = material_key host "ann" (("Authorization", "Bearer token") ∷ []);
  pending = none;
}

authorised : authorise host none identity_map policy ann ≡ ok (some forwarded)
unfolding authorise materialise material gate
authorised = refl

abbrev token : AccessToken
token = record { client_id = "crm"; token = "token"; claims = claims }

abbrev per_client : IdentityPolicy
per_client = record policy { mode = "client"; map = ("X-Crm-Key", "x-crm-key") ∷ [] }

abbrev sent : Dict String
sent = ("x-crm-key", "1") ∷ ("x-other", "2") ∷ []

abbrev sent_alone : Dict String
sent_alone = ("x-crm-key", "1") ∷ []

agrees : AgreeOn host per_client sent sent_alone
unfolding wanted_headers
agrees k e = ground arith

allow_list_example :
    resolve host none identity_map (request_identity host sent (some token)) per_client
    ≡ resolve host none identity_map (request_identity host sent_alone (some token)) per_client
allow_list_example =
    resolve-allow_list host none identity_map per_client (some token) sent sent_alone agrees

abbrev asks : ConfirmGate
asks = record { surface = "crm"; exempt = [] }

-- The file is read, cannot be read, and is read again under a new stamp.
abbrev secrets_at : SecretMap.Stamp → Result (List (String × Value))
secrets_at s = ok (("ann", obj (field "api_key" (str "key") end)) ∷ [])

abbrev first_stamp : SecretMap.Stamp
first_stamp = record { mtime = 1; size = 9 }

load-read_now_example :
    (SecretMap.load
      (ok (record { mtime = 2; size = 9 }))
      (secrets_at (record { mtime = 2; size = 9 }))
      (SecretMap.loads secrets_at (ok first_stamp ∷ raise Exc.os_error ∷ []) SecretMap.new_map)).0
    ≡ SecretMap.read_now
        (ok (record { mtime = 2; size = 9 }))
        (secrets_at (record { mtime = 2; size = 9 }))
load-read_now_example =
    SecretMap.load-read_now secrets_at (ok first_stamp ∷ raise Exc.os_error ∷ [])
      (record { mtime = 2; size = 9 })
