-- ===== src/Identity/Tables.antt =====
-- identity.py: the `[surface.identity]` and `[surface.authz]` tables of the registry, checked offline,
-- and the policy that they make. `Authz`, `Modes` and `Exchange` check; `Build` makes the policy.
pub mod Authz
pub mod Modes
pub mod Exchange
pub mod Build
use beherouter.Prelude.{String, List, [], ◌∷◌, Option}
use beherouter.Data.{Value}

-- registry.py: the fields of `RegistryEntry` that the identity and the gates read. A table that the
-- entry leaves out is `null`.
pub record Entry : Type 0 where
  pub name : String
  pub identity : Value
  pub authz : Value
  pub rate_limit : Value

-- plugins/spec.py: `IdentitySupport`.
pub record Support : Type 0 where
  pub modes : List String
  pub target : String
  pub accepts : List String

-- plugins/spec.py: what of a `PluginSpec` the identity reads.
pub record PluginSpec : Type 0 where
  pub name : String
  pub backing : String
  pub identity : Support

abbrev pub modes : List String
modes = "bearer" ∷ "claims" ∷ "client" ∷ "lookup" ∷ "exchange" ∷ []

abbrev pub targets : List String
targets = "header" ∷ "env" ∷ "credential" ∷ []

-- costing.py: the meta-tools that every surface publishes.
abbrev pub meta_tool_names : List String
meta_tool_names = "search_tools" ∷ "describe_tool" ∷ "run_tool" ∷ "context_cost" ∷ []
