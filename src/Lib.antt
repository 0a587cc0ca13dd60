-- ===== src/Lib.antt =====
-- beherouter, an MCP gateway: it publishes the tools of many backends as surfaces, and every call of a
-- published tool takes one path. The development models that path and what stands along it.
--
-- Parts, and the files that model them (paths of the code are under src/beherouter/):
-- - Errors.antt: errors.py, the classes of errors, the table of reasons and `tag`. Fallible code gives
--   a `Result`, whose `raise` carries the exception.
-- - Outcomes.antt: outcomes.py, `classify` and `error_result`, which the pipeline ends a failed call by.
-- - Pipeline.antt: pipeline.py, `run`, `_execute` and `_record`. A call takes a scope and a world `W`,
--   which the stages, the catalogue and the backend read and change; a tool's `work(scope)` is a tree of
--   what it does with the scope. Scope.antt holds the scope and what a call leaves: the observation of
--   the metrics, the audit line, the log line. Gated.antt runs the stages of gates.py in their order.
-- - KillSwitch.antt: killswitch.py, the state in the file; Cache.antt is the cached file with `state`,
--   Write.antt is `update`, Stage.antt the stage that the gateway puts first on every surface.
-- - Identity.antt: identity.py, `claim_at` and `check_roles`; Policy.antt is `IdentityPolicy` with its
--   gate and its modes, Request.antt the live request, Tables.antt with its children the tables of the
--   registry, with tokenexchange.py's part of them in Tables/Exchange.antt; SecretMap.antt is the cached
--   identity map.
-- - Gates.antt: gates.py, the role gate and the confirmation gate; Rate.antt is the token bucket, and
--   Table.antt makes the stages of a surface from its entry.
-- - Reload.antt: reload.py, the diff of two registries; Reloader.antt is the serialised reloader as a
--   state machine over requests, starts and ends of a reload, and the shutdown.
-- - Runtime.antt: runtime.py, the surfaces of the gateway with their slots, supervisors and retries, one
--   function for what the code does between two awaits; Boot.antt is the boot and the start, with
--   gateway.py's `build_surfaces`; Turn.antt is a reload, Shutdown.antt the shutdown, Health.antt the
--   body of /healthz. The proofs are in Tidy, InForce, Tended, Keeps and Race.
-- - Registry.antt: registry.py, the validation of an entry and the loading of the file.
-- - Admin.antt: admin.py, who an admin is and the requests that change the kill switch.
-- - Args.antt: args.py and schema.py, the arguments from the client's spelling to the backend's.
-- - Surface.antt: surface.py, the listing, the suggestions and the work of the tools that a surface
--   publishes, as works of the pipeline.
-- - TokenExchange.antt: tokenexchange.py, the exchanger with its cache and the exchanges in flight.
-- - Auth.antt: auth.py, the verifiers of tokens, how they are built and composed, and the observer that
--   counts refusals; Middleware.antt rewrites a 401. Digest.antt is Python's `compare_digest`.
-- - Consent.antt: plugins/calendar/consent.py, the targets and the providers of a calendar grant. Disk.antt
--   is the world of a consent run, Writer.antt writes the identity map, Code.antt is the browser
--   round-trip and the exchange of the code, Grant.antt the grant, its revocation and `run`.
-- - Envexpand.antt: envexpand.py, the placeholders of credentials.
-- - Catalogue.antt: catalogue.py, a backend's tools with their freshness; `ensure_fresh` is split where
--   it awaits the backend, so that calls interleave with it.
-- - Naming.antt: naming.py. Audit.antt: audit.py, the caller and the line. Models.antt: models.py.
-- - Prelude.antt and Data.antt: shared helpers; the values of JSON and TOML.
-- - Examples.antt: each theorem at a concrete input.
--
-- A call runs from the guard of the surface's policy (Identity) to the stages of the surface
-- (KillSwitch), then the tool's work; where that calls the backend, the per-tool stages (Gates), the
-- caller's identity and the executor follow. Every end is classified (Outcomes) and recorded (Audit).
--
-- Numbers and time: a clock is a natural number of nanoseconds that does not run backwards, and a
-- finite float of the configuration is a whole number of nanoseconds. The rate limiter counts parts of
-- a token, as many to a token as its window has nanoseconds, so that its arithmetic is exact where the
-- code rounds floats. The one loop on fuel is that of
-- Args.antt that makes a parameter's name fresh, with one round for each name taken and one more, which
-- is proved to be enough; the others go over lists, values and event lists.
--
-- Parameters, for code that is not in the repository or not modelled: `Host` (lower case, the print of
-- a value, SHA-256, `urlsplit`), `Python` (its characters, keywords and equality of values), the live
-- request and the verified token of FastMCP, the envelope of beheaxi, the identity map, the executor
-- under its time limit, the stat and the content of the kill switch's file and its writer, the search
-- with its index and suggestions, the outcome of an attach and of an app's start, what a registry loads
-- to with its fingerprints, the responses of a token endpoint, and a surface's slots that others change
-- while a task waits, as lists of steps; FastMCP's JWT verifier with the lines that it logs; and, for a
-- consent run, TOML documents, the calls of the system and which of them fail, the random texts, the
-- providers' endpoints, the rounds of the listener, and what other processes do to the map meanwhile.
--
-- Not modelled: texts of messages, the question of a confirmation, the ranking of a search,
-- the measurement of costs, the writing of the registry, the metrics, the triggers of a reload, the
-- probes, the backends, the plugins but for the consent, and the command line. A stage has
-- no way to change the scope of a call, and those of the code do not change it. At the start of the
-- gateway no other task steps between two installs. An app is taken not to die between its start and
-- its install, and a task that is cancelled makes no further step but to close what it built.
pub mod Prelude
pub mod Data
pub mod Errors
pub mod Digest
pub mod Auth
pub mod Envexpand
pub mod Consent
pub mod Examples
pub mod Outcomes
pub mod Identity
pub mod Audit
pub mod Models
pub mod Gates
pub mod Pipeline
pub mod Reload
pub mod Runtime
pub mod Admin
pub mod Args
pub mod TokenExchange
pub mod Surface
pub mod Registry
pub mod Catalogue
pub mod Naming
pub mod KillSwitch
