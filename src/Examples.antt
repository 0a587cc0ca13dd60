-- ===== src/Examples.antt =====
-- The theorems at concrete inputs: a surface "crm", its callers and its backend.
mod Gateway
mod Admin
mod Tools
mod Data
mod Auth
mod Consent
mod Identity
mod Limits
mod Stops
mod Calls
mod Registry
