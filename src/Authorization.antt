-- ===== src/Authorization.antt =====
-- internal/flowsplice-core/src/authorization.rs: the credentials that authorize a Travel device.
pub mod Scope
pub mod Credential
pub mod Snapshot
pub mod Access
mod Indexing
pub mod Latest
mod Active
pub mod Grants
pub mod Samples
mod Runs
pub mod Cache
