-- ===== src/Xds.antt =====
-- internal/xds: the server that tells the points of presence and the devices their tenants'
-- resources. Auth is subauth.go; Resources is the reading of a tenant's resources into the caches and
-- Server the streams and their subscriptions, both of server.go.
pub mod Auth
pub mod Resources
pub mod Server
pub mod Requests
mod Unchanged
mod Counts
pub mod Tables
mod Accounting
pub mod Steps
pub mod Isolation
pub mod Answers
pub mod Eviction
pub mod Reconcile
pub mod Client
pub mod Protocol
mod Tests
