-- ===== src/Capability.antt =====
-- src/datasluice/runtime/capability.py and domain/catalog/profiles.py: what a deployment can do,
-- from probes that threads share. Times are natural numbers of one clock.
pub mod Profiles
pub mod Evidence
pub mod Entries
pub mod Guard
pub mod Flights
pub mod Threads
pub mod Consistency
pub mod Unmoved
pub mod Sharing
pub mod Doomed
pub mod Invalidation
pub mod Provenance
pub mod Bounds
pub mod Scopes
pub mod Recorded
pub mod Derived
pub mod Tests
