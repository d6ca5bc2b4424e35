-- ===== src/Tests.antt =====
-- Runs on small data that can be followed in the source, and the theorems at concrete inputs.
mod Ingress
mod Publishing
mod Snapshots
mod Replaying
mod Registering
mod Commands
mod Carts
mod Starting
mod Reads
mod Products
mod Jobs
mod Submitting
mod Totals
mod Verifying
