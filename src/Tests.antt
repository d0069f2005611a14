-- ===== src/Tests.antt =====
-- The definitions at concrete inputs, by part of the program.
mod Periods
mod Scenarios
mod Loads
mod Reads
mod Scopes
mod Calls
mod Plans
mod Backups
mod Identities
