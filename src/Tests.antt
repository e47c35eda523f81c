-- ===== src/Tests.antt =====
-- The theorems applied to concrete runs, counters and calls.
mod Samples
mod Writes
mod Claims
mod Starts
mod Calls
mod Pages
mod Executions
mod Hops
mod Streams
mod Profiles
