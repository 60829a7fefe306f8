-- ===== src/Tests.antt =====
-- The theorems at concrete inputs, and runs of the definitions.
mod Codec
mod Numbers
mod Loops
mod Registry
mod Work
mod Assignments
mod Serving
mod Tasks
mod Clients
mod Sessions
mod Events
