-- ===== src/Examples.antt =====
-- The theorems at concrete inputs, a file for each part of the program.
pub mod Extensions
pub mod Clients
pub mod Limits
pub mod Jobs
pub mod Access
pub mod Gateway
pub mod Accounts
pub mod Token
pub mod Searches
pub mod Reroutes
pub mod Windows
pub mod Pools
pub mod Races
pub mod Threads
pub mod Starts
pub mod Dispatch
pub mod Rerouted
