-- ===== src/Tests.antt =====
-- Each theorem at a concrete input.
pub mod Search
pub mod Index
mod Ranking
mod Protocols
mod Servers
mod Lists
mod Machines
mod Requests
