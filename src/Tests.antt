-- ===== src/Tests.antt =====
-- Concrete states of the parts, and what the theorems say of them.
mod Queues
mod Histories
mod Sessions
mod Filters
mod Uploads
mod Records
mod Requests
mod Merges
mod Setups
mod Credentials
mod Clients
mod Flushes
