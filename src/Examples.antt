-- ===== src/Examples.antt =====
-- The theorems at concrete inputs.
mod Addresses
mod Strings
mod Transfers
mod Buckets
mod Digests
mod Sequences
mod Stores
mod Logs
mod Nets
mod Puts
mod Requests
mod Clients
