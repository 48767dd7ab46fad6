-- ===== src/Hash.antt =====
-- src/common/hash.c: `gfs_hashfn`, and the jump hash that spreads hashes over buckets.
pub mod Jump
pub mod Mix
pub mod Double
