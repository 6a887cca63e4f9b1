-- ===== src/Renewal.antt =====
-- redisson-rs/src/renewal: what keeps a held lock from expiring.
pub mod LockEntry
