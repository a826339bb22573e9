-- ===== src/Journal.antt =====
-- `ext4-core/src/journal/`: the log that makes updates atomic.
pub mod Transaction
pub mod Load
pub mod Replay
pub mod Mount
pub mod Format
pub mod Writer
