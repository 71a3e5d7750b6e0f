-- ===== src/Filesystem.antt =====
-- Transactions on directories.
pub mod DirectoryTransaction
