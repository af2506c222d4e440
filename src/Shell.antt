-- ===== src/Shell.antt =====
-- Proyecto1/user: the shell. Proyecto2/user has the same files.
pub mod Parser
pub mod Scan
pub mod Words
pub mod Pipe
pub mod Commands
pub mod Descriptors
pub mod Children
