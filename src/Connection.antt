-- ===== src/Connection.antt =====
-- pajamax/src/connection.rs: one connection, from the bytes that it reads to the requests that it
-- starts and the jobs that it sends to the writer.
pub mod Process
pub mod Feed
pub mod Invariant
pub mod Termination
pub mod Settings
pub mod Credit
mod Runs
