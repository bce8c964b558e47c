-- ===== src/Processor.antt =====
-- The processor of crates/citeproc/src/processor.rs: the edits of a document (Clusters, Edits) and of
-- its references (References, Known), previews (Preview, with Restored for a cluster that is replaced
-- and Placed, Log and Marked for a new order), and the updates for a client (Updates, with Sync, Client
-- and Batched).
mod Tests
mod ClientTests
pub mod Batched
pub mod Client
pub mod Clusters
pub mod Edits
pub mod Preview
pub mod Restored
pub mod References
pub mod Known
pub mod Log
pub mod Placed
pub mod Marked
pub mod Sync
pub mod Updates
