-- ===== src/Store.antt =====
-- internal/store: the records of store.go, and the in-memory store of memory.go.
pub mod Types
pub mod Memory
pub mod Updates
pub mod Calls
pub mod Index
pub mod Batches
pub mod Recovery
pub mod Saving
pub mod Frame
pub mod Fence
pub mod Terms
pub mod Search
pub mod Listing
