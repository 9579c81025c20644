-- ===== src/Examples.antt =====
-- The theorems at concrete inputs.
pub mod Endian
pub mod Headers
pub mod Checkpoints
pub mod Messages
pub mod FileLists
pub mod ChunkLists
pub mod Histories
pub mod Meetings
pub mod Sorting
pub mod Logs
pub mod Controllers
pub mod Queues
