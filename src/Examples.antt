-- ===== src/Examples.antt =====
-- Runs of the theorems on concrete inputs.
mod Runs
mod Streams
mod Buffers
mod Jobs
mod MemoryEdits
mod Conversations
mod Files
mod Managing
mod Configurations
mod Calls
mod Teachers
mod Working
mod Intakes
mod Uploads
