-- ===== src/Queue.antt =====
-- The queues of src/models: the priority queue, and the tasks that run at the same time.
pub mod Interface
pub mod Priority
pub mod Heap
pub mod Tasks
pub mod Progress
pub mod Runs
