-- ===== src/Counter.antt =====
-- comment-service/internal/data and comment-task/internal/task: the asynchronous counters of a
-- post. The service adds deltas to Redis; the task claims them in batches and books each batch in
-- `post_counter`.
pub mod State
pub mod Scripts
pub mod Flush
pub mod Batches
pub mod Ledger
pub mod Stored
pub mod Conservation
pub mod Handlers
pub mod Read
pub mod Reconcile
pub mod Counts
pub mod Recovery
pub mod Stuck
pub mod Marks
pub mod Delivery
pub mod Tests
