-- ===== src/Manager.antt =====
-- The Manager of internal/app/manager.go. A critical section, that is, what runs between a
-- `m.mu.Lock` and the next `Unlock`, is one function on the record of `Manager.State`;
-- `Manager.Protocol` interleaves them. A pointer to a jobState, a context and a removalAttempt are
-- numbers, given out in order.
pub mod State
pub mod Requests
pub mod Workers
pub mod Protocol
pub mod Quiet
pub mod Invariant
pub mod Recover
pub mod Removal
pub mod Liveness
pub mod Queue
pub mod Listing
pub mod TitleFetch
pub mod Admission
