-- ===== src/Handler.antt =====
-- src/dns/handler.rs, `DnsHandler`: the answer to a query, and what it does to the handler's state.
-- The caches, counters and logs that the tasks share are fields of the state, which the operations
-- pass on. A `Result` is an Option that forgets the error.
pub mod Responses
pub mod State
pub mod Steps
pub mod Handle
pub mod Kept
pub mod Always
pub mod Filtered
pub mod Order
pub mod Replay
pub mod Rewriting
