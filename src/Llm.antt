-- ===== src/Llm.antt =====
-- The model calls: the count behind the daily cap (Llm/Counter), and one logical call with its
-- backoff, its failover and its one span (Llm/Call).
pub mod Counter
pub mod Trust
pub mod Call
pub mod Bounds
pub mod Recorded
pub mod Limiter
