-- ===== src/Rules.antt =====
-- The deterministic rule engine behind `check_policy_compliance` (src/hrmosaic/mcpserver/rules.py).
pub mod Value
pub mod Print
pub mod Data
pub mod Spans
pub mod Computed
pub mod Operators
pub mod Engine
pub mod Evaluate
