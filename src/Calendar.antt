-- ===== src/Calendar.antt =====
-- Dates as the compliance engine reads them (src/hrmosaic/mcpserver/rules.py, the section on date
-- arithmetic): Python's `date` is its proleptic ordinal, so `+ timedelta(days=n)`, `-`, `<=` and
-- `weekday()` are arithmetic. `Iso` reads ISO-8601 texts, `Business` holds the two business-day
-- walks, and the other children prove.
pub mod Civil
pub mod Iso
pub mod Business
pub mod Month
