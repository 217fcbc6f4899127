-- ===== src/Lib.antt =====
-- Verification of the deterministic core of the HR assistant: the compliance rule engine, the
-- confirmation gate of its write tool, its model calls, the guardrails and the stream of its
-- answers, the ranking of its evidence, and smaller parts that its answers rest on.
--
-- How the parts interact. A tool call reaches the rule engine, which reads the rules file, the
-- facts and one call's arguments and returns a result body. A write goes through the confirmation
-- gate: the web layer mints a confirmation for the exact arguments, the tool validates it and
-- consumes it. The agent's prompts go through one logical model call each, which waits for a token
-- of the bucket, meters, retries and records itself. While the last call writes the answer, its
-- finished blocks leave through the stream; the whole answer then goes through the guardrails and
-- the breadth check, in the order evidence gate, citations, facts, and the citations that a later
-- step took are carried back.
--
-- Files, with the code that each is about (paths from the repository's root):
--   Prelude: shared tests, lists, texts, dictionaries and integers.
--   Calendar: the date arithmetic of src/hrmosaic/mcpserver/rules.py. A date is its proleptic ordinal.
--   Rules: src/hrmosaic/mcpserver/rules.py. Data has its records, Value and Print its Python values,
--     Spans and Computed the methods of `Context`, Operators `_literal`, `_compare_value`, `_apply` and
--     `guard_holds`, Engine `_evaluate_requirement`, `_settle_manual`, `_verdict` and
--     `derive_parameters`, Evaluate `tenure_eligible_on` and `evaluate`.
--   Gate: src/hrmosaic/mcpserver/confirm.py, src/hrmosaic/core/canonical.py,
--     src/hrmosaic/core/queues.py and `_ticket` of
--     src/hrmosaic/mcpserver/tools/create_mock_hr_ticket.py. Store has the tables and the SQL
--     statements, Confirm the operations, SingleUse the steps of interleaved calls.
--   Llm: src/hrmosaic/core/llm/limiter.py (Counter, and Limiter for `TokenBucket`) and
--     src/hrmosaic/core/llm/base.py (Call).
--   Stream: src/hrmosaic/agent/answer_stream.py. `advance` is `_BlockScanner.advance`, `pass` the body of
--     its loop, `drain`, `feed` and `stream` the methods of `AnswerAssembler`. Objects has the grammar of
--     the texts that a well-formed array holds.
--   Guards: src/hrmosaic/agent/guardrails. Evidence is g1.py, Citations g2.py with its loops in
--     Citations/Cascade, Facts g3.py, Shield g4.py and `scan` of src/hrmosaic/core/injection.py,
--     Escalation g5.py, and Breadth src/hrmosaic/agent/breadth.py.
--   Approvers: src/hrmosaic/mcpserver/approvers.py.
--   Windows: `_cut` and `windows` of src/hrmosaic/rag/chunk.py.
--   Session: src/hrmosaic/agent/session.py.
--   Redact: src/hrmosaic/core/redact.py and src/hrmosaic/agent/guardrails/g6.py.
--   Retrieval: `rrf_score` and `retrieve` of src/hrmosaic/rag/retrieve.py.
--   Tests: runs on small inputs.
--
-- State and errors. An exception is a value of a result type: `RuleError` in Rules, an option in
-- the gate, the approvers and the citation check, `Refusal` in Llm. State is passed explicitly:
-- the store of the gate, the counter and the spans of a turn, the scanner of the stream, the
-- memory of the citation check. Clocks, random tokens and round trips are arguments.
--
-- Fuel. The walk of `span_end` is given `walk_fuel` rounds, three for each day up to the last
-- holiday and for each business day sought. The loop of `windows` is given one round more than the
-- text has characters. `show` is given as many rounds as its number. `chain` recurses on what is
-- left of `MAX_DEPTH`, and the walk of the injection shield on the levels left. `acquire` of the
-- token bucket has one round more than the parts of a call, since each sleep brings in at least
-- one part.
--
-- Parameters for code outside the repository: the chunk rows of the corpus index, `repr` of a
-- float, `int` and `float` of a text (Rules.Data.World), `json.dumps` (Gate.Confirm.Json),
-- `str.casefold` (Approvers.Tables), the provider's round trips (Llm.Call.Invoke), `json.loads`
-- (Stream), what the patterns of the regular-expression engine find (Guards.Shield,
-- Guards.Escalation) and the words of a claim (Guards.Breadth), how a score prints
-- (Guards.Evidence), the index that a chunk id is looked up in (Guards.Citations), the rows that
-- the two indexes return (Retrieval), and how long a sleep lasts (Llm.Limiter). The
-- stream takes `redact_text`, which Redact defines, as an argument.
--
-- Not modelled: dates after the year 9999, infinite floats and NaN, the rounding of integers above
-- 2 ^ 53 to floats, the loading of the rules file and its cache, token counts and costs of a model
-- call, slot values that are lists or mappings, the rounding of scores and of the token bucket, the
-- counts that a guardrail's span carries as details, the removal of
-- old confirmations by retention; the web layer, the agent's orchestration, the indexes and
-- embedding, storage and tracing, which are I/O or third-party code or are driven by model
-- answers.
pub mod Prelude
pub mod Calendar
pub mod Rules
pub mod Gate
pub mod Llm
pub mod Approvers
pub mod Windows
pub mod Session
pub mod Stream
pub mod Retrieval
pub mod Redact
pub mod Guards
pub mod Tests
